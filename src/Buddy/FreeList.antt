-- ===== src/Buddy/FreeList.antt =====
-- kernel/kalloc.c: the doubly linked lists of free blocks, one for each order. A block's `struct
-- run` lies in the block itself, so the lists are two functions from addresses to addresses, and
-- `buddy.freelist_page[order]` is one more address; 0 is `NULL`.
pub mod Chain
pub mod Represents
pub mod Separate
pub mod Ops
use learn_os.Base.{
  ℕ, true, false, Option, some, ◌==◌, ◌>>=◌, ◌>>◌, guard, not, update, if◌then◌else◌,
}
use learn_os.Buddy.Layout.{Linker, head, pa_to_pnum}
use learn_os.Buddy.Bitmap.{Bitmap, setbitmap}

-- The variable `buddy`, and the `prev` and `next` of every `struct run` in memory.
pub record Buddy : Type 0 where
  pub next : ℕ → ℕ
  pub prev : ℕ → ℕ
  pub bitmap : Bitmap

module _ (l : Linker) where
  unfoldable pub getfirst : Buddy → ℕ → ℕ
  getfirst b order = b.next (head l order)

  unfoldable pub insertfirst : Buddy → ℕ → ℕ → Option Buddy
  insertfirst b a order = do
    let h = head l order
    let prev = update b.prev a h
    let next = update b.next a (b.next h)
    let prev' = if next h == 0 then prev else update prev (next h) a
    let next' = update next h a
    pnum ← pa_to_pnum l a
    bitmap ← setbitmap b.bitmap pnum order false
    some (record { next = next'; prev = prev'; bitmap = bitmap })

  unfoldable pub erasefirst : Buddy → ℕ → Option (ℕ × Buddy)
  erasefirst b order = do
    let h = head l order
    let first = b.next h
    guard (not (first == 0))
    let next = update b.next h (b.next first)
    let prev = if next first == 0 then b.prev else update b.prev (next h) h
    pnum ← pa_to_pnum l first
    bitmap ← setbitmap b.bitmap pnum order true
    some (first, record { next = next; prev = prev; bitmap = bitmap })

  unfoldable pub erase_run : Buddy → ℕ → ℕ → Option Buddy
  erase_run b ptr order = do
    guard (not (b.prev ptr == 0))
    let next = update b.next (b.prev ptr) (b.next ptr)
    let prev = if next ptr == 0 then b.prev else update b.prev (next ptr) (b.prev ptr)
    pnum ← pa_to_pnum l ptr
    bitmap ← setbitmap b.bitmap pnum order true
    some (record { next = next; prev = prev; bitmap = bitmap })
