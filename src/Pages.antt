-- ===== src/Pages.antt =====
-- kernel/kalloc.c: the interface of the page allocator, `kalloc`, `kfree` and the reference counts.
-- What a page holds is modelled as far as the allocator reads it, its first two words.
pub mod Correct
pub mod References
mod Tests
use learn_os.Base.{
  ℕ, ◌+◌, ◌-◌, ◌/◌, ◌%◌, ◌^◌, Bool, Option, none, some, ltb, leb, ◌==◌, ◌&&◌, ◌>>=◌, ◌>>◌, guard,
  update, if◌then◌else◌,
}
use learn_os.Buddy.Layout.{Linker, pgsize, phystop}
use learn_os.Buddy.FreeList.{Buddy}
use learn_os.Buddy.Alloc.{buddy_alloc, buddy_free}

-- `buddy`, and `ref.cnt`, whose elements are 32-bit integers.
pub record Memory : Type 0 where
  pub buddy : Buddy
  pub cnt : ℕ → ℕ

-- `memset` on the page at `pa`, as the `struct run` there sees it
abbrev pub memset : Buddy → ℕ → ℕ → Buddy
memset b pa word = record b { next = update b.next pa word; prev = update b.prev pa word }

-- a word of bytes 1
abbrev pub junk : ℕ
junk = 0x0101_0101_0101_0101

module _ (l : Linker) where
  -- The test with which `kfree` and `kaddrefcnt` begin.
  abbrev pub is_page : ℕ → Bool
  is_page pa = (pa % pgsize == 0) && (leb l.kernel_end pa && ltb pa phystop)

  unfoldable pub kfree : Memory → ℕ → Option Memory
  kfree m pa = do
    guard (is_page pa)
    let count = (m.cnt (pa / pgsize) + (2 ^ 32 - 1)) % 2 ^ 32
    let cnt = update m.cnt (pa / pgsize) count
    if count == 0
        then (do
          b ← buddy_free l (memset m.buddy pa junk) pa 0
          some (record { buddy = b; cnt = cnt }))
        else some (record { buddy = m.buddy; cnt = cnt })

  -- With no page left the result is `NULL`, and `memset` writes there, where nothing is mapped.
  unfoldable pub kalloc : Memory → Option (ℕ × Memory)
  kalloc m = do
    taken ← buddy_alloc l m.buddy 0
    let cnt = update m.cnt (taken.0 / pgsize) 1
    if taken.0 == 0
        then none
        else some (taken.0, record { buddy = memset taken.1 taken.0 0; cnt = cnt })

  unfoldable pub krefcnt : Memory → ℕ → ℕ
  krefcnt m pa = m.cnt (pa / pgsize)

  -- The Boolean is true for the result 0, and false for -1.
  unfoldable pub kaddrefcnt : Memory → ℕ → Bool × Memory
  kaddrefcnt m pa =
      if is_page pa
      then (
        Bool.true,
        record m { cnt = update m.cnt (pa / pgsize) ((m.cnt (pa / pgsize) + 1) % 2 ^ 32) },
      )
      else (Bool.false, m)
