-- ===== src/Buddy/Init.antt =====
-- kernel/kalloc.c: `buddy_init`, which makes all pages above the kernel free.
pub mod Correct
use learn_os.Base.{
  ℕ, zero, suc, ◌+◌, ◌*◌, ◌/◌, ◌%◌, ◌^◌, Option, some, leb, ◌==◌, ◌>>=◌, update, if◌then◌else◌,
}
use learn_os.Buddy.Layout.{Linker, head, max_order, pnum_max, pnum_to_pa}
use learn_os.Buddy.Bitmap.{init_bitmap}
use learn_os.Buddy.FreeList.{Buddy, insertfirst}

module _ (l : Linker) where
  -- The first loop of `buddy_init_freelist`, from order `i` on.
  unfoldable pub init_heads : ℕ → ℕ → Buddy → Buddy
  init_heads zero i b = b
  init_heads (suc n) i b =
      init_heads n (i + 1)
        (record b { next = update b.next (head l i) 0; prev = update b.prev (head l i) 0 })

  -- The second loop, from order `i` on: one block for each bit of `pnum_max`.
  unfoldable pub init_small : ℕ → ℕ → Buddy → Option Buddy
  init_small zero i b = some b
  init_small (suc n) i b = if pnum_max l / 2 ^ i % 2 == 0 then init_small n (i + 1) b else (do
    pa ← pnum_to_pa l (pnum_max l / 2 ^ (i + 1) * 2 ^ (i + 1))
    b' ← insertfirst l b pa i
    init_small n (i + 1) b')

  -- The third loop, for at most the given number of rounds: blocks of the greatest order.
  unfoldable pub init_large : ℕ → ℕ → Buddy → Option Buddy
  init_large zero pnum b = some b
  init_large (suc n) pnum b =
      if leb (pnum + 2 ^ max_order) (pnum_max l)
      then (do
        pa ← pnum_to_pa l pnum
        b' ← insertfirst l b pa max_order
        init_large n (pnum + 2 ^ max_order) b')
      else some b

  unfoldable pub init_freelist : Buddy → Option Buddy
  init_freelist b = do
    b' ← init_small max_order 0 (init_heads (max_order + 1) 0 b)
    init_large (pnum_max l) 0 b'

  -- `buddy_init`, from whatever memory holds.
  unfoldable pub buddy_init : Buddy → Option Buddy
  buddy_init b = init_freelist (record b { bitmap = init_bitmap })
