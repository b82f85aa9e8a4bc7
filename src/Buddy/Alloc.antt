-- ===== src/Buddy/Alloc.antt =====
-- kernel/kalloc.c: `buddy_alloc` and `buddy_free`.
pub mod Blocks
pub mod Sound
pub mod Take
pub mod Give
use learn_os.Base.{
  ℕ, zero, suc, ◌+◌, ◌-◌, ◌*◌, ◌/◌, ◌%◌, ◌^◌, false, Bool, Option, none, some, ltb, leb, ◌==◌, ◌&&◌,
  ◌>>=◌, ◌>>◌, guard, if◌then◌else◌,
}
use learn_os.Buddy.Layout.{Linker, pgsize, max_order, pnum_max, pnum_to_pa, pa_to_pnum}
use learn_os.Buddy.Bitmap.{aligned, getbitmap}
use learn_os.Buddy.FreeList.{Buddy, getfirst, insertfirst, erasefirst, erase_run}

-- `pnum ^ (1 << order)` and `pnum & ~(1 << order)`: the bit of weight `2 ^ order` flipped, and cleared.
unfoldable pub buddy_pnum : ℕ → ℕ → ℕ
buddy_pnum pnum order = if pnum / 2 ^ order % 2 == 0 then pnum + 2 ^ order else pnum - 2 ^ order

unfoldable pub lower_pnum : ℕ → ℕ → ℕ
lower_pnum pnum order = if pnum / 2 ^ order % 2 == 0 then pnum else pnum - 2 ^ order

module _ (l : Linker) where
  -- The first loop of `buddy_alloc`, for at most the given number of rounds.
  unfoldable pub find_order : ℕ → Buddy → ℕ → ℕ
  find_order zero b k = k
  find_order (suc f) b k =
      let rest = find_order f b (k + 1) in
      if leb k max_order && (getfirst l b k == 0) then rest else k

  -- The second loop of `buddy_alloc`: `free_order` goes down by 1 in each round.
  unfoldable pub split : ℕ → Buddy → ℕ → ℕ → Option Buddy
  split zero b mem_block free_order = some b
  split (suc n) b mem_block free_order = do
    let upper_block = mem_block + 2 ^ (free_order - 1) * pgsize
    b' ← insertfirst l b upper_block (free_order - 1)
    split n b' mem_block (free_order - 1)

  -- The result is an address, 0 for `NULL`.
  unfoldable pub buddy_alloc : Buddy → ℕ → Option (ℕ × Buddy)
  buddy_alloc b order =
      if ltb max_order order
      then none
      else (let free_order = find_order (max_order + 1) b order in
          if ltb max_order free_order then some (0, b) else (do
            taken ← erasefirst l b free_order
            b' ← split (free_order - order) taken.1 taken.0 free_order
            some (taken.0, b')))

  -- The test of `buddy_free`'s loop: the bitmap is read only for a page that exists.
  unfoldable pub is_free : Buddy → ℕ → ℕ → Option Bool
  is_free b pnum order =
      if ltb pnum (pnum_max l)
      then (do bit ← getbitmap b.bitmap pnum order; some (bit == 0))
      else some false

  -- The loop of `buddy_free` and what follows it; the number of rounds left is `MAX_ORDER - freeorder`.
  unfoldable pub merge : ℕ → Buddy → ℕ → ℕ → Option Buddy
  merge zero b pnum freeorder = do pa ← pnum_to_pa l pnum; insertfirst l b pa freeorder
  merge (suc n) b pnum freeorder = do
    free ← is_free b (buddy_pnum pnum freeorder) freeorder
    if free
        then (do
          buddy_ptr ← pnum_to_pa l (buddy_pnum pnum freeorder)
          b' ← erase_run l b buddy_ptr freeorder
          merge n b' (lower_pnum pnum freeorder) (freeorder + 1))
        else (do pa ← pnum_to_pa l pnum; insertfirst l b pa freeorder)

  -- Above `MAX_ORDER` neither the loop nor what follows it does anything.
  unfoldable pub buddy_free : Buddy → ℕ → ℕ → Option Buddy
  buddy_free b block_start order = do
    pnum ← pa_to_pnum l block_start
    guard (aligned pnum order)
    if ltb max_order order then some b else merge (max_order - order) b pnum order
