-- ===== src/Buddy/Tests.antt =====
-- The theorems about the buddy allocator at concrete inputs, and a run of the code.
use learn_os.Base.{
  ◌^◌, ℕ, ◌+◌, ◌-◌, ◌*◌, ◌≤◌, ◌≡◌, refl, false, ◌&&◌, Option, some, [], ◌∷◌, arith, ltb, ◌==◌,
  ◌>>=◌, update, if◌then◌else◌,
}
use learn_os.Buddy.Layout.{Linker, IsLinked, page, pnum_max, kernbase, pnum_to_pa, pa_to_pnum}
use learn_os.Buddy.Bitmap.{Bitmap, init_bitmap, setbitmap, getbitmap, bitmap_offset, bit_of}
use learn_os.Buddy.Bitmap.Laws.{getbitmap-setbitmap}
use learn_os.Buddy.FreeList.{Buddy, insertfirst, erasefirst, erase_run, getfirst}
use learn_os.Buddy.FreeList.Represents.{Lists, free_count, holds}
use learn_os.Buddy.Alloc.{
  buddy_alloc, buddy_free, find_order, split, merge, is_free, buddy_pnum, lower_pnum,
}
use learn_os.Buddy.Alloc.Sound.{IsSound, insertfirst-IsSound}
use learn_os.Buddy.Alloc.Take.{Allocated, buddy_alloc-Allocated}
use learn_os.Buddy.Alloc.Give.{buddy_free-Frees}
use learn_os.Buddy.Init.{buddy_init, init_freelist, init_heads, init_small, init_large}
use learn_os.Buddy.Init.Correct.{buddy_init-IsSound, no_blocks, no_blocks-IsSound, no_blocks-free}

abbrev linker : Linker
linker = record { kernel_end = kernbase + 0x23456; freelist_page = kernbase + 0x20000 }

linked : IsLinked linker
linked = omega arith

-- memory that holds 7 everywhere
abbrev memory : Buddy
memory = record { next = λ a. 7; prev = λ a. 7; bitmap = λ i. 7 }

abbrev bare : Buddy
bare = init_heads linker 12 0 (record memory { bitmap = init_bitmap })

bare-IsSound : IsSound linker bare no_blocks
bare-IsSound = no_blocks-IsSound linker (record memory { bitmap = init_bitmap }) refl

-- The address of a first allocation of 8 pages, and of a second one after the first is freed.
alloc_twice : Option (ℕ × ℕ)
alloc_twice = do
  b ← buddy_init linker memory
  one ← buddy_alloc linker b 3
  b' ← buddy_free linker one.1 one.0 3
  two ← buddy_alloc linker b' 3
  some (one.0, two.0)

alloc_twice_runs : alloc_twice ≡ some (0x8800_0000 - 12 * 4096, 0x8800_0000 - 12 * 4096)
unfolding alloc_twice buddy_init init_freelist init_heads init_small init_large insertfirst
    erasefirst erase_run getfirst buddy_alloc buddy_free find_order split merge is_free buddy_pnum
    lower_pnum setbitmap getbitmap bitmap_offset pnum_to_pa pa_to_pnum
alloc_twice_runs = refl

buddy_init-IsSound_example :
    (b' : Buddy) × (L : Lists) × (buddy_init linker memory ≡ some b')
    × IsSound linker b' L
    × ((p : ℕ) → free_count L p ≡ (if ltb p (pnum_max linker) then 1 else 0))
buddy_init-IsSound_example = buddy_init-IsSound linker linked memory

-- the state after `buddy_init`
abbrev booted :
    (b' : Buddy) × (L : Lists) × (buddy_init linker memory ≡ some b')
    × IsSound linker b' L
    × ((p : ℕ) → free_count L p ≡ (if ltb p (pnum_max linker) then 1 else 0))
booted = buddy_init-IsSound linker linked memory

buddy_alloc-Allocated_example : Allocated linker linked booted.0 booted.1 3
buddy_alloc-Allocated_example = buddy_alloc-Allocated linker linked 3 booted.3 (omega arith)

holds-le : (x o p : ℕ) → holds x o p ≤ 1
unfolding holds
holds-le x o p = ground arith

buddy_free-Frees_example :
    (b' : Buddy) × (L' : Lists) × (buddy_free linker bare (page linker 8) 3 ≡ some b')
    × IsSound linker b' L'
    × ((p : ℕ) → free_count L' p ≡ free_count no_blocks p + holds 8 3 p)
buddy_free-Frees_example =
    buddy_free-Frees linker linked 8 3 bare-IsSound (omega arith) (refl, omega arith)
      (λ p. omega (arith, no_blocks-free 12 p, holds-le 8 3 p))

-- an allocator that holds block 8 of order 3 and no other
abbrev one_block : Lists
one_block = update no_blocks 3 (8 ∷ [])

abbrev one :
    (b' : Buddy) × (insertfirst linker bare (page linker 8) 3 ≡ some b')
    × IsSound linker b' one_block
one =
    insertfirst-IsSound linker linked bare-IsSound 3 (omega arith) 8 (refl, omega arith)
      (λ p. omega (arith, no_blocks-free 12 p, holds-le 8 3 p))

getbitmap-setbitmap_example :
    (m' : Bitmap) × (v w : ℕ) × (setbitmap init_bitmap 8 3 false ≡ some m')
    × (getbitmap m' 8 2 ≡ some v)
    × (getbitmap init_bitmap 8 2 ≡ some w)
    × (v ≡ (if (3 == 2) && (8 == 8) then (if false then 2 ^ bit_of 8 2 else 0) else w))
getbitmap-setbitmap_example =
    getbitmap-setbitmap init_bitmap (λ i. omega arith) 8 8 3 2 false (omega arith) (omega arith)
      (omega arith) (omega arith) refl refl
