-- ===== src/Pages/Tests.antt =====
-- The theorems about `kalloc` and `kfree` at concrete inputs.
use learn_os.Base.{ℕ, ◌+◌, ◌≡◌, refl, some, arith}
use learn_os.Buddy.Layout.{Linker, IsLinked, page, kernbase}
use learn_os.Buddy.Bitmap.{init_bitmap}
use learn_os.Buddy.FreeList.{Buddy}
use learn_os.Buddy.FreeList.Represents.{Lists, free_count}
use learn_os.Buddy.Init.{init_heads}
use learn_os.Buddy.Init.Correct.{no_blocks, no_blocks-IsSound, no_blocks-free}
use learn_os.Pages.{Memory, kfree, krefcnt}
use learn_os.Pages.Correct.{IsKept, KAlloc, kalloc-KAlloc, kfree-last, only}

abbrev linker : Linker
linker = record { kernel_end = kernbase + 0x23456; freelist_page = kernbase + 0x20000 }

linked : IsLinked linker
linked = omega arith

abbrev cleared : Buddy
cleared = record { next = λ a. 0; prev = λ a. 0; bitmap = init_bitmap }

-- Every page is in use, with the given number of references.
abbrev busy : ℕ → Memory
busy c = record { buddy = init_heads linker 12 0 cleared; cnt = λ i. c }

busy-IsKept : (c : ℕ) → IsKept linker (busy c) no_blocks
busy-IsKept c = record {
  sound = no_blocks-IsSound linker cleared refl;
  kept = λ x h k. no_blocks-free 12 x;
}

kalloc-KAlloc_example : KAlloc linker linked (busy 1) no_blocks
kalloc-KAlloc_example = kalloc-KAlloc linker linked (busy-IsKept 1)

kfree-last_example :
    (m' : Memory) × (L' : Lists) × (kfree linker (busy 1) (page linker 5) ≡ some m')
    × IsKept linker m' L'
    × (krefcnt linker m' (page linker 5) ≡ 0)
    × ((p : ℕ) → free_count L' p ≡ free_count no_blocks p + only 5 p)
unfolding krefcnt
kfree-last_example = kfree-last linker linked 5 (busy-IsKept 1) (omega arith) refl
