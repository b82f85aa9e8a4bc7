-- ===== src/Vm/Words.antt =====
-- The arithmetic of addresses, slots and page table entries.
use learn_os.Base.{ℕ, zero, suc, ◌+◌, ◌*◌, ◌/◌, ◌%◌, ◌^◌, ◌<◌, ◌≡◌, ◌≢◌, true, ap, arith, eq→==}
use learn_os.Vm.{maxva, pa2pte, pte2pa, is_valid, px, zeroed, leaf_pte}

pub px_lt : (l va : ℕ) → px l va < 512
px_lt l va = omega arith

-- Two slots of pages are the same only if the pages are and the indices are.
pub slot_page :
    (p q i j : ℕ) → p % 4096 ≡ 0 → q % 4096 ≡ 0 → i < 512 → j < 512 → p + 8 * i ≡ q + 8 * j → p ≡ q
slot_page p q i j a b c d e = omega arith

pub slot_index : (p i j : ℕ) → p + 8 * i ≡ p + 8 * j → i ≡ j
slot_index p i j e = omega arith

-- An entry for a page leads to the page.
pub pte2pa-pa2pte : (p f : ℕ) → p % 4096 ≡ 0 → p < 2 ^ 56 → f < 1024 → pte2pa (pa2pte p + f) ≡ p
pte2pa-pa2pte p f a b c = omega arith

pub pointer_valid : (p : ℕ) → p % 4096 ≡ 0 → p < 2 ^ 56 → is_valid (pa2pte p + 1) ≡ true
pointer_valid p a b = eq→== _ 1 (omega arith)

pub leaf_valid : (pa perm : ℕ) → is_valid (leaf_pte pa perm) ≡ true
leaf_valid pa perm = eq→== _ 1 (omega arith)

pub leaf_pte-wraps : (x y perm : ℕ) → leaf_pte (x % 2 ^ 64 + y) perm ≡ leaf_pte (x + y) perm
leaf_pte-wraps x y perm =
    let same : (x % 2 ^ 64 + y) % 2 ^ 64 ≡ (x + y) % 2 ^ 64 = omega arith in
    ap (λ z. z / 4096 * 1024 % 2 ^ 64 + (perm / 2 * 2 + 1)) same

-- What is in a zeroed page, and outside it.
pub zeroed_inside : (mem : ℕ → ℕ) (p i : ℕ) → i < 512 → zeroed mem p (p + 8 * i) ≡ 0
zeroed_inside mem p i h = ground arith

pub zeroed_outside :
    (mem : ℕ → ℕ) (p q i : ℕ)
    → p % 4096 ≡ 0
    → q % 4096 ≡ 0
    → i < 512
    → q ≢ p
    → zeroed mem p (q + 8 * i) ≡ mem (q + 8 * i)
zeroed_outside mem p q i a b h ne = ground arith

-- Three indices are a page number.
pub page_of_px :
    (va va' : ℕ)
    → va < maxva
    → va' < maxva
    → px 2 va ≡ px 2 va'
    → px 1 va ≡ px 1 va'
    → px 0 va ≡ px 0 va'
    → va / 4096 ≡ va' / 4096
page_of_px va va' a b c d e = omega arith

pub px_of_page : (l va va' : ℕ) → l < 3 → va / 4096 ≡ va' / 4096 → px l va ≡ px l va'
px_of_page zero va va' h e = omega arith
px_of_page (suc zero) va va' h e = omega arith
px_of_page (suc (suc zero)) va va' h e = omega arith
px_of_page (suc (suc (suc l))) va va' h e = absurd (omega arith)
