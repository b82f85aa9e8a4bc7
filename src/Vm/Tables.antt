-- ===== src/Vm/Tables.antt =====
-- When memory holds a page table, and which entry it has for an address.
use learn_os.Base.{
  ℕ, zero, suc, ◌+◌, ◌*◌, ◌%◌, ◌^◌, ◌<◌, ◌≡◌, ◌≢◌, true, Option, none, some, if◌then◌else◌,
}
use learn_os.Vm.{Memory, PageAllocator, is_valid, pte2pa, px, slot}

-- Which level a page of the table has, or none from 3 on, and the indices that lead to it, as a number.
pub record Label : Type 0 where
  pub level : ℕ
  pub path : ℕ

abbrev pub Labels : Type 0
Labels = ℕ → Label

-- What `walk` without `alloc` finds: the address of the entry for `va`.
unfoldable pub leaf : (level : ℕ) → (ℕ → ℕ) → (pagetable va : ℕ) → Option ℕ
leaf zero mem pagetable va = some (slot pagetable 0 va)
leaf (suc level) mem pagetable va =
    let down = leaf level mem (pte2pa (mem (slot pagetable (suc level) va))) va in
    if is_valid (mem (slot pagetable (suc level) va)) then down else none

abbrev pub word : (ℕ → ℕ) → Option ℕ → ℕ
word mem none = 0
word mem (some a) = mem a

-- The entry for `va`, or 0.
abbrev pub entry : (ℕ → ℕ) → (pagetable va : ℕ) → ℕ
entry mem pagetable va = word mem (leaf 2 mem pagetable va)

-- The indices from `level` on, behind those of the page.
abbrev pub path_to : (level path va : ℕ) → ℕ
path_to zero path va = path
path_to (suc level) path va = path_to level (path * 512 + px (suc level) va) va

module _ {S : Type 0} (IsFree : S → ℕ → Type 0) where
  -- A tree of pages: a valid slot of a page that is no leaf leads to the page with the next label. The
  -- pages are not free.
  pub record IsTable (s : Memory S) (root : ℕ) (label : Labels) : Type 0 where
    pub at_root : label root ≡ record { level = 2; path = 0 }
    pub aligned : (p : ℕ) → (label p).level < 3 → p % 4096 ≡ 0
    pub taken : (p : ℕ) → (label p).level < 3 → ¬ IsFree s.heap p
    pub child :
        (p l i : ℕ)
        → (label p).level ≡ suc l
        → suc l < 3
        → i < 512
        → is_valid (s.mem (p + 8 * i)) ≡ true
        → label (pte2pa (s.mem (p + 8 * i))) ≡ record { level = l; path = (label p).path * 512 + i }

  -- What the kernel relies on: a page from `kalloc` was free and is not any more, is aligned and in
  -- physical memory, and no other page gets free.
  pub record IsAllocator (k : PageAllocator S) : Type 0 where
    pub fresh : (s s' : S) (p : ℕ) → k.kalloc s ≡ some (p, s') → p ≢ 0 → IsFree s p
    pub gone : (s s' : S) (p : ℕ) → k.kalloc s ≡ some (p, s') → p ≢ 0 → ¬ IsFree s' p
    pub page : (s s' : S) (p : ℕ) → k.kalloc s ≡ some (p, s') → (p % 4096 ≡ 0) × (p < 2 ^ 56)
    pub others : (s s' : S) (p q : ℕ) → k.kalloc s ≡ some (p, s') → IsFree s' q → IsFree s q

module _ {S : Type 0} (k : PageAllocator S) where
  -- Some calls of `kalloc`, all of which return a page.
  pub data Allocated (h : S) : S → Type 0 where
    nothing : Allocated h h
    page : {t u : S} (p : ℕ) → Allocated h t → k.kalloc t ≡ some (p, u) → p ≢ 0 → Allocated h u

  pub Allocated_trans : {h t u : S} → Allocated h t → Allocated t u → Allocated h u
  Allocated_trans a nothing = a
  Allocated_trans a (page p b e ne) = page p (Allocated_trans a b) e ne

  -- The last call returns 0, or faults.
  abbrev pub Exhausted : S → S → Type 0
  Exhausted h h' = (m : S) × Allocated h m × (k.kalloc m ≡ some (0, h'))

  abbrev pub Faulted : S → Type 0
  Faulted h = (m : S) × Allocated h m × (k.kalloc m ≡ none)

  pub Allocated-Exhausted : {h t u : S} → Allocated h t → Exhausted t u → Exhausted h u
  Allocated-Exhausted a (m, b, e) = (m, Allocated_trans a b, e)

  pub Allocated-Faulted : {h t : S} → Allocated h t → Faulted t → Faulted h
  Allocated-Faulted a (m, b, e) = (m, Allocated_trans a b, e)
