-- ===== src/Vm/Tests.antt =====
-- An empty page table at the page 8, and pages from 100 on for the rest.
use mathlib.Core.Bool.{true≢false}
use mathlib.Core.Path.{subst}
use learn_os.Base.{
  ℕ, zero, suc, ◌+◌, ◌*◌, leb, leb→le, ltb→lt, ◌≤◌, ◌<◌, ◌≡◌, ◌⊎◌, refl, sym, ap, ◌∙◌, Bool, true,
  false, arith, ◌==◌, ltb, if◌then◌else◌, Option, none, some, some-inj, inl, inr, Bool-cases, ==→eq,
  update,
}
use learn_os.Vm.{
  Memory, PageAllocator, maxva, walk, walk_loop, walkaddr, walkaddr_at, map_at, map_loop, mappages,
  uvmunmap, pte2pa,
}
use learn_os.Vm.Tables.{Label, Labels, leaf, entry, IsTable, IsAllocator}
use learn_os.Vm.Map.{Mapped, IsMapped, mapped, no_memory, faults, remap, mappages-Mapped}
use learn_os.Vm.Unmap.{Unmapped, NotOwn, uvmunmap-Unmapped}
use learn_os.Vm.Undo.{uvmunmap-mappages}

-- The state is the number of the next page.
abbrev pages : PageAllocator ℕ
pages = record {
  kalloc = λ n. some (if ltb n 1000 then (n * 4096, suc n) else (0, n));
  kfree = λ p n. some n;
}

abbrev IsFree : ℕ → ℕ → Type 0
IsFree n p = n * 4096 ≤ p

-- What a call returns.
kalloc_cases :
    (n n' p : ℕ)
    → pages.kalloc n ≡ some (p, n')
    → ((p ≡ n * 4096) × (n' ≡ suc n) × (n < 1000)) ⊎ ((p ≡ 0) × (n' ≡ n))
kalloc_cases n n' p e = elim (Bool-cases (ltb n 1000)) [
  | inl y ↦
      let pair : (n * 4096, suc n) ≡ (p, n') = some-inj (rw y at e) in
      inl (sym (ap (λ r. r.0) pair), sym (ap (λ r. r.1) pair), ltb→lt n 1000 y)
  | inr z ↦
      let pair : (0, n) ≡ (p, n') = some-inj (rw z at e) in
      inr (sym (ap (λ r. r.0) pair), sym (ap (λ r. r.1) pair))
]

pages-IsAllocator : IsAllocator IsFree pages
pages-IsAllocator = record {
  fresh = λ n n' p e ne. elim (kalloc_cases n n' p e) [
    | inl (a, b, c) ↦ rw a (omega arith)
    | inr (a, b) ↦ absurd (ne a)
  ];
  gone = λ n n' p e ne. elim (kalloc_cases n n' p e) [
    | inl (a, b, c) ↦ λ l. absurd (omega (arith, a, b, l))
    | inr (a, b) ↦ absurd (ne a)
  ];
  page = λ n n' p e. elim (kalloc_cases n n' p e) [
    | inl (a, b, c) ↦ (omega (arith, a), omega (arith, a, c))
    | inr (a, b) ↦ (omega (arith, a), omega (arith, a))
  ];
  others = λ n n' p q e h. elim (kalloc_cases n n' p e) [
    | inl (a, b, c) ↦ omega (arith, b, h)
    | inr (a, b) ↦ omega (arith, b, h)
  ];
}

only : (h h' p : ℕ) → pages.kfree p h ≡ some h' → (q : ℕ) → IsFree h' q → IsFree h q ⊎ (q ≡ p)
only h h' p e q f = let same : h ≡ h' = some-inj e in inl (rw same f)

abbrev root : ℕ
root = 8 * 4096

abbrev no_label : Label
no_label = record { level = 3; path = 0 }

abbrev label : Labels
label = update (λ p. no_label) root (record { level = 2; path = 0 })

abbrev empty : Memory ℕ
empty = record { mem = λ a. 0; heap = 100 }

only_root : (p : ℕ) → (label p).level < 3 → p ≡ root
only_root p h = elim (Bool-cases (p == root)) [
  | inl y ↦ ==→eq p root y
  | inr n ↦
      let none_there : (label p).level ≡ 3 = rw n refl in absurd (omega (arith, h, none_there))
]

empty-IsTable : IsTable IsFree empty root label
empty-IsTable = record {
  at_root = refl;
  aligned = λ p h. rw (only_root p h) refl;
  taken = λ p h f. let is = only_root p h in absurd (omega (arith, f, is));
  child = λ p l i e h b u. absurd (true≢false (sym u));
}

abbrev memory_of : Option (Bool × Memory ℕ) → Memory ℕ
memory_of none = empty
memory_of (some r) = r.1

-- Two pages at 0x1000 with PTE_R and PTE_U.
abbrev two_pages : Memory ℕ
two_pages = memory_of (mappages pages empty root 0x1000 0x2000 0x8765_4000 18)

maps : mappages pages empty root 0x1000 0x2000 0x8765_4000 18 ≡ some (true, two_pages)
unfolding mappages map_loop map_at walk walk_loop
maps = refl

second : walkaddr pages two_pages root 0x2abc ≡ some 0x8765_5000
unfolding mappages map_loop map_at walk walk_loop walkaddr walkaddr_at
second = refl

third : walkaddr pages two_pages root 0x3000 ≡ some 0
unfolding mappages map_loop map_at walk walk_loop walkaddr walkaddr_at
third = refl

mappages-Mapped_example :
    Mapped IsFree pages pages-IsAllocator root empty 0x1000 0x8765_4000 18 2
      (mappages pages empty root 0x1000 0x2000 0x8765_4000 18)
mappages-Mapped_example =
    mappages-Mapped IsFree pages pages-IsAllocator root empty label 0x1000 0x2000 0x8765_4000 18
      empty-IsTable refl refl (omega arith) (omega arith) (omega arith)

two_pages-IsMapped :
    IsMapped IsFree pages pages-IsAllocator root empty two_pages 0x1000 0x8765_4000 18 2
two_pages-IsMapped = elim mappages-Mapped_example [
  | mapped t f w b ↦
      let same : t ≡ two_pages = ap (λ p. p.1) (some-inj (sym f ∙ maps)) in
      subst (λ t. IsMapped IsFree pages pages-IsAllocator root empty t 0x1000 0x8765_4000 18 2) same
        w
  | no_memory t d lt f w b ↦
      let bad = ap (λ p. p.0) (some-inj (sym maps ∙ f)) in absurd (true≢false bad)
  | faults b f ↦ let bad = sym maps ∙ f in absurd cc
  | remap j lt f y ↦ let bad = sym maps ∙ f in absurd cc
]

heap_of_two : two_pages.heap ≡ 102
unfolding mappages map_loop map_at walk walk_loop
heap_of_two = refl

abbrev page_at : ℕ → ℕ
page_at j = pte2pa (entry two_pages.mem root (0x1000 + j * 4096))

page_of : (j : ℕ) → j < 2 → page_at j ≡ 0x8765_4000 + j * 4096
unfolding mappages map_loop map_at walk walk_loop leaf
page_of zero h = refl
page_of (suc zero) h = refl
page_of (suc (suc j)) h = absurd (omega (arith, h))

-- Both pages are free, so that they are none of the table's.
two_pages-NotOwn : NotOwn IsFree pages root two_pages-IsMapped.label true only two_pages 0x1000 2
two_pages-NotOwn f j h y = elim (Bool-cases (leb 3 (two_pages-IsMapped.label (page_at j)).level)) [
  | inl above ↦ leb→le _ _ above
  | inr below ↦ absurd (
      two_pages-IsMapped.table.taken (page_at j) (ground (arith, below))
        (rw (heap_of_two, page_of j h) (omega (arith, h))))
]

uvmunmap-Unmapped_example :
    Unmapped IsFree pages root two_pages-IsMapped.label true only two_pages 0x1000 2
      (uvmunmap pages two_pages root 0x1000 2 true)
uvmunmap-Unmapped_example =
    uvmunmap-Unmapped IsFree pages root two_pages-IsMapped.label true only two_pages 0x1000 2
      two_pages-IsMapped.table refl (omega arith) two_pages-NotOwn

uvmunmap-mappages_example :
    (s : Memory ℕ) × (uvmunmap pages two_pages root 0x1000 2 false ≡ some s)
    × ((va : ℕ) → va < maxva → walkaddr pages s root va ≡ walkaddr pages empty root va)
uvmunmap-mappages_example =
    uvmunmap-mappages IsFree pages pages-IsAllocator only root empty two_pages label 0x1000 0x2000
      0x8765_4000 18 empty-IsTable refl refl (omega arith) (omega arith) (omega arith) (omega arith)
      maps
