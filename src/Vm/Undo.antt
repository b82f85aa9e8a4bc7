-- ===== src/Vm/Undo.antt =====
-- `walkaddr`, and that `uvmunmap` takes back what `mappages` did.
use mathlib.Core.Bool.{true≢false}
use mathlib.Core.Path.{subst}
use learn_os.Base.{
  ℕ, ◌+◌, ◌-◌, ◌*◌, ◌/◌, ◌%◌, ◌≤◌, ◌<◌, ◌≡◌, ◌≢◌, ◌⊎◌, refl, sym, ap, ◌∙◌, true, false, arith, leb,
  lt→ltb, Bool-cases, inl, inr, if◌then◌else◌, Option, none, some, some-inj,
}
use learn_os.Vm.{
  Memory, PageAllocator, maxva, is_valid, is_user, pte_flags, pte2pa, leaf_pte, walk, walkaddr,
  walkaddr_at, mappages, uvmunmap,
}
use learn_os.Vm.Words.{leaf_valid, px_of_page}
use learn_os.Vm.Tables.{Labels, leaf, word, entry, IsTable, IsAllocator}
use learn_os.Vm.Walk.{walk_loop-reads}
use learn_os.Vm.Leaf.{leaf_same}
use learn_os.Vm.Map.{in_range, IsMapped, mapped, no_memory, faults, remap, mappages-Mapped}
use learn_os.Vm.Unmap.{IsUnmapped, unmapped, not_leaf, kfree_panics, uvmunmap-Unmapped}

-- The physical page of an entry for the user, or 0.
abbrev pub translated : ℕ → ℕ
translated e = if is_valid e then if is_user e then pte2pa e else 0 else 0

flags_of_leaf : (pa perm : ℕ) → perm < 1024 → 2 ≤ perm → pte_flags (leaf_pte pa perm) ≢ 1
flags_of_leaf pa perm h l e = absurd (omega arith)

entry_of_page :
    (mem : ℕ → ℕ) (root va va' : ℕ)
    → va / 4096 ≡ va' / 4096
    → entry mem root va ≡ entry mem root va'
entry_of_page mem root va va' e =
    ap (word mem) (leaf_same mem 2 root va va' (λ j h. px_of_page j va va' h e))

module _ {S : Type 0} (k : PageAllocator S) (root : ℕ) where
  pub walkaddr_lem :
      (s : Memory S) (va : ℕ)
      → va < maxva
      → walkaddr k s root va ≡ some (translated (entry s.mem root va))
  unfolding walkaddr walkaddr_at walk
  walkaddr_lem s va h =
      let above : leb maxva va ≡ false = ground arith in
      rw (above, lt→ltb va maxva h, walk_loop-reads k 2 s root va) (by (leaf 2 s.mem root va))
    where
      by : (o : Option ℕ) → some (walkaddr_at k s o) ≡ some (translated (word s.mem o))
      by none = refl
      by (some a) = elim (Bool-cases (is_valid (s.mem a))) [
        | inr n ↦ rw n refl
        | inl y ↦ elim (Bool-cases (is_user (s.mem a))) [
          | inr n ↦ rw (y, n) refl
          | inl u ↦ rw (y, u) refl
        ]
      ]

module _ {S : Type 0} (IsFree : S → ℕ → Type 0) (k : PageAllocator S) (laws : IsAllocator IsFree k)
    (only : (h h' : S) (p : ℕ)
      → k.kfree p h ≡ some h'
      → (q : ℕ) → IsFree h' q
      → IsFree h q ⊎ (q ≡ p))
    (root : ℕ) where
  -- The entries once the pages are mapped and unmapped again.
  undone :
      (s s' s'' : Memory S) (va pa perm n : ℕ)
      → va % 4096 ≡ 0
      → (m : IsMapped IsFree k laws root s s' va pa perm n)
      → IsUnmapped IsFree k root m.label false only s' s'' va n
      → (va' : ℕ) → va' < maxva
      → translated (entry s''.mem root va') ≡ translated (entry s.mem root va')
  undone s s' s'' va pa perm n al m u va' h = elim (Bool-cases (in_range va n va')) [
    | inr out ↦
        ap translated {y = entry s.mem root va'}
          (u.entries va' h ∙ rw out (m.entries va' h ∙ rw out refl))
    | inl inside ↦
        let was : is_valid (entry s.mem root va') ≡ false = before inside in
        let now : entry s'.mem root va' ≡ _ = m.entries va' h in
        let valid_now : is_valid (entry s'.mem root va') ≡ true =
          ap is_valid now ∙ rw inside (leaf_valid (pa + (va' / 4096 - va / 4096) * 4096) perm) in
        let gone : entry s''.mem root va' ≡ 0 = u.entries va' h ∙ rw (inside, valid_now) refl in
        rw (gone, was) refl
  ]
    where
      before : in_range va n va' ≡ true → is_valid (entry s.mem root va') ≡ false
      before inside =
          let j : ℕ = va' / 4096 - va / 4096 in
          let low : va / 4096 ≤ va' / 4096 = ground (arith, inside) in
          let high : va' / 4096 < va / 4096 + n = ground (arith, inside) in
          let page : va' / 4096 ≡ (va + j * 4096) / 4096 = omega (arith, low, al) in
          ap is_valid (entry_of_page s.mem root va' (va + j * 4096) page)
          ∙ m.free_before j (omega (arith, low, high))

  -- After `mappages` with a permission has mapped whole pages below MAXVA, `uvmunmap` of these pages
  -- without `do_free` returns, and `walkaddr` finds for every address what it found before.
  pub uvmunmap-mappages :
      (s s' : Memory S) (label : Labels) (va size pa perm : ℕ)
      → IsTable IsFree s root label
      → va % 4096 ≡ 0
      → size % 4096 ≡ 0
      → 0 < size
      → va + size ≤ maxva
      → 2 ≤ perm
      → perm < 1024
      → mappages k s root va size pa perm ≡ some (true, s')
      → (s'' : Memory S) × (uvmunmap k s' root va (size / 4096) false ≡ some s'')
        × ((va' : ℕ) → va' < maxva → walkaddr k s'' root va' ≡ walkaddr k s root va')
  uvmunmap-mappages s s' label va size pa perm v al whole some_page small has_perm is_perm e =
      elim (mappages-Mapped IsFree k laws root s label va size pa perm v al whole some_page small
        is_perm) [
          | faults b f ↦ let bad = sym e ∙ f in absurd cc
          | no_memory t d lt f w b ↦
              let bad = ap (λ p. p.0) (some-inj (sym e ∙ f)) in absurd (true≢false bad)
          | remap j lt f y ↦ let bad = sym e ∙ f in absurd cc
          | mapped t f w b ↦
              let same : t ≡ s' = ap (λ p. p.1) (some-inj (sym f ∙ e)) in
              taken_back
                (subst (λ t. IsMapped IsFree k laws root s t va pa perm (size / 4096)) same w)
        ]
    where
      taken_back :
          IsMapped IsFree k laws root s s' va pa perm (size / 4096)
          → (s'' : Memory S) × (uvmunmap k s' root va (size / 4096) false ≡ some s'')
            × ((va' : ℕ) → va' < maxva → walkaddr k s'' root va' ≡ walkaddr k s root va')
      taken_back m =
          elim (uvmunmap-Unmapped IsFree k root m.label false only s' va (size / 4096) m.table al
            (omega arith) (λ bad. absurd (true≢false (sym bad)))) [
              | kfree_panics j h lt f d x ↦ absurd cc
              | not_leaf j lt f x ↦
                  let inside : in_range va (size / 4096) (va + j * 4096) ≡ true =
                    ground (arith, lt, al) in
                  let at = m.entries (va + j * 4096) (omega (arith, lt, small)) ∙ rw inside refl in
                  absurd (
                    flags_of_leaf (pa + ((va + j * 4096) / 4096 - va / 4096) * 4096) perm is_perm
                      has_perm (sym (ap pte_flags at) ∙ x))
              | unmapped s'' f u ↦ (
                s'',
                f,
                (λ va' h.
                    walkaddr_lem k root s'' va' h
                    ∙ ap some (undone s s' s'' va pa perm (size / 4096) al m u va' h)
                    ∙ sym (walkaddr_lem k root s va' h)),
              )
            ]
