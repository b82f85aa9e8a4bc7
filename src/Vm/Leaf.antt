-- ===== src/Vm/Leaf.antt =====
-- Writing one entry of a page table.
use native.Mathlib.Decide.{ℕ_discrete}
use mathlib.Core.Path.{subst}
use learn_os.Base.{
  ℕ, zero, suc, ◌+◌, ◌*◌, ◌/◌, ◌<◌, ◌≡◌, ◌≢◌, refl, sym, ap, ◌∙◌, arith, ◌==◌, update, eq→==, ne→==,
  Bool-cases, inl, inr, if◌then◌else◌, Option, none, some, some-inj,
}
use learn_os.Vm.{Memory, maxva, pte2pa, is_valid, px, slot}
use learn_os.Vm.Words.{px_lt, slot_page, page_of_px, px_of_page}
use learn_os.Vm.Tables.{Label, Labels, leaf, word, entry, path_to, IsTable}

abbrev labelled : (level path : ℕ) → Label
labelled level path = record { level = level; path = path }

pub leaf_same :
    (mem : ℕ → ℕ) (l pt va va' : ℕ)
    → ((j : ℕ) → j < suc l → px j va ≡ px j va')
    → leaf l mem pt va ≡ leaf l mem pt va'
unfolding leaf
leaf_same mem zero pt va va' e = ap (λ i. some (pt + 8 * i)) (e 0 (omega arith))
leaf_same mem (suc l) pt va va' e =
    rw
      (
        e (suc l) (omega arith),
        leaf_same mem l (pte2pa (mem (slot pt (suc l) va'))) va va' (λ j h. e j (omega (arith, h))),
      )
      refl

module _ {S : Type 0} (IsFree : S → ℕ → Type 0) (s : Memory S) (root : ℕ) (label : Labels)
    (v : IsTable IsFree s root label) where
  -- An entry stands in the leaf page with the path to the address.
  pub leaf_label :
      (l pt va a : ℕ)
      → (label pt).level ≡ l
      → l < 3
      → leaf l s.mem pt va ≡ some a
      → (p : ℕ) × (a ≡ slot p 0 va)
        × (label p ≡ record { level = 0; path = path_to l (label pt).path va })
  unfolding leaf
  leaf_label zero pt va a e h f = (pt, sym (some-inj f), ap (λ n. labelled n (label pt).path) e)
  leaf_label (suc l) pt va a e h f = elim (Bool-cases (is_valid (s.mem (slot pt (suc l) va)))) [
    | inr n ↦ let z : none ≡ some a = sym (rw n refl) ∙ f in absurd cc
    | inl y ↦
        let c = v.child pt l (px (suc l) va) e h (px_lt (suc l) va) y in
        let g : leaf l s.mem (pte2pa (s.mem (slot pt (suc l) va))) va ≡ some a =
          sym (rw y refl) ∙ f in
        let (p, b, d) =
          leaf_label l (pte2pa (s.mem (slot pt (suc l) va))) va a (ap (λ (x : Label). x.level) c)
            (omega (arith, h)) g in
        (p, b, d ∙ rw c refl)
  ]

  module _ (p i x : ℕ) (bottom : (label p).level ≡ 0) (index : i < 512) where
    abbrev pub written : ℕ → ℕ
    written = update s.mem (p + 8 * i) x

    -- The slots of other pages stay.
    written_other :
        (q j : ℕ)
        → (label q).level < 3
        → j < 512
        → (label q).level ≢ 0
        → written (q + 8 * j) ≡ s.mem (q + 8 * j)
    written_other q j h b ne =
        let differ : q + 8 * j ≢ p + 8 * i = λ e. ne (
          ap (λ q. (label q).level)
            (slot_page q p j i (v.aligned q h) (v.aligned p (omega (arith, bottom))) b index e)
          ∙ bottom) in
        rw (ne→== (q + 8 * j) (p + 8 * i) differ) refl

    pub leaf-written :
        (l pt va : ℕ) → (label pt).level ≡ l → l < 3 → leaf l written pt va ≡ leaf l s.mem pt va
    unfolding leaf
    leaf-written zero pt va e h = refl
    leaf-written (suc l) pt va e h =
        let w =
          written_other pt (px (suc l) va) (omega (arith, e, h)) (px_lt (suc l) va)
            (λ z. absurd (omega (arith, e, z))) in
        elim (Bool-cases (is_valid (s.mem (slot pt (suc l) va)))) [
          | inr n ↦ rw (w, n) refl
          | inl y ↦
              let c = v.child pt l (px (suc l) va) e h (px_lt (suc l) va) y in
              rw (w, y)
                (leaf-written l (pte2pa (s.mem (slot pt (suc l) va))) va
                  (ap (λ (x : Label). x.level) c) (omega (arith, h)))
        ]

    pub written-IsTable :
        (heap : S)
        → ((q : ℕ) → (label q).level < 3 → ¬ IsFree heap q)
        → IsTable IsFree (record { mem = written; heap = heap }) root label
    written-IsTable heap t = record {
      at_root = v.at_root;
      aligned = v.aligned;
      taken = t;
      child = λ q l j e h b u.
          let w = written_other q j (omega (arith, e, h)) b (λ z. absurd (omega (arith, e, z))) in
          rw w (v.child q l j e h b (sym (ap is_valid w) ∙ u));
    }

  at_leaf : (label root).level ≡ 2
  at_leaf = ap (λ (x : Label). x.level) v.at_root

  -- Two addresses with the same entry are on the same page.
  leaf_page :
      (va va' a : ℕ)
      → va < maxva
      → va' < maxva
      → leaf 2 s.mem root va ≡ some a
      → leaf 2 s.mem root va' ≡ some a
      → va / 4096 ≡ va' / 4096
  leaf_page va va' a h h' f f' =
      let (p, b, d) = leaf_label 2 root va a at_leaf (omega arith) f in
      let (p', b', d') = leaf_label 2 root va' a at_leaf (omega arith) f' in
      let same : slot p 0 va ≡ slot p' 0 va' = sym b ∙ b' in
      let lp : (label p).level < 3 = omega (arith, ap (λ (x : Label). x.level) d) in
      let lp' : (label p').level < 3 = omega (arith, ap (λ (x : Label). x.level) d') in
      let p_is : p ≡ p' =
        slot_page p p' (px 0 va) (px 0 va') (v.aligned p lp) (v.aligned p' lp') (px_lt 0 va)
          (px_lt 0 va') same in
      let low : px 0 va ≡ px 0 va' = omega (arith, same, p_is) in
      let paths : path_to 2 (label root).path va ≡ path_to 2 (label root).path va' =
        ap (λ (x : Label). x.path) (sym d ∙ ap label p_is ∙ d') in
      let high : px 2 va ≡ px 2 va' = omega (arith, paths, px_lt 1 va, px_lt 1 va') in
      let middle : px 1 va ≡ px 1 va' = omega (arith, paths, px_lt 1 va, px_lt 1 va') in
      page_of_px va va' h h' high middle low

  -- The entry for one page changes, and no other.
  pub entry_written :
      (va va' a x : ℕ)
      → va < maxva
      → va' < maxva
      → leaf 2 s.mem root va ≡ some a
      → entry (update s.mem a x) root va'
        ≡ (if va' / 4096 == va / 4096 then x else entry s.mem root va')
  entry_written va va' a x h h' f =
      let (p, b, d) = leaf_label 2 root va a at_leaf (omega arith) f in
      let w : leaf 2 (update s.mem a x) root va' ≡ leaf 2 s.mem root va' =
        subst (λ a. leaf 2 (update s.mem a x) root va' ≡ leaf 2 s.mem root va') (sym b)
          (leaf-written p (px 0 va) x (ap (λ (x : Label). x.level) d) (px_lt 0 va) 2 root va'
            at_leaf (omega arith)) in
      ap (word (update s.mem a x)) w ∙ (elim (ℕ_discrete (va' / 4096) (va / 4096)) [
        | yes e ↦
            let same : leaf 2 s.mem root va' ≡ some a =
              leaf_same s.mem 2 root va' va (λ j h. px_of_page j va' va h e) ∙ f in
            rw (eq→== (va' / 4096) (va / 4096) e, same, eq→== a a refl) refl
        | no ne ↦ rw (ne→== (va' / 4096) (va / 4096) ne) (other (leaf 2 s.mem root va') refl ne)
      ])
    where
      other :
          (o : Option ℕ)
          → leaf 2 s.mem root va' ≡ o
          → va' / 4096 ≢ va / 4096
          → word (update s.mem a x) o ≡ word s.mem o
      other none e ne = refl
      other (some a') e ne =
          let differ : a' ≢ a = λ z. ne (leaf_page va' va a h' h (e ∙ ap some z) f) in
          rw (ne→== a' a differ) refl

  pub entry_written-IsTable :
      (va a x : ℕ) (heap : S)
      → leaf 2 s.mem root va ≡ some a
      → ((q : ℕ) → (label q).level < 3 → ¬ IsFree heap q)
      → IsTable IsFree (record { mem = update s.mem a x; heap = heap }) root label
  entry_written-IsTable va a x heap f t =
      let (p, b, d) = leaf_label 2 root va a at_leaf (omega arith) f in
      subst (λ a. IsTable IsFree (record { mem = update s.mem a x; heap = heap }) root label)
        (sym b) (written-IsTable p (px 0 va) x (ap (λ (x : Label). x.level) d) (px_lt 0 va) heap t)
