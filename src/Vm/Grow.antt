-- ===== src/Vm/Grow.antt =====
-- A page that `walk` adds to a page table changes no entry.
use native.Mathlib.Decide.{ℕ_discrete}
use mathlib.Core.Bool.{true≢false}
use mathlib.Core.Path.{subst}
use learn_os.Base.{
  ℕ, zero, suc, ◌+◌, ◌*◌, ◌<◌, ◌≡◌, ◌≢◌, refl, sym, ap, ◌∙◌, true, false, some, arith, update,
  eq→==, ne→==, Bool-cases, inl, inr,
}
use learn_os.Vm.{Memory, PageAllocator, pa2pte, pte2pa, is_valid, px, slot, grown}
use learn_os.Vm.Words.{
  px_lt, slot_page, pte2pa-pa2pte, pointer_valid, zeroed_inside, zeroed_outside,
}
use learn_os.Vm.Tables.{Label, Labels, leaf, word, IsTable, IsAllocator}

module _ {S : Type 0} (IsFree : S → ℕ → Type 0) (k : PageAllocator S) (laws : IsAllocator IsFree k)
    (s : Memory S) (root : ℕ) (label : Labels) (v : IsTable IsFree s root label) (pt l i : ℕ)
    (at_level : (label pt).level ≡ suc l) (low : suc l < 3) (index : i < 512)
    (empty : is_valid (s.mem (pt + 8 * i)) ≡ false) (new : ℕ) (heap' : S)
    (from : k.kalloc s.heap ≡ some (new, heap')) (got : new ≢ 0) where
  abbrev pub mem' : ℕ → ℕ
  mem' = (grown s (pt + 8 * i) new heap').mem

  abbrev pub grown_label : Labels
  grown_label = update label new (record { level = l; path = (label pt).path * 512 + i })

  pub not_new : (p : ℕ) → (label p).level < 3 → p ≢ new
  not_new p h e = v.taken p h (rw e (laws.fresh s.heap heap' new from got))

  pt_level : (label pt).level < 3
  pt_level = omega (arith, at_level, low)

  pub label_kept : (p : ℕ) → (label p).level < 3 → grown_label p ≡ label p
  label_kept p h = rw (ne→== p new (not_new p h)) refl

  label_old : (p : ℕ) → p ≢ new → grown_label p ≡ label p
  label_old p ne = rw (ne→== p new ne) refl

  pub label_new : grown_label new ≡ record { level = l; path = (label pt).path * 512 + i }
  label_new = rw (eq→== new new refl) refl

  -- What a slot holds then.
  kept :
      (p j : ℕ)
      → (label p).level < 3
      → j < 512
      → p + 8 * j ≢ pt + 8 * i
      → mem' (p + 8 * j) ≡ s.mem (p + 8 * j)
  kept p j h b ne = rw (ne→== (p + 8 * j) (pt + 8 * i) ne) (
      zeroed_outside s.mem new p j (laws.page s.heap heap' new from).0 (v.aligned p h) b
        (not_new p h))

  in_new : (j : ℕ) → j < 512 → mem' (new + 8 * j) ≡ 0
  in_new j b =
      rw
        (ne→== (new + 8 * j) (pt + 8 * i) (λ e. not_new pt pt_level (
          sym (
            slot_page new pt j i (laws.page s.heap heap' new from).0 (v.aligned pt pt_level) b index
              e))))
        (zeroed_inside s.mem new j b)

  pub pointer_kept :
      (p m j : ℕ)
      → (label p).level ≡ suc m
      → suc m < 3
      → j < 512
      → is_valid (s.mem (p + 8 * j)) ≡ true
      → mem' (p + 8 * j) ≡ s.mem (p + 8 * j)
  pointer_kept p m j e h b u =
      kept p j (omega (arith, e, h)) b
        (λ same. true≢false (sym u ∙ ap (λ a. is_valid (s.mem a)) same ∙ empty))

  in_slot : mem' (pt + 8 * i) ≡ pa2pte new + 1
  in_slot = rw (eq→== (pt + 8 * i) (pt + 8 * i) refl) refl

  pub slot_valid : is_valid (mem' (pt + 8 * i)) ≡ true
  slot_valid =
      rw in_slot
        (pointer_valid new (laws.page s.heap heap' new from).0 (laws.page s.heap heap' new from).1)

  pub slot_leads : pte2pa (mem' (pt + 8 * i)) ≡ new
  slot_leads = rw in_slot (
      pte2pa-pa2pte new 1 (laws.page s.heap heap' new from).0 (laws.page s.heap heap' new from).1
        (omega arith))

  new_child :
      (p m j : ℕ)
      → (grown_label p).level ≡ suc m
      → suc m < 3
      → j < 512
      → is_valid (mem' (p + 8 * j)) ≡ true
      → p ≢ new
      → grown_label (pte2pa (mem' (p + 8 * j)))
        ≡ record { level = m; path = (grown_label p).path * 512 + j }
  new_child p m j e h b u ne =
      let same : grown_label p ≡ label p = label_old p ne in
      let e' : (label p).level ≡ suc m = sym (ap (λ x. x.level) same) ∙ e in
      let lp : (label p).level < 3 = omega (arith, e', h) in
      elim (ℕ_discrete (p + 8 * j) (pt + 8 * i)) [
        | yes here ↦
            let p_is : p ≡ pt =
              slot_page p pt j i (v.aligned p lp) (v.aligned pt pt_level) b index here in
            let j_is : j ≡ i = omega (arith, here, p_is) in
            let l_is : m ≡ l = omega (arith, e', at_level, ap (λ p. (label p).level) p_is) in
            rw (here, slot_leads, label_new, label_kept p lp, l_is, p_is, j_is) refl
        | no there ↦
            let w = kept p j lp b there in
            let c = v.child p m j e' h b (sym (ap is_valid w) ∙ u) in
            rw (w, label_kept p lp)
              (label_kept (pte2pa (s.mem (p + 8 * j))) (omega (arith, ap (λ x. x.level) c, h)) ∙ c)
      ]

  pub grown-IsTable : IsTable IsFree (grown s (pt + 8 * i) new heap') root grown_label
  grown-IsTable = record {
    at_root = label_kept root (omega (arith, ap (λ x. x.level) v.at_root)) ∙ v.at_root;
    aligned = λ p h. elim (ℕ_discrete p new) [
      | yes e ↦ rw e (laws.page s.heap heap' new from).0
      | no ne ↦ v.aligned p (subst (λ (x : Label). x.level < 3) (label_old p ne) h)
    ];
    taken = λ p h f. elim (ℕ_discrete p new) [
      | yes e ↦ laws.gone s.heap heap' new from got (rw⁻¹ e f)
      | no ne ↦
          v.taken p (subst (λ (x : Label). x.level < 3) (label_old p ne) h)
            (laws.others s.heap heap' new p from f)
    ];
    child = λ p m j e h b u. elim (ℕ_discrete p new) [
      | yes is_new ↦
          let zero_there : mem' (p + 8 * j) ≡ 0 = rw is_new (in_new j b) in
          absurd (true≢false (sym u ∙ ap is_valid zero_there))
      | no ne ↦ new_child p m j e h b u ne
    ];
  }

  -- Nothing is mapped below the new page.
  new_empty : (m va : ℕ) → word mem' (leaf m mem' new va) ≡ 0
  unfolding leaf
  new_empty zero va = in_new (px 0 va) (px_lt 0 va)
  new_empty (suc m) va =
      let z : is_valid (mem' (slot new (suc m) va)) ≡ false =
        ap is_valid (in_new (px (suc m) va) (px_lt (suc m) va)) in
      rw z refl

  pub grown_word :
      (m p va : ℕ)
      → (label p).level ≡ m
      → m < 3
      → word mem' (leaf m mem' p va) ≡ word s.mem (leaf m s.mem p va)
  unfolding leaf
  grown_word zero p va e h = kept p (px 0 va) (omega (arith, e, h)) (px_lt 0 va) (λ same.
      let p_is : p ≡ pt =
        slot_page p pt (px 0 va) i (v.aligned p (omega (arith, e, h))) (v.aligned pt pt_level)
          (px_lt 0 va) index same in
      absurd (omega (arith, e, at_level, ap (λ p. (label p).level) p_is)))
  grown_word (suc m) p va e h =
      let lp : (label p).level < 3 = omega (arith, e, h) in
      elim (ℕ_discrete (slot p (suc m) va) (pt + 8 * i)) [
        | yes here ↦
            let was : is_valid (s.mem (slot p (suc m) va)) ≡ false = rw here empty in
            let now : is_valid (mem' (slot p (suc m) va)) ≡ true = rw here slot_valid in
            let leads : pte2pa (mem' (slot p (suc m) va)) ≡ new = rw here slot_leads in
            rw (was, now, leads) (new_empty m va)
        | no there ↦
            let w = kept p (px (suc m) va) lp (px_lt (suc m) va) there in
            elim (Bool-cases (is_valid (s.mem (slot p (suc m) va)))) [
              | inr n ↦ rw (w, n) refl
              | inl y ↦
                  let c = v.child p m (px (suc m) va) e h (px_lt (suc m) va) y in
                  rw (w, y)
                    (grown_word m (pte2pa (s.mem (slot p (suc m) va))) va (ap (λ x. x.level) c)
                      (omega (arith, h)))
            ]
      ]
