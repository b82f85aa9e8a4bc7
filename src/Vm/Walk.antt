-- ===== src/Vm/Walk.antt =====
-- What `walk` returns, and that it changes no entry.
use mathlib.Core.Bool.{true≢false}
use learn_os.Base.{
  ℕ, zero, suc, ◌+◌, ◌*◌, ◌<◌, ◌≡◌, ◌≢◌, refl, sym, ap, ◌∙◌, true, false, arith, ◌==◌, eq→==, ==→eq,
  Option-cases, Bool-cases, inl, inr, Option, none, some,
}
use learn_os.Vm.{Memory, PageAllocator, pte2pa, is_valid, px, slot, grown, walk_loop}
use learn_os.Vm.Words.{px_lt}
use learn_os.Vm.Tables.{
  Label, Labels, leaf, word, IsTable, IsAllocator, Allocated, nothing, page, Exhausted, Faulted,
  Allocated_trans, Allocated-Exhausted, Allocated-Faulted,
}
use learn_os.Vm.Grow.{
  grown_label, label_kept, label_new, pointer_kept, slot_valid, slot_leads, grown-IsTable,
  grown_word,
}

module _ {S : Type 0} (IsFree : S → ℕ → Type 0) (root : ℕ) where
  -- The table has more pages, and the same entries.
  pub record IsGrown (s s' : Memory S) (label : Labels) : Type 0 where
    pub label' : Labels
    pub table : IsTable IsFree s' root label'
    pub labels : (p : ℕ) → (label p).level < 3 → label' p ≡ label p
    pub pointers :
        (p m j : ℕ)
        → (label p).level ≡ suc m
        → suc m < 3
        → j < 512
        → is_valid (s.mem (p + 8 * j)) ≡ true
        → s'.mem (p + 8 * j) ≡ s.mem (p + 8 * j)
    pub words :
        (m p va : ℕ)
        → (label p).level ≡ m
        → m < 3
        → word s'.mem (leaf m s'.mem p va) ≡ word s.mem (leaf m s.mem p va)

  pub IsGrown_self :
      (s : Memory S) (label : Labels) → IsTable IsFree s root label → IsGrown s s label
  IsGrown_self s label v = record {
    label' = label;
    table = v;
    labels = λ p h. refl;
    pointers = λ p m j e h b u. refl;
    words = λ m p va e h. refl;
  }

  IsGrown_trans :
      (s t u : Memory S) (label : Labels)
      → (g : IsGrown s t label) → IsGrown t u g.label'
      → IsGrown s u label
  IsGrown_trans s t u label g k = record {
    label' = k.label';
    table = k.table;
    labels = λ p h. k.labels p (rw (g.labels p h) h) ∙ g.labels p h;
    pointers = λ p m j e h b y.
        let same = g.pointers p m j e h b y in
        k.pointers p m j (ap (λ (x : Label). x.level) (g.labels p (omega (arith, e, h))) ∙ e) h b
          (rw same y)
        ∙ same;
    words = λ m p va e h.
        k.words m p va (ap (λ (x : Label). x.level) (g.labels p (omega (arith, e, h))) ∙ e) h
        ∙ g.words m p va e h;
  }

module _ {S : Type 0} (IsFree : S → ℕ → Type 0) (k : PageAllocator S) (laws : IsAllocator IsFree k)
    (root : ℕ) where
  -- `walk` faults with `kalloc`; or it returns 0 when that has no page; or it returns the address where the entry
  -- is then.
  pub data Walked (s : Memory S) (label : Labels) (l pt va : ℕ) (o : Option (Option ℕ × Memory S))
      : Type 0 where
    faults : Faulted k s.heap → o ≡ none → Walked s label l pt va o
    fails :
        (s' : Memory S)
        → o ≡ some (none, s')
        → IsGrown IsFree root s s' label
        → Exhausted k s.heap s'.heap
        → Walked s label l pt va o
    finds :
        (s' : Memory S) (a : ℕ)
        → o ≡ some (some a, s')
        → IsGrown IsFree root s s' label
        → leaf l s'.mem pt va ≡ some a
        → Allocated k s.heap s'.heap
        → Walked s label l pt va o

  exhausted-IsGrown :
      (s : Memory S) (label : Labels) (h : S)
      → IsTable IsFree s root label
      → k.kalloc s.heap ≡ some (0, h)
      → IsGrown IsFree root s (record s { heap = h }) label
  exhausted-IsGrown s label h v e = record {
    label' = label;
    table = record {
      at_root = v.at_root;
      aligned = v.aligned;
      taken = λ p l f. v.taken p l (laws.others s.heap h 0 p e f);
      child = v.child;
    };
    labels = λ p h. refl;
    pointers = λ p m j e h b u. refl;
    words = λ m p va e h. refl;
  }

  module _ (s : Memory S) (label : Labels) (v : IsTable IsFree s root label) (pt l i : ℕ)
      (at_level : (label pt).level ≡ suc l) (low : suc l < 3) (index : i < 512)
      (empty : is_valid (s.mem (pt + 8 * i)) ≡ false) (new : ℕ) (heap' : S)
      (from : k.kalloc s.heap ≡ some (new, heap')) (got : new ≢ 0) where
    grown-IsGrown : IsGrown IsFree root s (grown s (pt + 8 * i) new heap') label
    grown-IsGrown = record {
      label' =
          grown_label IsFree k laws s root label v pt l i at_level low index empty new heap' from
            got;
      table =
          grown-IsTable IsFree k laws s root label v pt l i at_level low index empty new heap' from
            got;
      labels =
          label_kept IsFree k laws s root label v pt l i at_level low index empty new heap' from
            got;
      pointers =
          pointer_kept IsFree k laws s root label v pt l i at_level low index empty new heap' from
            got;
      words =
          grown_word IsFree k laws s root label v pt l i at_level low index empty new heap' from
            got;
    }

  -- One level further down, through a slot that is valid.
  deeper :
      (s s' : Memory S) (label : Labels) (l pt va c : ℕ)
      → (label pt).level ≡ suc l
      → suc l < 3
      → is_valid (s.mem (slot pt (suc l) va)) ≡ true
      → pte2pa (s.mem (slot pt (suc l) va)) ≡ c
      → IsGrown IsFree root s s' label
      → leaf (suc l) s'.mem pt va ≡ leaf l s'.mem c va
  unfolding leaf
  deeper s s' label l pt va c e h u d g =
      let same = g.pointers pt l (px (suc l) va) e h (px_lt (suc l) va) u in rw (same, u, d) refl

  descend :
      (s : Memory S) (label : Labels) (l pt va c : ℕ) (o : Option (Option ℕ × Memory S))
      → (label pt).level ≡ suc l
      → suc l < 3
      → is_valid (s.mem (slot pt (suc l) va)) ≡ true
      → pte2pa (s.mem (slot pt (suc l) va)) ≡ c
      → Walked s label l c va o
      → Walked s label (suc l) pt va o
  descend s label l pt va c o e h u d (faults f z) = faults f z
  descend s label l pt va c o e h u d (fails s' z g x) = fails s' z g x
  descend s label l pt va c o e h u d (finds s' a z g y x) =
      finds s' a z g (deeper s s' label l pt va c e h u d g ∙ y) x

  -- A walk after one more page.
  after_page :
      (s t : Memory S) (label : Labels) (l pt va : ℕ) (o : Option (Option ℕ × Memory S))
      → (g : IsGrown IsFree root s t label) → Allocated k s.heap t.heap
      → Walked t g.label' l pt va o
      → Walked s label l pt va o
  after_page s t label l pt va o g b (faults f z) = faults (Allocated-Faulted k b f) z
  after_page s t label l pt va o g b (fails s' z g' x) =
      fails s' z (IsGrown_trans IsFree root s t s' label g g') (Allocated-Exhausted k b x)
  after_page s t label l pt va o g b (finds s' a z g' y x) =
      finds s' a z (IsGrown_trans IsFree root s t s' label g g') y (Allocated_trans k b x)

  -- One level further down, through a new page.
  grow :
      (l : ℕ) (s : Memory S) (label : Labels) (pt va new : ℕ) (heap' : S)
      → IsTable IsFree s root label
      → (label pt).level ≡ suc l
      → suc l < 3
      → is_valid (s.mem (slot pt (suc l) va)) ≡ false
      → k.kalloc s.heap ≡ some (new, heap')
      → new ≢ 0
      → ((other : Labels) (p : ℕ)
          → IsTable IsFree (grown s (slot pt (suc l) va) new heap') root other
          → (other p).level ≡ l
          → l < 3
          → Walked
              (grown s (slot pt (suc l) va) new heap')
              other
              l
              p
              va
              (walk_loop k l true (grown s (slot pt (suc l) va) new heap') p va))
      → Walked s label
          (suc l)
          pt
          va
          (walk_loop k l true (grown s (slot pt (suc l) va) new heap') new va)
  unfolding grown-IsGrown
  grow l s label pt va new heap' v e h n from got walked =
      let i : ℕ = px (suc l) va in
      let b = px_lt (suc l) va in
      let t = grown s (slot pt (suc l) va) new heap' in
      let g = grown-IsGrown s label v pt l i e h b n new heap' from got in
      let lp : (label pt).level < 3 = omega (arith, e, h) in
      let at_new = label_new IsFree k laws s root label v pt l i e h b n new heap' from got in
      after_page s t label (suc l) pt va _ g (page new nothing from got) (
        descend t g.label' l pt va new _ (ap (λ (x : Label). x.level) (g.labels pt lp) ∙ e) h
          (slot_valid IsFree k laws s root label v pt l i e h b n new heap' from got)
          (slot_leads IsFree k laws s root label v pt l i e h b n new heap' from got)
          (walked g.label' new g.table (ap (λ (x : Label). x.level) at_new) (omega (arith, h))))

  pub walk_loop-Walked :
      (l : ℕ) (s : Memory S) (label : Labels) (pt va : ℕ)
      → IsTable IsFree s root label
      → (label pt).level ≡ l
      → l < 3
      → Walked s label l pt va (walk_loop k l true s pt va)
  unfolding walk_loop leaf
  walk_loop-Walked zero s label pt va v e h =
      finds s (slot pt 0 va) refl (IsGrown_self IsFree root s label v) refl nothing
  walk_loop-Walked (suc l) s label pt va v e h =
      elim (Bool-cases (is_valid (s.mem (slot pt (suc l) va)))) [
        | inl y ↦
            let c = v.child pt l (px (suc l) va) e h (px_lt (suc l) va) y in
            rw y (
              descend s label l pt va _ _ e h y refl (
                walk_loop-Walked l s label (pte2pa (s.mem (slot pt (suc l) va))) va v
                  (ap (λ (x : Label). x.level) c) (omega (arith, h))))
        | inr n ↦ elim (Option-cases (k.kalloc s.heap)) [
          | inl f ↦ rw (n, f) (faults (s.heap, nothing, f) refl)
          | inr ((new, heap'), got) ↦ elim (Bool-cases (new == 0)) [
            | inl z ↦
                let is : k.kalloc s.heap ≡ some (0, heap') =
                  got ∙ ap (λ p. some (p, heap')) (==→eq new 0 z) in
                rw (n, got, z)
                  (fails (record s { heap = heap' }) refl (exhausted-IsGrown s label heap' v is)
                    (s.heap, nothing, is))
            | inr p ↦
                rw (n, got, p)
                  (grow l s label pt va new heap' v e h n got
                    (λ z. true≢false (sym (eq→== new 0 z) ∙ p))
                    (λ other p.
                      walk_loop-Walked l (grown s (slot pt (suc l) va) new heap') other p va))
          ]
        ]
      ]

module _ {S : Type 0} (k : PageAllocator S) where
  -- Without `alloc` it only reads.
  pub walk_loop-reads :
      (l : ℕ) (s : Memory S) (pt va : ℕ)
      → walk_loop k l false s pt va ≡ some (leaf l s.mem pt va, s)
  unfolding walk_loop leaf
  walk_loop-reads zero s pt va = refl
  walk_loop-reads (suc l) s pt va = elim (Bool-cases (is_valid (s.mem (slot pt (suc l) va)))) [
    | inl y ↦ rw y (walk_loop-reads l s (pte2pa (s.mem (slot pt (suc l) va))) va)
    | inr n ↦ rw n refl
  ]
