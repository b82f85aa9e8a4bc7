-- ===== src/Vm/Map.antt =====
-- `mappages` on the entries of a page table.
use learn_os.Base.{
  ℕ, zero, suc, ◌+◌, ◌-◌, ◌*◌, ◌/◌, ◌%◌, ◌^◌, ◌≤◌, ◌<◌, ◌≡◌, ◌≢◌, refl, sym, ap, ◌∙◌, Bool, true,
  false, arith, ◌==◌, ◌&&◌, update, leb, ltb, lt→ltb, ltb→lt, eq→==, ==→eq, ne→==, Bool-cases, inl,
  inr, if◌then◌else◌, Option, none, some, ◌>>=◌,
}
use learn_os.Vm.{Memory, PageAllocator, maxva, is_valid, leaf_pte, walk, map_at, map_loop, mappages}
use learn_os.Vm.Words.{leaf_pte-wraps}
use learn_os.Vm.Tables.{
  Label, Labels, leaf, entry, IsTable, IsAllocator, Allocated, nothing, Exhausted, Faulted,
  Allocated_trans, Allocated-Exhausted, Allocated-Faulted,
}
use learn_os.Vm.Walk
use learn_os.Vm.Walk.{IsGrown, IsGrown_self, fails, finds, walk_loop-Walked}
use learn_os.Vm.Leaf.{entry_written, entry_written-IsTable}

-- Whether the page of an address is one of `n` pages from that of `va` on.
abbrev pub in_range : (va n va' : ℕ) → Bool
in_range va n va' = leb (va / 4096) (va' / 4096) && ltb (va' / 4096) (va / 4096 + n)

-- The first page and the rest.
splice :
    (b q n x f g e : ℕ)
    → (b < q → f ≡ g)
    → (q ≡ b → x ≡ g)
    → (if leb (b + 1) q && ltb q (b + 1 + n) then f else if q == b then x else e)
      ≡ (if leb b q && ltb q (b + suc n) then g else e)
splice b q n x f g e h k = elim (Bool-cases (q == b)) [
  | inl y ↦ let z = ==→eq q b y in let s = k z in ground arith
  | inr n ↦ elim (Bool-cases (ltb b q)) [
    | inl y ↦ let s = h (ltb→lt b q y) in ground arith
    | inr z ↦ ground arith
  ]
]

module _ {S : Type 0} (IsFree : S → ℕ → Type 0) (k : PageAllocator S) (laws : IsAllocator IsFree k)
    (root : ℕ) where
  -- After `done` pages are mapped the entries of these pages are new, and the others are as before.
  pub record IsMapped (s s' : Memory S) (va pa perm done : ℕ) : Type 0 where
    pub label : Labels
    pub table : IsTable IsFree s' root label
    pub entries :
        (va' : ℕ)
        → va' < maxva
        → entry s'.mem root va' ≡ (
            if in_range va done va'
            then leaf_pte (pa + (va' / 4096 - va / 4096) * 4096) perm
            else entry s.mem root va')
    pub free_before : (j : ℕ) → j < done → is_valid (entry s.mem root (va + j * 4096)) ≡ false

  pub data Mapped (s : Memory S) (va pa perm n : ℕ) (o : Option (Bool × Memory S)) : Type 0 where
    mapped :
        (s' : Memory S)
        → o ≡ some (true, s')
        → IsMapped s s' va pa perm n
        → Allocated k s.heap s'.heap
        → Mapped s va pa perm n o
    no_memory :
        (s' : Memory S) (done : ℕ)
        → done < n
        → o ≡ some (false, s')
        → IsMapped s s' va pa perm done
        → Exhausted k s.heap s'.heap
        → Mapped s va pa perm n o
    faults : Faulted k s.heap → o ≡ none → Mapped s va pa perm n o
    remap :
        (j : ℕ)
        → j < n
        → o ≡ none
        → is_valid (entry s.mem root (va + j * 4096)) ≡ true
        → Mapped s va pa perm n o

  root_level :
      (s : Memory S) (label : Labels) → IsTable IsFree s root label → (label root).level ≡ 2
  root_level s label v = ap (λ (x : Label). x.level) v.at_root

  -- The table after the walk, which has the same entries.
  walked_entry :
      (s s' : Memory S) (label : Labels)
      → IsTable IsFree s root label
      → IsGrown IsFree root s s' label
      → (va : ℕ) → entry s'.mem root va ≡ entry s.mem root va
  walked_entry s s' label v g va = g.words 2 root va (root_level s label v) (omega arith)

  walk-IsMapped :
      (s s' : Memory S) (label : Labels) (va pa perm : ℕ)
      → IsTable IsFree s root label
      → IsGrown IsFree root s s' label
      → IsMapped s s' va pa perm 0
  walk-IsMapped s s' label va pa perm v g = record {
    label = g.label';
    table = g.table;
    entries = λ va' h.
        let out : in_range va 0 va' ≡ false = ground arith in
        rw out (walked_entry s s' label v g va');
    free_before = λ j h. absurd (omega arith);
  }

  -- The entries once that of one page is set after a walk.
  pub one_entry :
      (s s1 : Memory S) (label : Labels) (va a x : ℕ)
      → IsTable IsFree s root label
      → IsGrown IsFree root s s1 label
      → leaf 2 s1.mem root va ≡ some a
      → va < maxva
      → (va' : ℕ) → va' < maxva
      → entry (update s1.mem a x) root va'
        ≡ (if va' / 4096 == va / 4096 then x else entry s.mem root va')
  one_entry s s1 label va a x v g f b va' h =
      entry_written IsFree s1 root g.label' g.table va va' a x b h f
      ∙ ap (λ e. if va' / 4096 == va / 4096 then x else e) (walked_entry s s1 label v g va')

  pub later_entry :
      (s s1 : Memory S) (label : Labels) (va a x j : ℕ)
      → IsTable IsFree s root label
      → IsGrown IsFree root s s1 label
      → leaf 2 s1.mem root va ≡ some a
      → va + 4096 + j * 4096 < maxva
      → entry (update s1.mem a x) root (va + 4096 + j * 4096) ≡ entry s.mem root (va + suc j * 4096)
  later_entry s s1 label va a x j v g f b =
      let at : va + suc j * 4096 ≡ va + 4096 + j * 4096 = omega arith in
      let differ : (va + 4096 + j * 4096) / 4096 ≢ va / 4096 = λ e. absurd (omega (arith, e)) in
      one_entry s s1 label va a x v g f (omega (arith, b)) (va + 4096 + j * 4096) b
      ∙ rw (ne→== _ _ differ, at) refl

  -- The entry of one page is set, and the rest of the pages are mapped.
  one_more :
      (s s1 s' : Memory S) (label : Labels) (va pa perm a done : ℕ)
      → IsTable IsFree s root label
      → IsGrown IsFree root s s1 label
      → leaf 2 s1.mem root va ≡ some a
      → is_valid (s1.mem a) ≡ false
      → va % 4096 ≡ 0
      → va + 4096 * suc done ≤ maxva
      → IsMapped
          (record s1 { mem = update s1.mem a (leaf_pte pa perm) })
          s'
          (va + 4096)
          ((pa + 4096) % 2 ^ 64)
          perm
          done
      → IsMapped s s' va pa perm (suc done)
  one_more s s1 s' label va pa perm a done v g f free al small m = record {
    label = m.label;
    table = m.table;
    entries = λ va' h.
        m.entries va' h
        ∙ rw (next, one_entry s s1 label va a (leaf_pte pa perm) v g f (omega (arith, small)) va' h)
            (splice (va / 4096) (va' / 4096) done (leaf_pte pa perm)
              (leaf_pte ((pa + 4096) % 2 ^ 64 + (va' / 4096 - (va / 4096 + 1)) * 4096) perm)
              (leaf_pte (pa + (va' / 4096 - va / 4096) * 4096) perm) (entry s.mem root va')
              (λ l.
                leaf_pte-wraps (pa + 4096) ((va' / 4096 - (va / 4096 + 1)) * 4096) perm
                ∙ ap (λ x. leaf_pte x perm) (omega arith))
              (λ e. ap (λ x. leaf_pte x perm) (omega arith)));
    free_before = before;
  }
    where
      next : (va + 4096) / 4096 ≡ va / 4096 + 1
      next = omega arith

      before : (j : ℕ) → j < suc done → is_valid (entry s.mem root (va + j * 4096)) ≡ false
      before zero h =
          let at : va + 0 * 4096 ≡ va = omega arith in
          rw (at, ← walked_entry s s1 label v g va, f) free
      before (suc j) h =
          let kept =
            later_entry s s1 label va a (leaf_pte pa perm) j v g f (omega (arith, small, h)) in
          sym (ap is_valid kept) ∙ m.free_before j (omega (arith, h))

  -- The body of the loop once `walk` has found the entry.
  map_body-Mapped :
      (n : ℕ) (s s1 : Memory S) (label : Labels) (va pa perm a : ℕ)
      → IsTable IsFree s root label
      → IsGrown IsFree root s s1 label
      → leaf 2 s1.mem root va ≡ some a
      → va % 4096 ≡ 0
      → va + 4096 * suc n ≤ maxva
      → Allocated k s.heap s1.heap
      → ((s : Memory S) (label : Labels) (va pa perm : ℕ)
          → IsTable IsFree s root label
          → va % 4096 ≡ 0
          → va + 4096 * n ≤ maxva
          → Mapped s va pa perm n (map_loop k n s root va pa perm))
      → Mapped s va pa perm (suc n) (
          map_at k s1 (some a) pa perm >>= λ b.
          if b.0
          then map_loop k n b.1 root (va + 4096) ((pa + 4096) % 2 ^ 64) perm
          else some (false, b.1))
  unfolding map_at
  map_body-Mapped n s s1 label va pa perm a v g f al small got rest =
      elim (Bool-cases (is_valid (s1.mem a))) [
        | inl y ↦
            let at : va + 0 * 4096 ≡ va = omega arith in
            rw y (remap 0 (omega arith) refl (rw (at, ← walked_entry s s1 label v g va, f) y))
        | inr z ↦
            let s2 : Memory S = record s1 { mem = update s1.mem a (leaf_pte pa perm) } in
            let t : IsTable IsFree s2 root g.label' =
              entry_written-IsTable IsFree s1 root g.label' g.table va a (leaf_pte pa perm) s1.heap
                f g.table.taken in
            rw z (
              more z (
                rest s2 g.label' (va + 4096) ((pa + 4096) % 2 ^ 64) perm t (omega arith)
                  (omega (arith, small))))
      ]
    where
      more :
          is_valid (s1.mem a) ≡ false
          → Mapped
              (record s1 { mem = update s1.mem a (leaf_pte pa perm) })
              (va + 4096)
              ((pa + 4096) % 2 ^ 64)
              perm
              n
              (map_loop k n
                (record s1 { mem = update s1.mem a (leaf_pte pa perm) })
                root
                (va + 4096)
                ((pa + 4096) % 2 ^ 64)
                perm)
          → Mapped s va pa perm (suc n) (
              map_loop k n
                (record s1 { mem = update s1.mem a (leaf_pte pa perm) })
                root
                (va + 4096)
                ((pa + 4096) % 2 ^ 64)
                perm)
      more z m = elim m [
        | mapped s' e w b ↦
            mapped s' e (one_more s s1 s' label va pa perm a n v g f z al small w)
              (Allocated_trans k got b)
        | faults b e ↦ faults (Allocated-Faulted k got b) e
        | no_memory s' d lt e w b ↦
            no_memory s' (suc d) (omega (arith, lt)) e
              (one_more s s1 s' label va pa perm a d v g f z al (omega (arith, small, lt)) w)
              (Allocated-Exhausted k got b)
        | remap j lt e y ↦ remap (suc j) (omega (arith, lt)) e (
            sym (
              ap is_valid
                (later_entry s s1 label va a (leaf_pte pa perm) j v g f (omega (arith, small, lt))))
            ∙ y)
      ]

  pub map_loop-Mapped :
      (n : ℕ) (s : Memory S) (label : Labels) (va pa perm : ℕ)
      → IsTable IsFree s root label
      → va % 4096 ≡ 0
      → va + 4096 * n ≤ maxva
      → Mapped s va pa perm n (map_loop k n s root va pa perm)
  unfolding map_loop walk map_at
  map_loop-Mapped zero s label va pa perm v al small =
      mapped s refl (walk-IsMapped s s label va pa perm v (IsGrown_self IsFree root s label v))
        nothing
  map_loop-Mapped (suc n) s label va pa perm v al small =
      let bound : ltb va maxva ≡ true = lt→ltb va maxva (omega (arith, small)) in
      elim (walk_loop-Walked IsFree k laws root 2 s label root va v (root_level s label v)
        (omega arith)) [
          | Walk.faults b e ↦ rw (bound, e) (faults b refl)
          | fails s' e g b ↦
              rw (bound, e)
                (no_memory s' 0 (omega arith) refl (walk-IsMapped s s' label va pa perm v g) b)
          | finds s' a e g f b ↦
              rw (bound, e)
                (map_body-Mapped n s s' label va pa perm a v g f al small b (map_loop-Mapped n))
        ]

  -- `mappages` on a range of whole pages below MAXVA, with permissions below 1024, does one of four things: it
  -- maps each page to the physical page at the same distance, with the permissions, and leaves all other
  -- entries, where every call of `kalloc` has returned a page; it returns -1, with a first part of the pages
  -- mapped, only if the last call of `kalloc` has returned 0, and all before it a page; it faults with a call
  -- of `kalloc`; or it panics, only if a page has a valid entry already. Unless it panics or faults the
  -- pages that it maps had no valid entry.
  pub mappages-Mapped :
      (s : Memory S) (label : Labels) (va size pa perm : ℕ)
      → IsTable IsFree s root label
      → va % 4096 ≡ 0
      → size % 4096 ≡ 0
      → 0 < size
      → va + size ≤ maxva
      → perm < 1024
      → Mapped s va pa perm (size / 4096) (mappages k s root va size pa perm)
  unfolding mappages
  mappages-Mapped s label va size pa perm v al whole some_page small is_perm =
      let positive : size == 0 ≡ false = ne→== size 0 (λ e. absurd (omega (arith, e, some_page))) in
      rw (eq→== (va % 4096) 0 al, eq→== (size % 4096) 0 whole, positive)
        (map_loop-Mapped (size / 4096) s label va pa perm v al (omega arith))
