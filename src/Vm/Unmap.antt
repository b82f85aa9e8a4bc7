-- ===== src/Vm/Unmap.antt =====
-- `uvmunmap` on the entries of a page table.
use mathlib.Core.Bool.{true≢false}
use mathlib.Core.Path.{subst}
use learn_os.Base.{
  ℕ, zero, suc, ◌+◌, ◌*◌, ◌/◌, ◌%◌, ◌≤◌, ◌<◌, ◌≡◌, ◌≢◌, ◌⊎◌, refl, sym, ap, ◌∙◌, Bool, true, false,
  arith, ◌==◌, ◌&&◌, update, leb, ltb, lt→ltb, eq→==, ==→eq, ne→==, Bool-cases, Option-cases, inl,
  inr, if◌then◌else◌, Option, none, some, ◌>>=◌,
}
use learn_os.Vm.{
  Memory, PageAllocator, maxva, is_valid, pte_flags, pte2pa, walk, unmap_at, unmap_loop, uvmunmap,
}
use learn_os.Vm.Words.{px_of_page}
use learn_os.Vm.Tables.{Labels, leaf, word, entry, IsTable}
use learn_os.Vm.Walk.{walk_loop-reads}
use learn_os.Vm.Leaf.{leaf_same, entry_written, entry_written-IsTable}
use learn_os.Vm.Map.{in_range}
use learn_os.Vm.Freed.{freed_entry, freed, freed_same}

-- What is left of an entry.
abbrev pub cleared : (Bool → ℕ → ℕ)
cleared inside e = if inside && is_valid e then 0 else e

splice :
    (b q n e : ℕ)
    → cleared (leb (b + 1) q && ltb q (b + 1 + n)) (cleared (q == b) e)
      ≡ cleared (leb b q && ltb q (b + suc n)) e
splice b q n e = elim (Bool-cases (q == b)) [
  | inl y ↦
      let z = ==→eq q b y in
      let low : leb (b + 1) q ≡ false = ground arith in
      let r : leb b q && ltb q (b + suc n) ≡ true = ground arith in rw (y, low, r) refl
  | inr m ↦
      let same : (leb (b + 1) q && ltb q (b + 1 + n)) ≡ (leb b q && ltb q (b + suc n)) =
        ground arith in
      rw (m, same) refl
]

module _ {S : Type 0} (IsFree : S → ℕ → Type 0) (k : PageAllocator S) (root : ℕ) (label : Labels)
    (do_free : Bool)
    (only : (h h' : S) (p : ℕ)
      → k.kfree p h ≡ some h'
      → (q : ℕ) → IsFree h' q
      → IsFree h q ⊎ (q ≡ p)) where
  -- The valid entries of `n` pages are cleared, and the others are as before. No entry was a pointer.
  pub record IsUnmapped (s s' : Memory S) (va n : ℕ) : Type 0 where
    pub table : IsTable IsFree s' root label
    pub entries :
        (va' : ℕ)
        → va' < maxva
        → entry s'.mem root va' ≡ cleared (in_range va n va') (entry s.mem root va')
    pub heap : freed k root do_free n s.mem va s.heap ≡ some s'.heap
    pub leaves : (j : ℕ) → j < n → pte_flags (entry s.mem root (va + j * 4096)) ≢ 1

  pub data Unmapped (s : Memory S) (va n : ℕ) (o : Option (Memory S)) : Type 0 where
    unmapped : (s' : Memory S) → o ≡ some s' → IsUnmapped s s' va n → Unmapped s va n o
    not_leaf :
        (j : ℕ)
        → j < n
        → o ≡ none
        → pte_flags (entry s.mem root (va + j * 4096)) ≡ 1
        → Unmapped s va n o
    kfree_panics :
        (j : ℕ) (h : S)
        → j < n
        → o ≡ none
        → freed k root do_free j s.mem va s.heap ≡ some h
        → freed_entry k root do_free (entry s.mem root (va + j * 4096)) h ≡ none
        → Unmapped s va n o

  -- With `do_free` no page of the table is mapped.
  abbrev pub NotOwn : Memory S → (va n : ℕ) → Type 0
  NotOwn s va n =
      do_free ≡ true
      → (j : ℕ) → j < n
      → is_valid (entry s.mem root (va + j * 4096)) ≡ true
      → 3 ≤ (label (pte2pa (entry s.mem root (va + j * 4096)))).level

  -- One page is done.
  abbrev IsOne : (s s2 : Memory S) (va : ℕ) → Type 0
  IsOne s s2 va =
      (va' : ℕ)
      → va' < maxva
      → entry s2.mem root va' ≡ cleared (va' / 4096 == va / 4096) (entry s.mem root va')

  later :
      (s s2 : Memory S) (va j : ℕ)
      → IsOne s s2 va
      → va + 4096 + j * 4096 < maxva
      → entry s2.mem root (va + 4096 + j * 4096) ≡ entry s.mem root (va + suc j * 4096)
  later s s2 va j one b =
      let at : va + suc j * 4096 ≡ va + 4096 + j * 4096 = omega arith in
      let differ : (va + 4096 + j * 4096) / 4096 ≢ va / 4096 = λ e. absurd (omega (arith, e)) in
      one (va + 4096 + j * 4096) b ∙ rw (ne→== _ _ differ, at) refl

  freed-later :
      (s s2 : Memory S) (va j n : ℕ)
      → IsOne s s2 va
      → va + 4096 * suc n ≤ maxva
      → j ≤ n
      → freed_entry k root do_free (entry s.mem root va) s.heap ≡ some s2.heap
      → freed k root do_free (suc j) s.mem va s.heap
        ≡ freed k root do_free j s2.mem (va + 4096) s2.heap
  unfolding freed
  freed-later s s2 va j n one small l e = rw e (
      freed_same k root do_free j s.mem s2.mem (va + 4096) s2.heap (λ i h.
        let next : va + suc i * 4096 ≡ va + 4096 + i * 4096 = omega arith in
        ap (entry s.mem root) (sym next) ∙ sym (later s s2 va i one (omega (arith, small, l, h)))))

  leaves-later :
      (s s2 : Memory S) (va n : ℕ)
      → IsOne s s2 va
      → va + 4096 * suc n ≤ maxva
      → pte_flags (entry s.mem root va) ≢ 1
      → ((j : ℕ) → j < n → pte_flags (entry s2.mem root (va + 4096 + j * 4096)) ≢ 1)
      → (j : ℕ) → j < suc n
      → pte_flags (entry s.mem root (va + j * 4096)) ≢ 1
  leaves-later s s2 va n one small ne rest zero l =
      let at : va + 0 * 4096 ≡ va = omega arith in
      λ z. ne (sym (ap (λ a. pte_flags (entry s.mem root a)) at) ∙ z)
  leaves-later s s2 va n one small ne rest (suc j) l = λ z.
      rest j (omega (arith, l)) (ap pte_flags (later s s2 va j one (omega (arith, small, l))) ∙ z)

  NotOwn-later :
      (s s2 : Memory S) (va n : ℕ)
      → IsOne s s2 va
      → va + 4096 * suc n ≤ maxva
      → NotOwn s va (suc n)
      → NotOwn s2 (va + 4096) n
  NotOwn-later s s2 va n one small own d j h y =
      let same = later s s2 va j one (omega (arith, h)) in
      rw same (own d (suc j) (omega (arith, h)) (sym (ap is_valid same) ∙ y))

  more :
      (s s2 : Memory S) (va n : ℕ) (o : Option (Memory S))
      → IsOne s s2 va
      → va + 4096 * suc n ≤ maxva
      → freed_entry k root do_free (entry s.mem root va) s.heap ≡ some s2.heap
      → pte_flags (entry s.mem root va) ≢ 1
      → Unmapped s2 (va + 4096) n o
      → Unmapped s va (suc n) o
  more s s2 va n o one small p ne (unmapped s' e w) = unmapped s' e (record {
    table = w.table;
    entries = λ va' h.
        let next : (va + 4096) / 4096 ≡ va / 4096 + 1 = omega arith in
        w.entries va' h
        ∙ rw (next, one va' h) (splice (va / 4096) (va' / 4096) n (entry s.mem root va'));
    heap = freed-later s s2 va n n one small (omega arith) p ∙ w.heap;
    leaves = leaves-later s s2 va n one small ne w.leaves;
  })
  more s s2 va n o one small p ne (not_leaf j lt e f) =
      not_leaf (suc j) (omega (arith, lt)) e
        (sym (ap pte_flags (later s s2 va j one (omega (arith, small, lt)))) ∙ f)
  more s s2 va n o one small p ne (kfree_panics j h lt e d f) =
      kfree_panics (suc j) h (omega (arith, lt)) e
        (freed-later s s2 va j n one small (omega (arith, lt)) p ∙ d)
        (sym (
            ap (λ x. freed_entry k root do_free x h)
              (later s s2 va j one (omega (arith, small, lt))))
          ∙ f)

  -- An entry that is not valid stays.
  nothing_there :
      (s : Memory S) (va : ℕ) → va < maxva → is_valid (entry s.mem root va) ≡ false → IsOne s s va
  nothing_there s va b z va' h = elim (Bool-cases (va' / 4096 == va / 4096)) [
    | inr n ↦ rw n refl
    | inl y ↦
        let same : entry s.mem root va' ≡ entry s.mem root va = ap (word s.mem) (
          leaf_same s.mem 2 root va' va
            (λ j l. px_of_page j va' va l (==→eq (va' / 4096) (va / 4096) y))) in
        let none_there : is_valid (entry s.mem root va') ≡ false = ap is_valid same ∙ z in
        rw (y, none_there) refl
  ]

  -- The rest of the pages, behind an entry that is not valid.
  skipped :
      (n : ℕ) (s : Memory S) (va : ℕ) (o : Option (Memory S))
      → va + 4096 * suc n ≤ maxva
      → is_valid (entry s.mem root va) ≡ false
      → Unmapped s (va + 4096) n o
      → Unmapped s va (suc n) o
  skipped n s va o small z =
      more s s va n o (nothing_there s va (omega (arith, small)) z) small
        (rw z (elim (Bool-cases do_free) [ inl f ↦ rw f refl | inr f ↦ rw f refl ]))
        (λ w. true≢false (sym (eq→== (entry s.mem root va % 2) 1 (omega (arith, w))) ∙ z))

  clear-IsOne :
      (s : Memory S) (va a : ℕ) (heap : S)
      → IsTable IsFree s root label
      → leaf 2 s.mem root va ≡ some a
      → va < maxva
      → is_valid (s.mem a) ≡ true
      → IsOne s (record { mem = update s.mem a 0; heap = heap }) va
  clear-IsOne s va a heap v e b y va' h =
      entry_written IsFree s root label v va va' a 0 b h e
      ∙ (elim (Bool-cases (va' / 4096 == va / 4096)) [
        | inr n ↦ rw n refl
        | inl z ↦
            let same : entry s.mem root va' ≡ s.mem a = ap (word s.mem) (
              leaf_same s.mem 2 root va' va
                (λ j l. px_of_page j va' va l (==→eq (va' / 4096) (va / 4096) z))
              ∙ e) in
            let valid_there : is_valid (entry s.mem root va') ≡ true = ap is_valid same ∙ y in
            rw (z, valid_there) refl
      ])

  -- The body of the loop, and the rest of the pages.
  one_page :
      (n : ℕ) (s : Memory S) (va : ℕ) (o : Option ℕ)
      → leaf 2 s.mem root va ≡ o
      → IsTable IsFree s root label
      → va + 4096 * suc n ≤ maxva
      → NotOwn s va (suc n)
      → ((s2 : Memory S)
          → IsTable IsFree s2 root label
          → NotOwn s2 (va + 4096) n
          → Unmapped s2 (va + 4096) n (unmap_loop k n s2 root (va + 4096) do_free))
      → Unmapped s va
          (suc n)
          (unmap_at k s o do_free >>= λ t. unmap_loop k n t root (va + 4096) do_free)
  unfolding unmap_at freed
  one_page n s va none e v small own rest =
      let none_there = ap (λ o. is_valid (word s.mem o)) e in
      let one = nothing_there s va (omega (arith, small)) none_there in
      skipped n s va _ small none_there (rest s v (NotOwn-later s s va n one small own))
  one_page n s va (some a) e v small own rest = elim (Bool-cases (is_valid (s.mem a))) [
    | inr z ↦
        let none_there = ap (λ o. is_valid (word s.mem o)) e ∙ z in
        let one = nothing_there s va (omega (arith, small)) none_there in
        rw z (skipped n s va _ small none_there (rest s v (NotOwn-later s s va n one small own)))
    | inl y ↦ elim (Bool-cases (pte_flags (s.mem a) == 1)) [
      | inl f ↦
          let at : va + 0 * 4096 ≡ va = omega arith in
          rw (y, f) (not_leaf 0 (omega arith) refl (rw (at, e) (==→eq _ 1 f)))
      | inr f ↦ rw (y, f) (freed_or_not (Bool-cases do_free) y f)
    ]
  ]
    where
      go_on :
          (heap : S)
          → is_valid (s.mem a) ≡ true
          → (pte_flags (s.mem a) == 1) ≡ false
          → freed_entry k root do_free (s.mem a) s.heap ≡ some heap
          → ((q : ℕ) → (label q).level < 3 → ¬ IsFree heap q)
          → Unmapped s va (suc n) (
              unmap_loop k n
                (record { mem = update s.mem a 0; heap = heap })
                root
                (va + 4096)
                do_free)
      go_on heap y f p t =
          let s2 : Memory S = record { mem = update s.mem a 0; heap = heap } in
          let one = clear-IsOne s va a heap v e (omega (arith, small)) y in
          let here : entry s.mem root va ≡ s.mem a = ap (word s.mem) e in
          more s s2 va n _ one small (ap (λ x. freed_entry k root do_free x s.heap) here ∙ p)
            (λ w.
              true≢false (sym (eq→== (pte_flags (s.mem a)) 1 (sym (ap pte_flags here) ∙ w)) ∙ f))
            (rest s2 (entry_written-IsTable IsFree s root label v va a 0 heap e t)
              (NotOwn-later s s2 va n one small own))

      freed_or_not :
          (do_free ≡ true) ⊎ (do_free ≡ false)
          → is_valid (s.mem a) ≡ true
          → (pte_flags (s.mem a) == 1) ≡ false
          → Unmapped s va (suc n) (
              ((if do_free then k.kfree (pte2pa (s.mem a)) s.heap else some s.heap) >>= λ heap.
              some (record { mem = update s.mem a 0; heap = heap }))
              >>= λ t. unmap_loop k n t root (va + 4096) do_free)
      freed_or_not (inr n) y z =
          let same : (if do_free then k.kfree (pte2pa (s.mem a)) s.heap else some s.heap)
              ≡ some s.heap =
            rw n refl in
          rw same (go_on s.heap y z (rw n refl) v.taken)
      freed_or_not (inl f) y z =
          let same : (if do_free then k.kfree (pte2pa (s.mem a)) s.heap else some s.heap)
              ≡ k.kfree (pte2pa (s.mem a)) s.heap =
            rw f refl in
          let at : va + 0 * 4096 ≡ va = omega arith in
          let here : entry s.mem root (va + 0 * 4096) ≡ s.mem a =
            ap (entry s.mem root) at ∙ ap (word s.mem) e in
          elim (Option-cases (k.kfree (pte2pa (s.mem a)) s.heap)) [
            | inl p ↦
                rw (same, p) (kfree_panics 0 s.heap (omega arith) refl refl (rw (here, f, y) p))
            | inr (heap, p) ↦
                rw (same, p)
                  (go_on heap y z (rw (f, y) p) (λ q l free.
                    elim (only s.heap heap (pte2pa (s.mem a)) p q free) [
                      | inl old ↦ v.taken q l old
                      | inr is ↦
                          let above = own f 0 (omega arith) (ap is_valid here ∙ y) in
                          let there : (label (pte2pa (s.mem a))).level ≡ (label q).level =
                            ap (λ p. (label p).level) (sym is) in
                          let above' : 3 ≤ (label (pte2pa (s.mem a))).level =
                            subst (λ x. 3 ≤ (label (pte2pa x)).level) here above in
                          absurd (omega (arith, l, there, above'))
                    ]))
          ]

  pub unmap_loop-Unmapped :
      (n : ℕ) (s : Memory S) (va : ℕ)
      → IsTable IsFree s root label
      → va + 4096 * n ≤ maxva
      → NotOwn s va n
      → Unmapped s va n (unmap_loop k n s root va do_free)
  unfolding unmap_loop walk freed
  unmap_loop-Unmapped zero s va v small own = unmapped s refl (record {
    table = v;
    entries = λ va' h. let out : in_range va 0 va' ≡ false = ground arith in rw out refl;
    heap = refl;
    leaves = λ j l. absurd (omega (arith, l));
  })
  unmap_loop-Unmapped (suc n) s va v small own =
      let bound : ltb va maxva ≡ true = lt→ltb va maxva (omega (arith, small)) in
      rw (bound, walk_loop-reads k 2 s root va)
        (one_page n s va (leaf 2 s.mem root va) refl v small own
          (λ s2 t o. unmap_loop-Unmapped n s2 (va + 4096) t (omega (arith, small)) o))

  -- `uvmunmap` of pages below MAXVA does one of three things. If none of their entries has V alone of the
  -- flags, it clears those that are valid, leaves all others, and with `do_free` has called `kfree` for the
  -- page of each valid entry, in their order, and for no other, without it for none. It panics if one of
  -- them has V alone; and it panics when `kfree` does for the page of a valid entry, behind the calls for
  -- those before. With `do_free` the pages that are mapped there are none of the table's.
  pub uvmunmap-Unmapped :
      (s : Memory S) (va n : ℕ)
      → IsTable IsFree s root label
      → va % 4096 ≡ 0
      → va + 4096 * n ≤ maxva
      → NotOwn s va n
      → Unmapped s va n (uvmunmap k s root va n do_free)
  unfolding uvmunmap
  uvmunmap-Unmapped s va n v al small own =
      rw (eq→== (va % 4096) 0 al) (unmap_loop-Unmapped n s va v small own)
