-- ===== src/Proc/Table.antt =====
-- What the loops over the process table do.
use native.Mathlib.Decide.{ℕ_discrete}
use learn_os.Base.{
  ℕ, zero, suc, ◌+◌, ◌<◌, ◌≤◌, ◌≡◌, refl, ◌∙◌, sym, ap, inl, inr, arith, Bool, true, false, Option,
  none, some, ltb, leb, ◌==◌, ◌&&◌, update, if◌then◌else◌, Bool-cases, ne→==, ==→eq,
}
use learn_os.Proc.{
  Proc, ProcTable, ProcState, unused, used, sleeping, runnable, running, zombie, blocked, is,
  value_of, each, first,
}

pub each_lem :
    (left i : ℕ) (body : ℕ → Proc → Proc) (t : ProcTable) (j : ℕ)
    → each left i body t j ≡ (if leb i j && ltb j (i + left) then body j (t j) else t j)
unfolding each
each_lem zero i body t j = ground arith
each_lem (suc left) i body t j = each_lem left (i + 1) body (update t i (body i (t i))) j ∙ now
  where
    now :
        (if leb (i + 1) j && ltb j (i + 1 + left)
          then body j (update t i (body i (t i)) j)
          else update t i (body i (t i)) j)
        ≡ (if leb i j && ltb j (i + suc left) then body j (t j) else t j)
    now = elim (ℕ_discrete j i) [
      | yes e ↦ rw e (ground arith)
      | no ne ↦ rw (ne→== j i ne) (ground arith)
    ]

-- What the search for a process finds.
pub data First (left i : ℕ) (test : ℕ → Bool) (r : Option ℕ) : Type 0 where
  absent : r ≡ none → ((j : ℕ) → i ≤ j → j < i + left → test j ≡ false) → First left i test r
  found :
      (k : ℕ)
      → r ≡ some k
      → i ≤ k
      → k < i + left
      → test k ≡ true
      → ((j : ℕ) → i ≤ j → j < k → test j ≡ false)
      → First left i test r

First-more :
    (left i : ℕ) (test : ℕ → Bool) (r : Option ℕ)
    → test i ≡ false
    → First left (i + 1) test r
    → First (suc left) i test r
First-more left i test r f (absent e none_at) = absent e (λ j a b. elim (ℕ_discrete j i) [
  | yes here ↦ rw here f
  | no other ↦ none_at j (omega arith) (omega arith)
])
First-more left i test r f (found k e a b t before) =
    found k e (omega arith) (omega arith) t (λ j c h. elim (ℕ_discrete j i) [
      | yes here ↦ rw here f
      | no other ↦ before j (omega arith) h
    ])

pub first-First : (left i : ℕ) (test : ℕ → Bool) → First left i test (first left i test)
unfolding first
first-First zero i test = absent refl (λ j a b. absurd (omega arith))
first-First (suc left) i test = elim (Bool-cases (test i)) [
  | inl t ↦ rw t (found i refl (omega arith) (omega arith) t (λ j a b. absurd (omega arith)))
  | inr f ↦
      rw f (First-more left i test (first left (i + 1) test) f (first-First left (i + 1) test))
]

pub is_iff : (s t : ProcState) → is s t ≡ true → s ≡ t
is_iff s t h = by_value s ∙ ap decode (==→eq _ _ h) ∙ sym (by_value t)
  where
    decode : ℕ → ProcState
    decode v =
        if v == 0
        then unused
        else if v == 1
        then used
        else if v == 2
        then sleeping
        else if v == 3
        then runnable
        else if v == 4
        then running
        else if v == 5
        then zombie
        else blocked

    by_value : (s : ProcState) → s ≡ decode (value_of s)
    by_value unused = refl
    by_value used = refl
    by_value sleeping = refl
    by_value runnable = refl
    by_value running = refl
    by_value zombie = refl
    by_value blocked = refl
