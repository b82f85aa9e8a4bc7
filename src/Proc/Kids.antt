-- ===== src/Proc/Kids.antt =====
-- What `wait` finds and returns.
use native.Mathlib.Decide.{ℕ_discrete}
use learn_os.Base.{
  ℕ, zero, suc, ◌+◌, ◌<◌, ◌≤◌, ◌≡◌, ◌≢◌, refl, ◌∙◌, sym, ap, inl, inr, arith, Bool, true, false,
  some, ◌&&◌, ◌>>=◌, update, if◌then◌else◌, Bool-cases,
}
use learn_os.Proc.{nproc, ProcTable, of_proc, sleeping, is_proc}
use learn_os.Proc.Life.{Queues, Sys, Found, Waited, scan_kids, freeproc, wait, wait_at}
use learn_os.Proc.Tree.{gone}

abbrev pub child : ProcTable → (cur j : ℕ) → Bool
child t cur j = is_proc (t j).parent cur

-- What the scan returns, for the slots from `i` on.
pub data Scanned (t : ProcTable) (cur left i : ℕ) (before : Bool) (r : Found) : Type 0 where
  exited :
      (k : ℕ)
      → r ≡ Found.exited k
      → i ≤ k
      → k < i + left
      → child t cur k ≡ true
      → gone (t k) ≡ true
      → Scanned t cur left i before r
  kids :
      r ≡ Found.kids
      → ((j : ℕ) → i ≤ j → j < i + left → child t cur j ≡ true → gone (t j) ≡ false)
      → (before ≡ false → (k : ℕ) × (i ≤ k) × (k < i + left) × (child t cur k ≡ true))
      → Scanned t cur left i before r
  no_kids :
      r ≡ Found.no_kids
      → before ≡ false
      → ((j : ℕ) → i ≤ j → j < i + left → child t cur j ≡ false)
      → Scanned t cur left i before r

no_exit : {k : ℕ} (b : Bool) → (if b then Found.kids else Found.no_kids) ≢ Found.exited k
no_exit true e = cc
no_exit false e = cc

and_left : (a b : Bool) → (a && b) ≡ false → a ≡ true → b ≡ false
and_left true b h e = h
and_left false b h e = cc

neither : (a b : Bool) → (if a then true else b) ≡ false → (a ≡ false) × (b ≡ false)
neither true b h = cc
neither false b h = (refl, h)

scan_more :
    (t : ProcTable) (cur left i : ℕ) (before : Bool) (r : Found)
    → (child t cur i && gone (t i)) ≡ false
    → Scanned t cur left (i + 1) (if child t cur i then true else before) r
    → Scanned t cur (suc left) i before r
scan_more t cur left i before r f (exited k e a b c z) = exited k e (omega arith) (omega arith) c z
scan_more t cur left i before r f (kids e all some_kid) =
    kids e
      (λ j a b c. elim (ℕ_discrete j i) [
        | yes h ↦
            let c' : child t cur i ≡ true = ap (child t cur) (sym h) ∙ c in
            ap (λ k. gone (t k)) h ∙ and_left (child t cur i) (gone (t i)) f c'
        | no ne ↦ all j (omega arith) (omega arith) c
      ])
      (λ nb. elim (Bool-cases (child t cur i)) [
        | inl mine ↦ (i, omega arith, omega arith, mine)
        | inr other ↦ let (k, a, b, c) = some_kid (rw other nb) in (k, omega arith, omega arith, c)
      ])
scan_more t cur left i before r f (no_kids e nb none_at) =
    no_kids e (neither (child t cur i) before nb).1 (λ j a b. elim (ℕ_discrete j i) [
      | yes h ↦ ap (child t cur) h ∙ (neither (child t cur i) before nb).0
      | no ne ↦ none_at j (omega arith) (omega arith)
    ])

pub scan_kids-Scanned :
    (t : ProcTable) (cur left i : ℕ) (before : Bool)
    → Scanned t cur left i before (scan_kids left i t cur before)
unfolding scan_kids
scan_kids-Scanned t cur zero i true = kids refl (λ j a b. absurd (omega arith)) (λ e. cc)
scan_kids-Scanned t cur zero i false = no_kids refl refl (λ j a b. absurd (omega arith))
scan_kids-Scanned t cur (suc left) i before = elim (Bool-cases (child t cur i && gone (t i))) [
  | inl z ↦ rw z (exited i refl (omega arith) (omega arith) (ground arith) (ground arith))
  | inr f ↦ rw f (
      scan_more t cur left i before _ f
        (scan_kids-Scanned t cur left (i + 1) (if child t cur i then true else before)))
]

module _ {Q : Type 0} (q : Queues Q) where
  -- How a round of `wait` may end.
  pub data Waits (s : Sys Q) (cur : ℕ) (copied : Bool) : Type 0 where
    reaps :
        (i : ℕ)
        → i < nproc
        → child s.table cur i ≡ true
        → gone (s.table i) ≡ true
        → copied ≡ true
        → wait q s cur copied ≡ (do s' ← freeproc q s i; some (Waited.reaped (s.table i).pid, s'))
        → Waits s cur copied
    not_copied :
        (i : ℕ)
        → i < nproc
        → child s.table cur i ≡ true
        → gone (s.table i) ≡ true
        → copied ≡ false
        → wait q s cur copied ≡ some (Waited.failed, s)
        → Waits s cur copied
    childless :
        ((j : ℕ) → j < nproc → child s.table cur j ≡ false)
        → wait q s cur copied ≡ some (Waited.failed, s)
        → Waits s cur copied
    killed :
        (s.table cur).killed ≡ true
        → ((j : ℕ) → j < nproc → child s.table cur j ≡ true → gone (s.table j) ≡ false)
        → wait q s cur copied ≡ some (Waited.failed, s)
        → Waits s cur copied
    sleeps :
        (s.table cur).killed ≡ false
        → ((j : ℕ) → j < nproc → child s.table cur j ≡ true → gone (s.table j) ≡ false)
        → (k : ℕ) → k < nproc
        → child s.table cur k ≡ true
        → wait q s cur copied
          ≡ some (
            Waited.waits,
            record s {
              table =
                  update s.table cur
                    (record (s.table cur) { chan = of_proc cur; state = sleeping });
            },
          )
        → Waits s cur copied

  -- A round of `wait` frees a child that is a zombie and returns its pid, if there is one and its status
  -- can be copied out; it fails, with nothing changed, if that cannot be copied, if the process has no
  -- child, or if it was killed and no child is a zombie; and otherwise it sleeps on the process itself.
  pub wait-Waits : (s : Sys Q) (cur : ℕ) (copied : Bool) → Waits s cur copied
  unfolding wait wait_at
  wait-Waits s cur copied = elim (scan_kids-Scanned s.table cur nproc 0 false) [
    | exited k e a b c z ↦ elim (Bool-cases copied) [
      | inl y ↦ reaps k b c z y (ap (wait_at q s cur copied) e ∙ rw y refl)
      | inr n ↦ not_copied k b c z n (ap (wait_at q s cur copied) e ∙ rw n refl)
    ]
    | kids e all some_kid ↦
        let (k, a, b, c) = some_kid refl in
        elim (Bool-cases (s.table cur).killed) [
          | inl y ↦
              killed y (λ j h m. all j (omega arith) h m)
                (ap (wait_at q s cur copied) e ∙ rw y refl)
          | inr n ↦
              sleeps n (λ j h m. all j (omega arith) h m) k b c
                (ap (wait_at q s cur copied) e ∙ rw n refl)
        ]
    | no_kids e nb none_at ↦
        childless (λ j h. none_at j (omega arith) h) (ap (wait_at q s cur copied) e)
  ]
