-- ===== src/Pipe/Stream.antt =====
-- `pipewrite` and `piperead` as operations on the list of bytes in the pipe.
use mathlib.Core.List.{append-nil, append_assoc}
use learn_os.Base.{
  ℕ, zero, suc, ◌+◌, ◌<◌, ◌≡◌, inl, inr, refl, ◌∙◌, sym, ap, arith, Bool, true, false, not, ◌||◌,
  Option, none, some, Option-cases, Bool-cases, List, [], ◌∷◌, ◌++◌, length, get_elem?,
}
use learn_os.Pipe.{Pipe, Outcome, pipesize, is_full, push, write_loop, pipewrite}
use learn_os.Pipe.Ring.{IsRing, count, contents, contents-push, push-IsRing, full_count}

module _ (killed : Bool) (copyin : ℕ → Option ℕ) where
  -- The bytes `ws` from `addr + i` on have been appended.
  pub record Appended (addr i : ℕ) (ws : List ℕ) (p p' : Pipe) : Type 0 where
    ring : IsRing p'
    appended : contents p' ≡ contents p ++ ws
    fetched : (k : ℕ) → k < length ws → copyin (addr + i + k) ≡ get_elem? ws k

  -- How a call that wants to append `left` bytes may end.
  pub data Wrote (addr i left : ℕ) (p : Pipe) (o : Outcome) : Type 0 where
    all :
        (ws : List ℕ) (p' : Pipe)
        → o ≡ Outcome.returned (i + left) p'
        → Appended addr i ws p p'
        → length ws ≡ left
        → Wrote addr i left p o
    fault :
        (ws : List ℕ) (p' : Pipe)
        → o ≡ Outcome.returned (i + length ws) p'
        → Appended addr i ws p p'
        → length ws < left
        → copyin (addr + i + length ws) ≡ none
        → Wrote addr i left p o
    waits :
        (ws : List ℕ) (p' : Pipe)
        → o ≡ Outcome.asleep (i + length ws) p'
        → Appended addr i ws p p'
        → length ws < left
        → count p' ≡ pipesize
        → Wrote addr i left p o
    refused : o ≡ Outcome.failed p → (not p.readopen || killed) ≡ true → Wrote addr i left p o

  Appended-[] : (addr i : ℕ) (p : Pipe) → IsRing p → Appended addr i [] p p
  Appended-[] addr i p v = record {
    ring = v;
    appended = sym (append-nil (contents p));
    fetched = λ k h. absurd (omega arith);
  }

  Appended-∷ :
      (addr i : ℕ) (ws : List ℕ) (p p' : Pipe) (ch : ℕ)
      → IsRing p
      → is_full p ≡ false
      → copyin (addr + i) ≡ some ch
      → Appended addr (i + 1) ws (push p ch) p'
      → Appended addr i (ch ∷ ws) p p'
  Appended-∷ addr i ws p p' ch v room got a = record {
    ring = a.ring;
    appended =
        a.appended
        ∙ ap (λ xs. xs ++ ws) (contents-push p ch v room)
        ∙ append_assoc (contents p) (ch ∷ []) ws;
    fetched = at;
  }
    where
      at : (k : ℕ) → k < suc (length ws) → copyin (addr + i + k) ≡ get_elem? (ch ∷ ws) k
      at zero h = ap copyin (omega arith) ∙ got
      at (suc k) h = ap copyin (omega arith) ∙ a.fetched k (omega arith)

  Wrote-more :
      (addr i left : ℕ) (p : Pipe) (ch : ℕ) (o : Outcome)
      → IsRing p
      → is_full p ≡ false
      → (not p.readopen || killed) ≡ false
      → copyin (addr + i) ≡ some ch
      → Wrote addr (i + 1) left (push p ch) o
      → Wrote addr i (suc left) p o
  unfolding push
  Wrote-more addr i left p ch o v room alive got (all ws p' e a n) =
      all (ch ∷ ws) p' (e ∙ ap (λ k. Outcome.returned k p') (omega arith))
        (Appended-∷ addr i ws p p' ch v room got a) (omega arith)
  Wrote-more addr i left p ch o v room alive got (fault ws p' e a n bad) =
      fault (ch ∷ ws) p' (e ∙ ap (λ k. Outcome.returned k p') (omega arith))
        (Appended-∷ addr i ws p p' ch v room got a) (omega arith) (ap copyin (omega arith) ∙ bad)
  Wrote-more addr i left p ch o v room alive got (waits ws p' e a n full) =
      waits (ch ∷ ws) p' (e ∙ ap (λ k. Outcome.asleep k p') (omega arith))
        (Appended-∷ addr i ws p p' ch v room got a) (omega arith) full
  Wrote-more addr i left p ch o v room alive got (refused e bad) =
      absurd (ground (arith, bad, alive))

  write_loop-Wrote :
      (left : ℕ) (p : Pipe) (addr i : ℕ)
      → IsRing p
      → Wrote addr i left p (write_loop killed copyin left p addr i)
  unfolding write_loop
  write_loop-Wrote zero p addr i v =
      all [] p (ap (λ k. Outcome.returned k p) (omega arith)) (Appended-[] addr i p v) refl
  write_loop-Wrote (suc left) p addr i v = elim (Bool-cases (not p.readopen || killed)) [
    | inl closed ↦ rw closed (refused refl closed)
    | inr alive ↦ elim (Bool-cases (is_full p)) [
      | inl full ↦
          rw (alive, full)
            (waits [] p (ap (λ k. Outcome.asleep k p) (omega arith)) (Appended-[] addr i p v)
              (omega arith) (full_count p v full))
      | inr room ↦ elim (Option-cases (copyin (addr + i))) [
        | inl bad ↦
            rw (alive, room, bad)
              (fault [] p (ap (λ k. Outcome.returned k p) (omega arith)) (Appended-[] addr i p v)
                (omega arith) (ap copyin (omega arith) ∙ bad))
        | inr (ch, got) ↦
            rw (alive, room, got)
              (Wrote-more addr i left p ch _ v room alive got
                (write_loop-Wrote left (push p ch) addr (i + 1) (push-IsRing p ch v room)))
      ]
    ]
  ]

  -- On a pipe whose ring is well formed, `pipewrite` of `n` bytes appends bytes that `copyin` fetches from
  -- `addr` on to the bytes in the pipe, and keeps the ring well formed. It returns `n` with all of them
  -- appended, or the number of those before the first that `copyin` fails on; it sleeps only with the
  -- ring full; and it returns -1 with nothing appended only if the reading end is closed or the process
  -- was killed.
  pub pipewrite-Wrote :
      (p : Pipe) (addr n : ℕ) → IsRing p → Wrote addr 0 n p (pipewrite killed copyin p addr n)
  unfolding pipewrite
  pipewrite-Wrote p addr n v = write_loop-Wrote n p addr 0 v
