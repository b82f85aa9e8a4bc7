-- ===== src/Pipe/Drain.antt =====
-- `piperead` on the list of bytes in the pipe.
use learn_os.Base.{
  ℕ, zero, suc, ◌+◌, ◌<◌, ◌≡◌, inl, inr, refl, ◌∙◌, ap, arith, Bool, true, false, ◌&&◌, Bool-cases,
  List, [], ◌∷◌, ◌++◌, length,
}
use learn_os.Pipe.{Pipe, Reading, is_empty, pop, front, read_loop, piperead}
use learn_os.Pipe.Ring.{IsRing, contents, contents-pop, pop-IsRing, empty-contents}

module _ (copyout : ℕ → ℕ → Bool) where
  -- How the loop that wants `left` bytes may end, with the bytes `ws` delivered.
  pub data Taken (addr i left : ℕ) (p : Pipe) (ws : List ℕ) (p' : Pipe) : Type 0 where
    enough :
        IsRing p' → contents p ≡ ws ++ contents p' → length ws ≡ left → Taken addr i left p ws p'
    drained :
        IsRing p'
        → contents p ≡ ws
        → contents p' ≡ []
        → length ws < left
        → Taken addr i left p ws p'
    lost :
        (ch : ℕ)
        → IsRing p'
        → contents p ≡ ws ++ (ch ∷ contents p')
        → length ws < left
        → copyout (addr + i + length ws) ch ≡ false
        → Taken addr i left p ws p'

  Taken-more :
      (addr i left : ℕ) (p : Pipe) (ws : List ℕ) (p' : Pipe)
      → contents p ≡ front p ∷ contents (pop p)
      → Taken addr (i + 1) left (pop p) ws p'
      → Taken addr i (suc left) p (front p ∷ ws) p'
  Taken-more addr i left p ws p' e (enough v c n) =
      enough v (e ∙ ap (λ xs. front p ∷ xs) c) (omega arith)
  Taken-more addr i left p ws p' e (drained v c z n) =
      drained v (e ∙ ap (λ xs. front p ∷ xs) c) z (omega arith)
  Taken-more addr i left p ws p' e (lost ch v c n bad) =
      lost ch v (e ∙ ap (λ xs. front p ∷ xs) c) (omega arith)
        (ap (λ a. copyout a ch) (omega arith) ∙ bad)

  read_loop-Taken :
      (left : ℕ) (p : Pipe) (addr i : ℕ)
      → IsRing p
      → Taken addr i left p (read_loop copyout left p addr i).0 (read_loop copyout left p addr i).1
  unfolding read_loop
  read_loop-Taken zero p addr i v = enough v refl refl
  read_loop-Taken (suc left) p addr i v = elim (Bool-cases (is_empty p)) [
    | inl none_left ↦
        let z = empty-contents p v none_left in rw none_left (drained v z z (omega arith))
    | inr some_left ↦ elim (Bool-cases (copyout (addr + i) (front p))) [
      | inl ok ↦
          rw (some_left, ok)
            (Taken-more addr i left p _ _ (contents-pop p v some_left)
              (read_loop-Taken left (pop p) addr (i + 1) (pop-IsRing p v some_left)))
      | inr bad ↦
          rw (some_left, bad)
            (lost (front p) (pop-IsRing p v some_left) (contents-pop p v some_left) (omega arith)
              (ap (λ a. copyout a (front p)) (omega arith) ∙ bad))
    ]
  ]

-- How `piperead` may end.
pub data Read (killed : Bool) (copyout : ℕ → ℕ → Bool) (p : Pipe) (addr n : ℕ) : Type 0 where
  delivers :
      (ws : List ℕ) (p' : Pipe)
      → piperead copyout killed p addr n ≡ Reading.returned ws p'
      → Taken copyout addr 0 n p ws p'
      → (p.writeopen ≡ true → is_empty p ≡ false)
      → Read killed copyout p addr n
  waits :
      piperead copyout killed p addr n ≡ Reading.asleep
      → contents p ≡ []
      → p.writeopen ≡ true
      → Read killed copyout p addr n
  dies :
      piperead copyout killed p addr n ≡ Reading.failed
      → killed ≡ true
      → Read killed copyout p addr n

-- On a pipe whose ring is well formed, `piperead` of `n` bytes delivers bytes from the front of the pipe,
-- in order, and keeps the ring well formed: `n` of them, or all that the pipe holds if they are fewer, or
-- those before the first that `copyout` fails on, and that one is lost. It sleeps only if the pipe is
-- empty and its writing end open, and fails only if the process was killed.
pub piperead-Read :
    (killed : Bool) (copyout : ℕ → ℕ → Bool) (p : Pipe) (addr n : ℕ)
    → IsRing p
    → Read killed copyout p addr n
unfolding piperead
piperead-Read killed copyout p addr n v = elim (Bool-cases (is_empty p && p.writeopen)) [
  | inl blocked ↦ elim (Bool-cases killed) [
    | inl k ↦ dies (rw (blocked, k) refl) k
    | inr k ↦ waits (rw (blocked, k) refl) (empty-contents p v (ground arith)) (ground arith)
  ]
  | inr ready ↦
      delivers _ _ (rw ready refl) (read_loop-Taken copyout n p addr 0 v)
        (λ w. ground (arith, ready, w))
]
