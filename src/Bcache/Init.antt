-- ===== src/Bcache/Init.antt =====
-- The list that `binit` builds.
use mathlib.Core.Path.{subst}
use learn_os.Base.{
  ℕ, zero, suc, ◌+◌, ◌<◌, ◌≤◌, ◌≡◌, refl, ap, ◌∙◌, true, false, List, [], ◌∷◌, ◌==◌, has,
  Bool-cases, inl, inr, ne→==, update, arith,
}
use learn_os.Chain.{Apart}
use learn_os.Bcache.{head, nbuf, Bcache, push_front, binit_loop, binit}
use learn_os.Bcache.Ring.{IsRing, IsCache}
use learn_os.Bcache.Links.{push_front-IsRing}

-- The buffers below a number, the last one first.
abbrev pub down : ℕ → List ℕ
down zero = []
down (suc n) = n ∷ down n

not_has-down : (x n : ℕ) → n ≤ x → has x (down n) ≡ false
not_has-down x zero le = refl
not_has-down x (suc n) le =
    rw (ne→== n x (λ e. absurd (omega (arith, le, e)))) (not_has-down x n (omega arith))

has-down : (x n : ℕ) → x < n → has x (down n) ≡ true
has-down x zero lt = absurd (omega arith)
has-down x (suc n) lt = elim (Bool-cases (n == x)) [
  | inl y ↦ rw y refl
  | inr other ↦ rw other (has-down x n (ground arith))
]

down-Apart : (n : ℕ) → Apart (down n)
down-Apart zero = tt
down-Apart (suc n) = (not_has-down n n (omega arith), down-Apart n)

loop-IsRing :
    (left b : ℕ) (c : Bcache)
    → b + left ≤ nbuf
    → IsRing c.next c.prev (down b)
    → IsRing (binit_loop left b c).next (binit_loop left b c).prev (down (left + b))
unfolding binit_loop
loop-IsRing zero b c le r =
    let same : b ≡ 0 + b = omega arith in subst (λ n. IsRing c.next c.prev (down n)) same r
loop-IsRing (suc left) b c le r =
    let c' = push_front b c in
    let next =
      push_front-IsRing b c (down b) (not_has-down b b (omega arith))
        (not_has-down head b (omega arith)) (down-Apart b) (λ e. absurd (omega (arith, e, le))) r in
    let same : left + (b + 1) ≡ suc left + b = omega arith in
    let up : suc b ≡ b + 1 = omega arith in
    subst (λ n. IsRing (binit_loop left (b + 1) c').next (binit_loop left (b + 1) c').prev (down n))
      same
      (loop-IsRing left (b + 1) c' (omega arith)
        (subst (λ n. IsRing c'.next c'.prev (down n)) up next))

buf-binit_loop : (left b : ℕ) (c : Bcache) → (binit_loop left b c).buf ≡ c.buf
unfolding binit_loop push_front
buf-binit_loop zero b c = refl
buf-binit_loop (suc left) b c = buf-binit_loop left (b + 1) (push_front b c)

-- `binit` links all buffers, when no buffer is of a device yet.
pub binit-IsCache : (c : Bcache) → ((i : ℕ) → (c.buf i).dev ≡ 0) → IsCache (binit c) (down nbuf)
unfolding binit
binit-IsCache c zeroed =
    let c' = record c { prev = update c.prev head head; next = update c.next head head } in
    let kept = buf-binit_loop nbuf 0 c' in
    record {
      ring = loop-IsRing nbuf 0 c' (omega arith) (refl, refl);
      once = down-Apart nbuf;
      no_head = not_has-down head nbuf (omega arith);
      all = λ i h. has-down i nbuf h;
      unique = λ i j hi hj real d e. absurd (real (ap (λ f. (f i).dev) kept ∙ zeroed i));
    }
