-- ===== src/Pipe/Ring.antt =====
-- The ring of a pipe holds a list of bytes.
use learn_os.Base.{
  ℕ, zero, suc, ◌+◌, ◌-◌, ◌%◌, ◌^◌, ◌<◌, ◌≤◌, ◌≡◌, refl, ◌∙◌, ap, ap₂, arith, List, [], ◌∷◌, ◌++◌,
  true, false, update,
}
use learn_os.Pipe.{Pipe, pipesize, is_full, is_empty, push, pop, front}

-- The `k` bytes of the ring from the place of counter `r` on.
unfoldable pub items : (ℕ → ℕ) → (r k : ℕ) → List ℕ
items d r zero = []
items d r (suc k) = d (r % pipesize) ∷ items d (r + 1) k

-- `nwrite - nread` on 32-bit counters
abbrev pub count : Pipe → ℕ
count p = (p.nwrite + 2 ^ 32 - p.nread) % 2 ^ 32

-- What has been written and not read, in this order.
unfoldable pub contents : Pipe → List ℕ
contents p = items p.data_at p.nread (count p)

abbrev pub IsRing : Pipe → Type 0
IsRing p = (p.nread < 2 ^ 32) × (p.nwrite < 2 ^ 32) × (count p ≤ pipesize)

items_shift : (d : ℕ → ℕ) (r r' k : ℕ) → r % pipesize ≡ r' % pipesize → items d r k ≡ items d r' k
unfolding items
items_shift d r r' zero e = refl
items_shift d r r' (suc k) e =
    ap₂ (λ x xs. x ∷ xs) (ap d e) (items_shift d (r + 1) (r' + 1) k (omega arith))

items-update :
    (d : ℕ → ℕ) (r k x v : ℕ) (c : ℕ)
    → x ≡ (r + c) % pipesize
    → k ≤ c
    → c < pipesize
    → items (update d x v) r k ≡ items d r k
unfolding items
items-update d r zero x v c e le lt = refl
items-update d r (suc k) x v c e le lt =
    ap₂ (λ x xs. x ∷ xs) (ground arith)
      (items-update d (r + 1) k x v (c - 1) (omega arith) (omega arith) (omega arith))

items_last :
    (d : ℕ → ℕ) (r k : ℕ) → items d r (suc k) ≡ items d r k ++ (d ((r + k) % pipesize) ∷ [])
unfolding items
items_last d r zero = ap (λ x. d x ∷ []) (omega arith)
items_last d r (suc k) =
    ap (λ xs. d (r % pipesize) ∷ xs)
      (items_last d (r + 1) k ∙ ap (λ x. items d (r + 1) k ++ (d x ∷ [])) (omega arith))

count-push : (p : Pipe) (ch : ℕ) → IsRing p → is_full p ≡ false → count (push p ch) ≡ suc (count p)
unfolding push
count-push p ch v h = ground (arith, v)

-- Into a ring that is not full, a byte goes behind the others.
pub contents-push :
    (p : Pipe) (ch : ℕ)
    → IsRing p
    → is_full p ≡ false
    → contents (push p ch) ≡ contents p ++ (ch ∷ [])
unfolding contents push
contents-push p ch v h =
    ap (items (push p ch).data_at p.nread) (count-push p ch v h)
    ∙ items_last (push p ch).data_at p.nread (count p)
    ∙ ap₂ (λ xs x. xs ++ (x ∷ []))
        (items-update p.data_at p.nread (count p) (p.nwrite % pipesize) ch (count p)
          (omega (arith, v)) (omega arith) (ground (arith, v)))
        (ground (arith, v))

pub push-IsRing : (p : Pipe) (ch : ℕ) → IsRing p → is_full p ≡ false → IsRing (push p ch)
unfolding push
push-IsRing p ch v h = ground (arith, v)

count-pop : (p : Pipe) → IsRing p → is_empty p ≡ false → count p ≡ suc (count (pop p))
unfolding pop
count-pop p v h = ground (arith, v)

-- Out of a ring that is not empty comes the first byte.
pub contents-pop :
    (p : Pipe) → IsRing p → is_empty p ≡ false → contents p ≡ front p ∷ contents (pop p)
unfolding contents pop front items
contents-pop p v h =
    ap (items p.data_at p.nread) (count-pop p v h)
    ∙ ap (λ xs. front p ∷ xs)
        (items_shift p.data_at (p.nread + 1) ((p.nread + 1) % 2 ^ 32) (count (pop p)) (omega arith))

pub pop-IsRing : (p : Pipe) → IsRing p → is_empty p ≡ false → IsRing (pop p)
unfolding pop
pop-IsRing p v h = ground (arith, v)

pub empty-contents : (p : Pipe) → IsRing p → is_empty p ≡ true → contents p ≡ []
unfolding contents items
empty-contents p v h = ap (items p.data_at p.nread) (let z : count p ≡ 0 = ground (arith, v) in z)

pub full_count : (p : Pipe) → IsRing p → is_full p ≡ true → count p ≡ pipesize
full_count p v h = ground (arith, v)
