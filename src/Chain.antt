-- ===== src/Chain.antt =====
-- Singly linked lists of nodes in memory, as the kernel's queues use them: addresses from a first node on,
-- each node with the address of the next, and 0 behind the last.
pub mod Append
pub mod Family
pub mod Find
pub mod Unlink
use learn_os.Base.{
  ℕ, Bool, true, false, Option, none, some, List, [], ◌∷◌, ◌≡◌, ◌≢◌, has, if◌then◌else◌,
}

-- The last address of a list that does not repeat it.
abbrev pub IsLast : (t : ℕ) → List ℕ → Type 0
IsLast t [] = Unit {0}
IsLast t (a ∷ []) = t ≡ a
IsLast t (a ∷ b ∷ ns) = (t ≢ a) × IsLast t (b ∷ ns)

-- No address stands twice in a list.
abbrev pub Apart : List ℕ → Type 0
Apart [] = Unit {0}
Apart (a ∷ ns) = (has a ns ≡ false) × Apart ns

-- What the nodes at some addresses hold.
abbrev pub contents {ℓ} : {N : Type 0} {V : Type ℓ} → (N → V) → (ℕ → N) → List ℕ → List V
contents value nodes [] = []
contents value nodes (a ∷ ns) = value (nodes a) ∷ contents value nodes ns

-- The list without the first address that passes a test, and the address before it.
abbrev pub remove_first {ℓ} : {A : Type ℓ} → (A → Bool) → List A → List A
remove_first test [] = []
remove_first test (b ∷ ns) = if test b then ns else b ∷ remove_first test ns

abbrev pub before : (ℕ → Bool) → (a : ℕ) → List ℕ → Option ℕ
before test a [] = none
before test a (b ∷ ns) = let rest = before test b ns in if test b then some a else rest

module _ {N : Type 0} (next : N → ℕ) where
  -- The nodes at these addresses are linked from `h` on, in this order.
  abbrev pub IsChain : (ℕ → N) → (h : ℕ) → List ℕ → Type 0
  IsChain nodes h [] = h ≡ 0
  IsChain nodes h (a ∷ ns) = (h ≡ a) × (a ≢ 0) × IsChain nodes (next (nodes a)) ns
