-- ===== src/Ipc/Lookup.antt =====
-- `AT_FUNC` looks at every slot: its result is right in every case.
use native.Mathlib.Nat.{mod-eq_of_lt, mod_self, mod-lt}
use native.Mathlib.Decide.{ℕ_discrete}
use learn_os.Base.{
  ℕ, zero, suc, ◌+◌, ◌-◌, ◌%◌, ◌<◌, ◌≤◌, ◌≡◌, ◌≢◌, ◌⊎◌, inl, inr, refl, ◌∙◌, sym, ap, Bool, true,
  false, Option, none, some, arith, ltb, leb, ◌&&◌, ◌||◌, ◌==◌, if◌then◌else◌, Bool-cases, ==→eq,
  eq→==, ne→==,
}
use learn_os.Ipc.{Slot, is_unused, hash, scan, at, is_none}

module _ (poolsize : ℕ) (key_of : ℕ → ℕ) (free : ℕ → Bool) (key : ℕ) where
  -- The slots that the loop has left behind when it comes to `id`.
  abbrev behind : ℕ → ℕ → ℕ → Bool
  behind origin id i = if ltb id origin then ltb i id || leb origin i else leb origin i && ltb i id

  -- how many rounds the loop has left
  abbrev left : ℕ → ℕ → ℕ
  left origin id = if ltb id origin then origin - id else poolsize - id + origin

  abbrev IsFirst : (ℕ → Bool) → Option ℕ → Type 0
  IsFirst seen none = (i : ℕ) → i < poolsize → seen i ≡ true → free i ≡ false
  IsFirst seen (some i) = (i < poolsize) × (free i ≡ true)

  record Seen (seen : ℕ → Bool) (first_free : Option ℕ) : Type 0 where
    absent : (i : ℕ) → i < poolsize → seen i ≡ true → key_of i ≢ key
    first : IsFirst seen first_free

  -- How the loop may end.
  data Ended (o : Option (ℕ × Option ℕ)) : Type 0 where
    hit : (r : ℕ × Option ℕ) → o ≡ some r → r.0 < poolsize → key_of r.0 ≡ key → Ended o
    miss : (r : ℕ × Option ℕ) → o ≡ some r → r.0 < poolsize → Seen (λ i. true) r.1 → Ended o

  next-cases :
      (id : ℕ)
      → id < poolsize
      → ((id + 1 ≡ poolsize) × ((id + 1) % poolsize ≡ 0))
        ⊎ ((id + 1 < poolsize) × ((id + 1) % poolsize ≡ id + 1))
  next-cases id h = elim (ℕ_discrete (id + 1) poolsize) [
    | yes e ↦ inl (e, rw e (mod_self poolsize))
    | no ne ↦ inr (omega arith, mod-eq_of_lt (omega arith))
  ]

  next_lt : (id : ℕ) → id < poolsize → (id + 1) % poolsize < poolsize
  next_lt id h = mod-lt (id + 1) (omega arith)

  abbrev first_of : ℕ → Option ℕ → Option ℕ
  first_of id ff = if is_none ff && free id then some id else ff

  Seen-weaken :
      {seen more : ℕ → Bool} (ff : Option ℕ)
      → ((i : ℕ) → i < poolsize → more i ≡ true → seen i ≡ true)
      → Seen seen ff
      → Seen more ff
  Seen-weaken none sub s = record {
    absent = λ i h t. s.absent i h (sub i h t);
    first = λ i h t. s.first i h (sub i h t);
  }
  Seen-weaken (some j) sub s = record {
    absent = λ i h t. s.absent i h (sub i h t);
    first = s.first;
  }

  other-key : (a b : ℕ) → (a == b) ≡ false → a ≢ b
  other-key a b ne e = ground arith

  key-step :
      (origin id : ℕ) (seen : ℕ → Bool)
      → (key_of id == key) ≡ false
      → ((i : ℕ) → i < poolsize → seen i ≡ true → key_of i ≢ key)
      → (i : ℕ) → i < poolsize
      → (seen i || i == id) ≡ true
      → key_of i ≢ key
  key-step origin id seen ne s i hi t = elim (ℕ_discrete i id) [
    | yes e ↦ λ k. other-key (key_of id) key ne (ap key_of (sym e) ∙ k)
    | no other ↦ s i hi (ground arith)
  ]

  IsFirst-step :
      (id : ℕ) (seen : ℕ → Bool)
      → id < poolsize
      → IsFirst seen none
      → IsFirst (λ i. seen i || i == id) (first_of id none)
  IsFirst-step id seen h s = elim (Bool-cases (free id)) [
    | inl t ↦ rw t (h, t)
    | inr n ↦ rw n (λ i hi t. elim (ℕ_discrete i id) [
      | yes e ↦ ap free e ∙ n
      | no other ↦ s i hi (ground arith)
    ])
  ]

  -- One round of the loop.
  Seen-step :
      (origin id : ℕ) (ff : Option ℕ)
      → id < poolsize
      → (key_of id == key) ≡ false
      → Seen (behind origin id) ff
      → Seen (λ i. behind origin id i || i == id) (first_of id ff)
  Seen-step origin id (some j) h ne s = record {
    absent = λ i hi t. key-step origin id (behind origin id) ne s.absent i hi t;
    first = s.first;
  }
  Seen-step origin id none h ne s = record {
    absent = λ i hi t. key-step origin id (behind origin id) ne s.absent i hi t;
    first = IsFirst-step id (behind origin id) h s.first;
  }

  wrap-all :
      (origin id : ℕ)
      → id < poolsize
      → (i : ℕ) → i < poolsize
      → ((id + 1) % poolsize == origin) ≡ true
      → (behind origin id i || i == id) ≡ true
  wrap-all origin id h i hi w = ground (arith, next-cases id h)

  behind-next :
      (origin id : ℕ)
      → id < poolsize
      → (i : ℕ) → i < poolsize
      → ((id + 1) % poolsize == origin) ≡ false
      → behind origin ((id + 1) % poolsize) i ≡ true
      → (behind origin id i || i == id) ≡ true
  behind-next origin id h i hi w t = ground (arith, next-cases id h)

  left-next :
      (origin id f : ℕ)
      → origin < poolsize
      → id < poolsize
      → left origin id ≤ suc f
      → ((id + 1) % poolsize == origin) ≡ false
      → left origin ((id + 1) % poolsize) ≤ f
  left-next origin id f ho h e w = ground (arith, next-cases id h)

  module _ (origin : ℕ) (ho : origin < poolsize) where
    scan-Ended :
        (f id : ℕ) (first_free : Option ℕ)
        → id < poolsize
        → left origin id ≤ f
        → Seen (behind origin id) first_free
        → Ended (scan poolsize key_of free f key origin id first_free)
    unfolding scan
    scan-Ended zero id ff h enough seen = absurd (ground arith)
    scan-Ended (suc f) id ff h enough seen = elim (Bool-cases (key_of id == key)) [
      | inl here ↦ rw here (hit (id, ff) refl h (==→eq _ _ here))
      | inr other ↦ elim (Bool-cases ((id + 1) % poolsize == origin)) [
        | inl wrapped ↦
            rw (other, wrapped)
              (miss ((id + 1) % poolsize, first_of id ff) refl (next_lt id h)
                (Seen-weaken (first_of id ff) (λ i hi t. wrap-all origin id h i hi wrapped)
                  (Seen-step origin id ff h other seen)))
        | inr further ↦
            rw (other, further)
              (scan-Ended f ((id + 1) % poolsize) (first_of id ff) (next_lt id h)
                (left-next origin id f ho h enough further)
                (Seen-weaken (first_of id ff) (λ i hi t. behind-next origin id h i hi further t)
                  (Seen-step origin id ff h other seen)))
      ]
    ]

none-behind :
    (poolsize : ℕ) (key_of : ℕ → ℕ) (free : ℕ → Bool) (key origin i : ℕ)
    → behind poolsize key_of free key origin origin i ≢ true
none-behind poolsize key_of free key origin i t = ground arith

-- What `AT_FUNC` may return.
pub data Looked (poolsize : ℕ) (pool : ℕ → Slot) (key : ℕ) : Type 0 where
  found :
      (i : ℕ)
      → at poolsize pool key ≡ some (some i)
      → i < poolsize
      → (pool i).key ≡ key
      → Looked poolsize pool key
  vacant :
      (i : ℕ)
      → at poolsize pool key ≡ some (some i)
      → i < poolsize
      → is_unused (pool i).state ≡ true
      → ((j : ℕ) → j < poolsize → (pool j).key ≢ key)
      → Looked poolsize pool key
  full :
      at poolsize pool key ≡ some none
      → ((j : ℕ) → j < poolsize → ((pool j).key ≢ key) × (is_unused (pool j).state ≡ false))
      → Looked poolsize pool key

Looked-miss :
    (poolsize : ℕ) (pool : ℕ → Slot) (key : ℕ) (first_free : Option ℕ)
    → at poolsize pool key ≡ some first_free
    → Seen poolsize (λ i. (pool i).key) (λ i. is_unused (pool i).state) key (λ i. true) first_free
    → Looked poolsize pool key
Looked-miss poolsize pool key none e s = full e (λ j h. (s.absent j h refl, s.first j h refl))
Looked-miss poolsize pool key (some i) e s =
    vacant i e s.first.0 s.first.1 (λ j h. s.absent j h refl)

-- Whatever the keys and states of a table of at least one slot are, the search of `shm_at`, `sem_at` and
-- `msq_at` ends within as many rounds as the table has slots, and returns a slot of the table that has
-- the key, or, only if no slot has the key, an unused slot, or, only if no slot has the key and none is
-- unused, -1.
pub at-Looked : (poolsize : ℕ) (pool : ℕ → Slot) (key : ℕ) → 0 < poolsize → Looked poolsize pool key
unfolding at
at-Looked poolsize pool key h =
    elim (scan-Ended poolsize (λ i. (pool i).key) (λ i. is_unused (pool i).state) key
      (hash poolsize key) (mod-lt key h) poolsize (hash poolsize key) none (mod-lt key h)
      (ground (arith, mod-lt key h))
      (record {
        absent = λ i hi t. absurd (none-behind poolsize (λ i. 0) (λ i. true) key _ i t);
        first = λ i hi t. absurd (none-behind poolsize (λ i. 0) (λ i. true) key _ i t);
      })) [
        | hit r e b k ↦ found r.0 (rw (e, eq→== _ _ k) refl) b k
        | miss r e b s ↦
            Looked-miss poolsize pool key r.1 (rw (e, ne→== _ _ (s.absent r.0 b refl)) refl) s
      ]
