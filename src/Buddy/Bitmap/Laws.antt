-- ===== src/Buddy/Bitmap/Laws.antt =====
-- Writing and reading back the bits of kernel/kalloc.c's bitmap.
use native.Mathlib.Decide.{ℕ_discrete}
use native.Mathlib.Nat.{div-add-mod}
use learn_os.Base.{
  bit_and, inl, inr, Bool-cases, ℕ, refl, ◌*◌, ◌%◌, ◌/◌, ◌<◌, ◌^◌, ◌≡◌, ◌≢◌, ◌∙◌, sym, ap, ap₂,
  Bool, true, false, not, ◌&&◌, some, arith, ==→eq, eq→==, ne→==, ◌==◌, update, if◌then◌else◌,
}
use learn_os.Buddy.Bitmap.{
  Bitmap, setbitmap, getbitmap, aligned, byte_of, bit_of, set_bit, clear_bit,
}
use learn_os.Buddy.Bitmap.Bytes.{
  off, bit_and-off, off-set_bit, off-clear_bit, set_bit-lt, clear_bit-lt,
}
use learn_os.Buddy.Bitmap.Places.{place-injective}

-- The bitmap after `buddy_setbitmap`.
abbrev pub write : Bitmap → ℕ → ℕ → Bool → Bitmap
write m x o f =
    update m (byte_of x o) (
      if f
      then set_bit (m (byte_of x o)) (bit_of x o)
      else clear_bit (m (byte_of x o)) (bit_of x o))

pub setbitmap-eq :
    (m : Bitmap) (x o : ℕ) (f : Bool)
    → aligned x o ≡ true
    → setbitmap m x o f ≡ some (write m x o f)
unfolding setbitmap
setbitmap-eq m x o f h = rw h

-- `buddy_getbitmap` panics on a block that is not aligned; otherwise its result is 0 exactly if the bit is.
pub getbitmap-eq :
    (m : Bitmap) (x o : ℕ)
    → aligned x o ≡ true
    → getbitmap m x o ≡ some (bit_and (m (byte_of x o)) (2 ^ bit_of x o))
unfolding getbitmap
getbitmap-eq m x o h = rw h

aligned-eq : (x y o : ℕ) → aligned x o ≡ true → aligned y o ≡ true → x / 2 ^ o ≡ y / 2 ^ o → x ≡ y
aligned-eq x y o hx hy e = omega (
  arith,
  div-add-mod x (2 ^ o),
  div-add-mod y (2 ^ o),
  ap (λ q. 2 ^ o * q) e,
  ==→eq (x % 2 ^ o) 0 hx,
  ==→eq (y % 2 ^ o) 0 hy,
)

off-byte :
    (b k j : ℕ) (f : Bool)
    → b < 256
    → k < 8
    → j < 8
    → off (if f then set_bit b k else clear_bit b k) j ≡ (if k == j then not f else off b j)
off-byte b k j true hb hk hj = off-set_bit b k hb hk j hj
off-byte b k j false hb hk hj = off-clear_bit b k hb hk j hj

off-at :
    (m : Bitmap)
    → ((i : ℕ) → m i < 256)
    → (i i' j j' : ℕ) (f c : Bool) → j < 8
    → j' < 8
    → (i ≡ i' → j ≡ j' → c ≡ true)
    → (c ≡ true → (i ≡ i') × (j ≡ j'))
    → off (update m i (if f then set_bit (m i) j else clear_bit (m i) j) i') j'
      ≡ (if c then not f else off (m i') j')
off-at m bytes i i' j j' f c hj hj' to from = elim (ℕ_discrete i' i) [
  | yes e ↦ rw (eq→== i' i e) (off-byte (m i) j j' f (bytes i) hj hj' ∙ pick e)
  | no ne ↦ rw (ne→== i' i ne, unhit ne)
]
  where
    unhit : i' ≢ i → c ≡ false
    unhit ne = elim (Bool-cases c) [ inl t ↦ absurd (ne (sym (from t).0)) | inr n ↦ n ]

    pick : i' ≡ i → (if j == j' then not f else off (m i) j') ≡ (if c then not f else off (m i') j')
    pick e = elim (ℕ_discrete j j') [
      | yes d ↦ rw (eq→== j j' d, to (sym e) d)
      | no ne ↦ elim (Bool-cases c) [
        | inl t ↦ absurd (ne (from t).1)
        | inr n ↦ rw (ne→== j j' ne, n, e)
      ]
    ]

module _ (m : Bitmap) (bytes : (i : ℕ) → m i < 256) where
  pub write-lt : (x o : ℕ) (f : Bool) (i : ℕ) → write m x o f i < 256
  write-lt x o true i = ground (
    arith,
    bytes i,
    set_bit-lt (m (byte_of x o)) (bit_of x o) (bytes (byte_of x o)) (omega arith),
  )
  write-lt x o false i = ground (
    arith,
    bytes i,
    clear_bit-lt (m (byte_of x o)) (bit_of x o) (bytes (byte_of x o)) (omega arith),
  )

  module _ (x y o k : ℕ) (f : Bool) (ho : o < 12) (hk : k < 12) (hx : x < 2 ^ 15) (hy : y < 2 ^ 15)
      (ax : aligned x o ≡ true) (ay : aligned y k ≡ true) where
    same_place : byte_of x o ≡ byte_of y k → bit_of x o ≡ bit_of y k → (o ≡ k) × (x ≡ y)
    same_place e d =
        let (p, q) = place-injective o k x y ho hk hx hy e d in
        (p, aligned-eq x y k (rw p at ax) ay (ap (λ j. x / 2 ^ j) (sym p) ∙ q))

    same_bit : (o == k) && (x == y) ≡ true → (byte_of x o ≡ byte_of y k) × (bit_of x o ≡ bit_of y k)
    same_bit h = (
      ap₂ byte_of (==→eq x y (ground arith)) (==→eq o k (ground arith)),
      ap₂ bit_of (==→eq x y (ground arith)) (==→eq o k (ground arith)),
    )

    pub off-write :
        off (write m x o f (byte_of y k)) (bit_of y k)
        ≡ (if (o == k) && (x == y) then not f else off (m (byte_of y k)) (bit_of y k))
    off-write =
        off-at m bytes (byte_of x o) (byte_of y k) (bit_of x o) (bit_of y k) f
          ((o == k) && (x == y)) (omega arith) (omega arith)
          (λ e d. let (p, q) = same_place e d in rw (eq→== o k p, eq→== x y q)) same_bit

-- The value under the bit.
value-write :
    (m : Bitmap)
    → ((i : ℕ) → m i < 256)
    → (x y o k : ℕ) (f : Bool) → o < 12
    → k < 12
    → x < 2 ^ 15
    → y < 2 ^ 15
    → aligned x o ≡ true
    → aligned y k ≡ true
    → bit_and (write m x o f (byte_of y k)) (2 ^ bit_of y k) ≡ (
        if (o == k) && (x == y)
        then (if f then 2 ^ bit_of y k else 0)
        else bit_and (m (byte_of y k)) (2 ^ bit_of y k))
value-write m bytes x y o k f ho hk hx hy ax ay =
    let new =
      bit_and-off (write m x o f (byte_of y k)) (bit_of y k) (write-lt m bytes x o f (byte_of y k))
        (omega arith) in
    let old = bit_and-off (m (byte_of y k)) (bit_of y k) (bytes (byte_of y k)) (omega arith) in
    let flips = off-write m bytes x y o k f ho hk hx hy ax ay in
    elim (Bool-cases ((o == k) && (x == y))) [
      | inl here ↦
          let now : off (write m x o f (byte_of y k)) (bit_of y k) ≡ not f = flips ∙ rw here refl in
          rw here (new ∙ ap (λ b. if b then 0 else 2 ^ bit_of y k) now ∙ flag f)
      | inr other ↦
          let now : off (write m x o f (byte_of y k)) (bit_of y k)
              ≡ off (m (byte_of y k)) (bit_of y k) =
            flips ∙ rw other refl in
          rw other (new ∙ ap (λ b. if b then 0 else 2 ^ bit_of y k) now ∙ sym old)
    ]
  where
    flag : (f : Bool) → (if not f then 0 else 2 ^ bit_of y k) ≡ (if f then 2 ^ bit_of y k else 0)
    flag true = refl
    flag false = refl

-- For blocks of memory of orders up to 11, `buddy_setbitmap` returns, and `buddy_getbitmap` then
-- returns on the same block its bit if the flag was 1, and 0 if it was 0, and on any other block what it
-- returned before.
pub getbitmap-setbitmap :
    (m : Bitmap)
    → ((i : ℕ) → m i < 256)
    → (x y o k : ℕ) (f : Bool) → o < 12
    → k < 12
    → x < 2 ^ 15
    → y < 2 ^ 15
    → aligned x o ≡ true
    → aligned y k ≡ true
    → (m' : Bitmap) × (v w : ℕ) × (setbitmap m x o f ≡ some m')
      × (getbitmap m' y k ≡ some v)
      × (getbitmap m y k ≡ some w)
      × (v ≡ (if (o == k) && (x == y) then (if f then 2 ^ bit_of y k else 0) else w))
getbitmap-setbitmap m bytes x y o k f ho hk hx hy ax ay = (
  write m x o f,
  bit_and (write m x o f (byte_of y k)) (2 ^ bit_of y k),
  bit_and (m (byte_of y k)) (2 ^ bit_of y k),
  setbitmap-eq m x o f ax,
  getbitmap-eq (write m x o f) y k ay,
  getbitmap-eq m y k ay,
  value-write m bytes x y o k f ho hk hx hy ax ay,
)
