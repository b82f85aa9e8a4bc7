-- ===== src/Kmalloc/Pools.antt =====
-- The pools that `kmalloc` and `kmfree` choose are large enough, and where they agree.
use native.Mathlib.Nat.{pow-suc}
use native.Mathlib.Decide.{ℕ_discrete}
use learn_os.Base.{
  ℕ, zero, suc, ◌+◌, ◌*◌, ◌<◌, ◌≤◌, ◌^◌, ◌≡◌, ◌⊎◌, inl, inr, refl, ap, true, false, some, arith,
  ltb, leb, ltb→lt, leb→le, ◌&&◌, if◌then◌else◌, Bool-cases,
}
use learn_os.Buddy.Layout.{pgsize}
use learn_os.Kmalloc.{Pool, slab, buddy, pgnum, order_loop, order_of, kmalloc_pool, kmfree_pool}

-- the bytes that one object of a pool has
abbrev pub capacity : Pool → ℕ
capacity (slab n) = n
capacity (buddy order) = 2 ^ order * pgsize

-- `j` is the least order from `k` on whose blocks have `n` pages.
record IsLeast (n k j : ℕ) : Type 0 where
  enough : n ≤ 2 ^ j
  minimal : (i : ℕ) → k ≤ i → i < j → 2 ^ i < n

order_loop-IsLeast :
    (f n k : ℕ)
    → k + f ≡ 32
    → n ≤ 2 ^ 31
    → k < 32
    → (j : ℕ) × (order_loop f n k ≡ some j) × IsLeast n k j
unfolding order_loop
order_loop-IsLeast zero n k e h lt = absurd (omega arith)
order_loop-IsLeast (suc f) n k e h lt = elim (Bool-cases (ltb (2 ^ k) n)) [
  | inr enough ↦
      (k, rw enough, record { enough = ground arith; minimal = λ i a c. absurd (omega arith) })
  | inl less ↦
      let (j, found, least) = order_loop-IsLeast f n (k + 1) (omega arith) h (below less) in
      (
        j,
        rw less found,
        record {
          enough = least.enough;
          minimal = λ i a c. elim (ℕ_discrete i k) [
            | yes here ↦ rw here (ltb→lt _ _ less)
            | no other ↦ least.minimal i (omega arith) c
          ];
        },
      )
]
  where
    below : ltb (2 ^ k) n ≡ true → k + 1 < 32
    below less = elim (ℕ_discrete k 31) [
      | yes last ↦ absurd (omega (arith, ap (λ o. 2 ^ o) last, ltb→lt _ _ less))
      | no other ↦ omega arith
    ]

-- The least order wastes less than half of its block.
half_full : (n j : ℕ) → IsLeast n 0 j → (2 ^ j ≡ 1) ⊎ (2 ^ j + 2 ≤ 2 * n)
half_full n zero l = inl refl
half_full n (suc j) l = inr (omega (arith, pow-suc 2 j, l.minimal j (omega arith) (omega arith)))

-- The buddy order for a large request.
order_of-fits :
    (sz : ℕ)
    → 1024 < sz
    → sz ≤ 2 ^ 43
    → (j : ℕ) × (order_of (pgnum sz) ≡ some j)
      × (sz ≤ 2 ^ j * pgsize)
      × ((2 ^ j ≡ 1) ⊎ (2 ^ j + 2 ≤ 2 * pgnum sz))
unfolding order_of
order_of-fits sz lo hi =
    let (j, found, least) = order_loop-IsLeast 32 (pgnum sz) 0 refl (omega arith) (omega arith) in
    (j, found, omega (arith, least.enough), half_full (pgnum sz) j least)

-- the slab for a small request
abbrev slab_for : ℕ → ℕ
slab_for sz =
    if ltb 1024 sz
    then 2048
    else if ltb 512 sz
    then 1024
    else if ltb 256 sz
    then 512
    else if ltb 128 sz
    then 256
    else if ltb 64 sz
    then 128
    else if ltb 32 sz
    then 64
    else if ltb 16 sz
    then 32
    else if ltb 8 sz
    then 16
    else 8

kmalloc_pool-slab : (sz : ℕ) → ltb 2048 sz ≡ false → kmalloc_pool sz ≡ some (slab (slab_for sz))
unfolding kmalloc_pool
kmalloc_pool-slab sz h = ground arith

slab_for_bounds : (sz : ℕ) → sz ≤ 2048 → (sz ≤ slab_for sz) × (4 < sz → slab_for sz < 2 * sz)
slab_for_bounds sz h = ground arith

-- For every request of 1 byte to 2^43 bytes `kmalloc` chooses a pool whose objects are large enough,
-- and from 5 bytes on they are less than twice as large as the request.
pub kmalloc_pool-fits :
    (sz : ℕ)
    → 0 < sz
    → sz ≤ 2 ^ 43
    → (p : Pool) × (kmalloc_pool sz ≡ some p) × (sz ≤ capacity p) × (4 < sz → capacity p < 2 * sz)
unfolding kmalloc_pool
kmalloc_pool-fits sz pos hi = elim (Bool-cases (ltb 2048 sz)) [
  | inr small ↦
      let (enough, half) = slab_for_bounds sz (ground arith) in
      (slab (slab_for sz), kmalloc_pool-slab sz small, enough, half)
  | inl large ↦
      let big : 2048 < sz = ltb→lt _ _ large in
      let (j, found, enough, half) = order_of-fits sz (omega (arith, big)) hi in
      (buddy j, rw (large, found), enough, λ h. omega (arith, half, big))
]

order_one : order_of 1 ≡ some 0
unfolding order_of
order_one = refl

-- `kmfree` gives a block back to the pool that `kmalloc` took it from, except for requests of 1025 to
-- 2048 bytes, which `kmalloc` takes from the slab of 2048 bytes and `kmfree` gives back as one page.
pub kmfree_pool-kmalloc_pool :
    (sz : ℕ)
    → kmfree_pool sz ≡ (if ltb 1024 sz && leb sz 2048 then some (buddy 0) else kmalloc_pool sz)
unfolding kmfree_pool kmalloc_pool
kmfree_pool-kmalloc_pool sz = elim (Bool-cases (ltb 1024 sz)) [
  | inr small ↦ ground arith
  | inl large ↦ elim (Bool-cases (leb sz 2048)) [
    | inl middle ↦ rw (large, middle, one_page large middle)
    | inr huge ↦ ground arith
  ]
]
  where
    one_page : ltb 1024 sz ≡ true → leb sz 2048 ≡ true → order_of (pgnum sz) ≡ some 0
    one_page a c =
        let e : pgnum sz ≡ 1 = omega (arith, ltb→lt _ _ a, leb→le _ _ c) in rw e order_one
