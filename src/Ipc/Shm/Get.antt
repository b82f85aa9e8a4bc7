-- ===== src/Ipc/Shm/Get.antt =====
-- `shmget` on a well-formed table.
use native.Mathlib.Decide.{ℕ_discrete}
use learn_os.Base.{
  ℕ, ◌<◌, ◌≡◌, ◌≢◌, refl, ◌∙◌, sym, inl, inr, arith, Bool, true, false, ◌&&◌, none, some,
  Bool-cases, Option-cases, update, eq→==, ne→==,
}
use learn_os.Ipc.{is_unused}
use learn_os.Ipc.Lookup.{found, vacant, full, at-Looked}
use learn_os.Ipc.Shm.{Allocator, ShmBlock, Shm, shmmax, slots, has_bit, GetResult, created, shmget}

-- Unused segments have key 0, and no two others have the same key.
pub record IsTable (pool : ℕ → ShmBlock) : Type 0 where
  pub free_key : (i : ℕ) → i < shmmax → is_unused (pool i).state ≡ true → (pool i).key ≡ 0
  pub distinct :
      (i j : ℕ)
      → i < shmmax
      → j < shmmax
      → is_unused (pool i).state ≡ false
      → is_unused (pool j).state ≡ false
      → (pool i).key ≡ (pool j).key
      → i ≡ j

pub at_place : (pool : ℕ → ShmBlock) (i : ℕ) (b : ShmBlock) (j : ℕ) → j ≡ i → update pool i b j ≡ b
at_place pool i b j e = rw (eq→== j i e) refl

elsewhere :
    (pool : ℕ → ShmBlock) (i : ℕ) (b : ShmBlock) (j : ℕ) → j ≢ i → update pool i b j ≡ pool j
elsewhere pool i b j ne = rw (ne→== j i ne) refl

-- A block may change to one that has key 0 or a key of its own.
pub update-IsTable :
    (pool : ℕ → ShmBlock) (i : ℕ) (b : ShmBlock)
    → IsTable pool
    → (is_unused b.state ≡ true → b.key ≡ 0)
    → (is_unused b.state ≡ false
        → (j : ℕ) → j < shmmax
        → j ≢ i
        → is_unused (pool j).state ≡ false
        → (pool j).key ≢ b.key)
    → IsTable (update pool i b)
update-IsTable pool i b t free own = record {
  free_key = λ j h. elim (ℕ_discrete j i) [
    | yes e ↦ rw (at_place pool i b j e) free
    | no ne ↦ rw (elsewhere pool i b j ne) (t.free_key j h)
  ];
  distinct = λ j k hj hk. elim (ℕ_discrete j i) [
    | yes e ↦ elim (ℕ_discrete k i) [
      | yes f ↦ λ _ _ _. e ∙ sym f
      | no nf ↦
          rw (at_place pool i b j e, elsewhere pool i b k nf)
            (λ uj uk same. absurd (own uj k hk nf uk (sym same)))
    ]
    | no ne ↦ elim (ℕ_discrete k i) [
      | yes f ↦
          rw (at_place pool i b k f, elsewhere pool i b j ne)
            (λ uj uk same. absurd (own uk j hj ne uj same))
      | no nf ↦ rw (elsewhere pool i b j ne, elsewhere pool i b k nf) (t.distinct j k hj hk)
    ]
  ];
}

module _ {S : Type 0} (a : Allocator S) where
  -- How `shmget` may end.
  pub data Got (m : Shm S) (key size flag : ℕ) : Type 0 where
    existing :
        (i : ℕ)
        → shmget a m key size flag ≡ some (GetResult.ident i, m)
        → i < shmmax
        → (m.pool i).key ≡ key
        → is_unused (m.pool i).state ≡ false
        → (has_bit flag 15 && has_bit flag 14) ≡ false
        → Got m key size flag
    excluded :
        (i : ℕ)
        → shmget a m key size flag ≡ some (GetResult.already, m)
        → i < shmmax
        → (m.pool i).key ≡ key
        → is_unused (m.pool i).state ≡ false
        → (has_bit flag 15 && has_bit flag 14) ≡ true
        → Got m key size flag
    absent :
        (i : ℕ)
        → shmget a m key size flag ≡ some (GetResult.missing, m)
        → i < shmmax
        → is_unused (m.pool i).state ≡ true
        → ((j : ℕ) → j < shmmax → (m.pool j).key ≢ key)
        → has_bit flag 15 ≡ false
        → Got m key size flag
    creates :
        (i pa : ℕ) (heap : S)
        → shmget a m key size flag
          ≡ some (
            GetResult.ident i,
            record { pool = update m.pool i (created (m.pool i) key size flag pa); heap = heap },
          )
        → i < shmmax
        → has_bit flag 15 ≡ true
        → is_unused (m.pool i).state ≡ true
        → ((j : ℕ) → j < shmmax → (m.pool j).key ≢ key)
        → a.kmalloc size m.heap ≡ some (pa, heap)
        → IsTable (update m.pool i (created (m.pool i) key size flag pa))
        → Got m key size flag
    no_memory :
        shmget a m key size flag ≡ none
        → has_bit flag 15 ≡ true
        → ((j : ℕ) → j < shmmax → (m.pool j).key ≢ key)
        → a.kmalloc size m.heap ≡ none
        → Got m key size flag
    no_slot :
        shmget a m key size flag ≡ none
        → ((j : ℕ) → j < shmmax → ((m.pool j).key ≢ key) × (is_unused (m.pool j).state ≡ false))
        → Got m key size flag

  and_false : (b : Bool) → (b && false) ≡ false
  and_false true = refl
  and_false false = refl

  key_used :
      (m : Shm S) (i key : ℕ)
      → IsTable m.pool
      → key ≢ 0
      → i < shmmax
      → (m.pool i).key ≡ key
      → is_unused (m.pool i).state ≡ false
  key_used m i key t k b h = elim (Bool-cases (is_unused (m.pool i).state)) [
    | inl u ↦ absurd (k (sym h ∙ t.free_key i b u))
    | inr u ↦ u
  ]

  -- On a well-formed table and for a key other than 0, `shmget` returns the segment that has the key, or
  -- -2 if it is to create one and to fail if there is one; if there is none, it returns -1 or, if it is to
  -- create one, a segment that was unused, with the key, the size, the address from `kmalloc` and the
  -- permission bits of the flag, and no other segment changes and the table stays well formed. It
  -- fails, with no result, only if `kmalloc` does, or if the table is full and does not have the key.
  pub shmget-Got : (m : Shm S) (key size flag : ℕ) → IsTable m.pool → key ≢ 0 → Got m key size flag
  unfolding shmget
  shmget-Got m key size flag t k = elim (at-Looked shmmax (slots m.pool) key (omega arith)) [
    | found i e b h ↦
        let used = key_used m i key t k b h in
        elim (Bool-cases (has_bit flag 15)) [
          | inl c ↦ elim (Bool-cases (has_bit flag 14)) [
            | inl x ↦ excluded i (rw (e, c, x, used) refl) b h used (rw (c, x) refl)
            | inr x ↦ existing i (rw (e, c, x, used) refl) b h used (rw (c, x) refl)
          ]
          | inr c ↦ existing i (rw (e, c, used) refl) b h used (rw c refl)
        ]
    | vacant i e b u others ↦ elim (Bool-cases (has_bit flag 15)) [
      | inl c ↦ elim (Option-cases (a.kmalloc size m.heap)) [
        | inl n ↦ no_memory (rw (e, c, u, and_false (has_bit flag 14), n) refl) c others n
        | inr ((pa, heap), got) ↦
            creates i pa heap (rw (e, c, u, and_false (has_bit flag 14), got) refl) b c u others got
              (update-IsTable m.pool i (created (m.pool i) key size flag pa) t
                (λ z. absurd (ground arith)) (λ _ j hj _ _. others j hj))
      ]
      | inr c ↦ absent i (rw (e, c, u) refl) b u others c
    ]
    | full e h ↦ no_slot (rw e refl) h
  ]
