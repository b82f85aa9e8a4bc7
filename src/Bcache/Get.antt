-- ===== src/Bcache/Get.antt =====
-- Which buffer `bget` returns.
use mathlib.Core.Bool.{true≢false}
use learn_os.Base.{
  ℕ, ◌<◌, ◌≡◌, refl, sym, ap, ◌∙◌, true, false, none, some, List, length, ◌==◌, ==→eq, has,
  Bool-cases, Option-cases, inl, inr, eq→==, update,
}
use learn_os.Chain.Find.{find}
use learn_os.Bcache.{Bcache, BgetResult, is_block, is_free, counted_up, recycle, bget}
use learn_os.Bcache.Ring.{
  IsCache, backward, counted-IsCache, forward_scan, backward_scan, find-some, find-none,
}

abbrev pub recycled_at : (dev blockno b : ℕ) → Bcache → Bcache
recycled_at dev blockno b c = record c {
  buf = update c.buf b (record { valid = false; dev = dev; blockno = blockno; refcnt = 1 });
}

-- How `bget` ends.
pub data Gets (dev blockno : ℕ) (c : Bcache) (ns : List ℕ) (r : BgetResult) : Type 0 where
  cached :
      (b : ℕ)
      → has b ns ≡ true
      → is_block dev blockno c b ≡ true
      → r ≡ BgetResult.got b (counted_up b c)
      → IsCache (counted_up b c) ns
      → Gets dev blockno c ns r
  recycled :
      (b : ℕ)
      → find (is_block dev blockno c) ns ≡ none
      → find (is_free c) (backward ns) ≡ some b
      → r ≡ BgetResult.got b (recycled_at dev blockno b c)
      → IsCache (recycled_at dev blockno b c) ns
      → Gets dev blockno c ns r
  no_buffers :
      find (is_block dev blockno c) ns ≡ none
      → find (is_free c) (backward ns) ≡ none
      → r ≡ BgetResult.panics
      → Gets dev blockno c ns r

module _ (c : Bcache) (ns : List ℕ) (v : IsCache c ns) (dev blockno left : ℕ)
    (enough : length ns < left) where
  -- The block is in no other buffer.
  not_other :
      (i : ℕ)
      → find (is_block dev blockno c) ns ≡ none
      → has i ns ≡ true
      → (c.buf i).dev ≡ dev
      → (c.buf i).blockno ≡ blockno
      → ⊥
  not_other i e h d k =
      let differs = find-none (is_block dev blockno c) i ns e h in
      let same : is_block dev blockno c i ≡ true =
        rw (eq→== (c.buf i).dev dev d, eq→== (c.buf i).blockno blockno k) refl in
      true≢false (sym same ∙ differs)

  recycled-IsCache :
      (b : ℕ) → find (is_block dev blockno c) ns ≡ none → IsCache (recycled_at dev blockno b c) ns
  recycled-IsCache b e = record {
    ring = v.ring;
    once = v.once;
    no_head = v.no_head;
    all = v.all;
    unique = λ i j hi hj real d k. elim (Bool-cases (i == b)) [
      | inl y ↦ elim (Bool-cases (j == b)) [
        | inl y' ↦ ==→eq i b y ∙ sym (==→eq j b y')
        | inr n ↦
            let old : (recycled_at dev blockno b c).buf j ≡ c.buf j = rw n refl in
            let new : (recycled_at dev blockno b c).buf i
                ≡ record { valid = false; dev = dev; blockno = blockno; refcnt = 1 } =
              rw y refl in
            absurd (
              not_other j e hj (sym (ap (λ x. x.dev) old) ∙ sym d ∙ ap (λ x. x.dev) new)
                (sym (ap (λ x. x.blockno) old) ∙ sym k ∙ ap (λ x. x.blockno) new))
      ]
      | inr n ↦
          let old : (recycled_at dev blockno b c).buf i ≡ c.buf i = rw n refl in
          elim (Bool-cases (j == b)) [
            | inl y' ↦
                let new : (recycled_at dev blockno b c).buf j
                    ≡ record { valid = false; dev = dev; blockno = blockno; refcnt = 1 } =
                  rw y' refl in
                absurd (
                  not_other i e hi (sym (ap (λ x. x.dev) old) ∙ d ∙ ap (λ x. x.dev) new)
                    (sym (ap (λ x. x.blockno) old) ∙ k ∙ ap (λ x. x.blockno) new))
            | inr n' ↦
                let old' : (recycled_at dev blockno b c).buf j ≡ c.buf j = rw n' refl in
                v.unique i j hi hj (λ z. real (ap (λ x. x.dev) old ∙ z))
                  (sym (ap (λ x. x.dev) old) ∙ d ∙ ap (λ x. x.dev) old')
                  (sym (ap (λ x. x.blockno) old) ∙ k ∙ ap (λ x. x.blockno) old')
          ]
    ];
  }

  -- `bget` returns the buffer of a cached block with one reference more; for another block the least recently
  -- used buffer without a reference, invalid and with one reference; and it panics if there is none. A block
  -- is in no two buffers afterwards. The loops have more rounds than there are buffers.
  pub bget-Gets : Gets dev blockno c ns (bget left dev blockno c)
  unfolding bget recycle
  bget-Gets =
      let first = forward_scan c ns v left enough (is_block dev blockno c) in
      let second = backward_scan c ns v left enough (is_free c) in
      elim (Option-cases (find (is_block dev blockno c) ns)) [
        | inr (b, e) ↦
            let (inside, is) = find-some (is_block dev blockno c) b ns e in
            cached b inside is (rw (first, e) refl) (counted-IsCache c ns b _ v)
        | inl e ↦ elim (Option-cases (find (is_free c) (backward ns))) [
          | inr (b, g) ↦ recycled b e g (rw (first, e, second, g) refl) (recycled-IsCache b e)
          | inl g ↦ no_buffers e g (rw (first, e, second, g) refl)
        ]
      ]
