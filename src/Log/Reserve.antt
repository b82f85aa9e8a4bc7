-- ===== src/Log/Reserve.antt =====
-- The space in the log that `begin_op` reserves is enough for what the operations log.
use learn_os.Base.{
  ℕ, zero, suc, ◌+◌, ◌-◌, ◌*◌, ◌^◌, ◌<◌, ◌≤◌, ◌≡◌, refl, inl, inr, arith, Bool, true, false, some,
  List, [], ◌∷◌, length, get_elem?, ltb, leb, ◌==◌, ◌&&◌, update, Bool-cases,
}
use learn_os.Log.{
  Log, Blocks, max_op_blocks, log_size, begin_op, end_op_begin, commit, find_block, log_write,
}

abbrev sum : List ℕ → ℕ
sum [] = 0
sum (x ∷ xs) = x + sum xs

abbrev set : List ℕ → ℕ → ℕ → List ℕ
set [] i v = []
set (x ∷ xs) zero v = v ∷ xs
set (x ∷ xs) (suc i) v = x ∷ set xs i v

abbrev remove : List ℕ → ℕ → List ℕ
remove [] i = []
remove (x ∷ xs) zero = xs
remove (x ∷ xs) (suc i) = x ∷ remove xs i

abbrev Each : List ℕ → Type 0
Each [] = Unit {0}
Each (x ∷ xs) = (x ≤ max_op_blocks) × Each xs

-- The log, and for each operation between its `begin_op` and its `end_op` how many more blocks it logs.
pub record Session : Type 0 where
  pub log : Log
  pub left : List ℕ

-- One operation goes on. `ends` is `end_op` up to its first release, and `commits` what follows it.
pub data Step (s t : Session) : Type 0 where
  begins : begin_op s.log ≡ some t.log → t.left ≡ max_op_blocks ∷ s.left → Step s t
  writes :
      (i a blockno : ℕ) (pinned : Bool)
      → get_elem? s.left i ≡ some (suc a)
      → log_write s.log blockno ≡ some (pinned, t.log)
      → t.left ≡ set s.left i a
      → Step s t
  ends :
      (i a : ℕ) (do_commit : Bool)
      → get_elem? s.left i ≡ some a
      → end_op_begin s.log ≡ some (do_commit, t.log)
      → t.left ≡ remove s.left i
      → Step s t
  commits :
      (c : Blocks)
      → s.log.committing ≡ true
      → t.log ≡ record (commit s.log c).1 { committing = false }
      → t.left ≡ s.left
      → Step s t

pub data Reach (s : Session) : Session → Type 0 where
  here : Reach s s
  next : {t u : Session} → Reach s t → Step t u → Reach s u

-- After `initlog`.
pub record IsStart (s : Session) : Type 0 where
  pub idle : s.log.outstanding ≡ 0
  pub none_left : s.left ≡ []
  pub empty : s.log.n ≡ 0
  pub large : log_size < s.log.size

record IsReserved (s : Session) : Type 0 where
  counted : s.log.outstanding ≡ length s.left
  few : s.log.outstanding ≤ 3
  each : Each s.left
  room : s.log.n + sum s.left ≤ log_size
  large : log_size < s.log.size

sum_bound : (xs : List ℕ) → Each xs → sum xs ≤ length xs * max_op_blocks
sum_bound [] h = omega arith
sum_bound (x ∷ xs) h = omega (arith, sum_bound xs h.1, h.0)

sum-set : (xs : List ℕ) (i a : ℕ) → get_elem? xs i ≡ some (suc a) → sum (set xs i a) + 1 ≡ sum xs
sum-set [] i a h = cc
sum-set (x ∷ xs) zero a h = ground arith
sum-set (x ∷ xs) (suc i) a h = omega (arith, sum-set xs i a h)

length-set : (xs : List ℕ) (i a : ℕ) → length (set xs i a) ≡ length xs
length-set [] i a = refl
length-set (x ∷ xs) zero a = refl
length-set (x ∷ xs) (suc i) a = omega (arith, length-set xs i a)

Each-set : (xs : List ℕ) (i a : ℕ) → get_elem? xs i ≡ some (suc a) → Each xs → Each (set xs i a)
Each-set [] i a h e = tt
Each-set (x ∷ xs) zero a h e = (ground arith, e.1)
Each-set (x ∷ xs) (suc i) a h e = (e.0, Each-set xs i a h e.1)

sum-remove : (xs : List ℕ) (i : ℕ) → sum (remove xs i) ≤ sum xs
sum-remove [] i = omega arith
sum-remove (x ∷ xs) zero = omega arith
sum-remove (x ∷ xs) (suc i) = omega (arith, sum-remove xs i)

length-remove :
    (xs : List ℕ) (i a : ℕ) → get_elem? xs i ≡ some a → length (remove xs i) + 1 ≡ length xs
length-remove [] i a h = cc
length-remove (x ∷ xs) zero a h = omega arith
length-remove (x ∷ xs) (suc i) a h = omega (arith, length-remove xs i a h)

Each-remove : (xs : List ℕ) (i : ℕ) → Each xs → Each (remove xs i)
Each-remove [] i e = tt
Each-remove (x ∷ xs) zero e = e.1
Each-remove (x ∷ xs) (suc i) e = (e.0, Each-remove xs i e.1)

-- what each operation does to the fields that count
begin_counts :
    (l : Log) {l' : Log}
    → begin_op l ≡ some l'
    → (l'.outstanding ≡ l.outstanding + 1)
      × (l'.n ≡ l.n)
      × (l'.size ≡ l.size)
      × (l.n + (l.outstanding + 1) * max_op_blocks ≤ log_size)
unfolding begin_op
begin_counts l e = ground arith

write_counts :
    (l : Log) (b : ℕ) (p : Bool) {l' : Log}
    → log_write l b ≡ some (p, l')
    → (l'.outstanding ≡ l.outstanding) × (l'.n ≤ l.n + 1) × (l'.size ≡ l.size)
unfolding log_write
write_counts l b p e = ground arith

end_counts :
    (l : Log) (p : Bool) {l' : Log}
    → end_op_begin l ≡ some (p, l')
    → 0 < l.outstanding
    → l.outstanding ≤ 3
    → (l'.outstanding + 1 ≡ l.outstanding) × (l'.n ≡ l.n) × (l'.size ≡ l.size)
unfolding end_op_begin
end_counts l p e h k = ground arith

commit_counts :
    (l : Log) (c : Blocks)
    → ((commit l c).1.outstanding ≡ l.outstanding)
      × ((commit l c).1.n ≡ 0)
      × ((commit l c).1.size ≡ l.size)
unfolding commit
commit_counts l c = ground arith

some_left : (xs : List ℕ) (i a : ℕ) → get_elem? xs i ≡ some a → 0 < length xs
some_left [] i a h = cc
some_left (x ∷ xs) i a h = omega arith

Step-IsReserved : {s t : Session} → Step s t → IsReserved s → IsReserved t
Step-IsReserved {s} {t} (begins e l) r =
    let c = begin_counts s.log e in
    let b = sum_bound s.left r.each in
    record {
      counted = rw l (omega (arith, c, r.counted));
      few = omega (arith, c);
      each = rw l (omega arith, r.each);
      room = rw l (omega (arith, c, b, r.counted));
      large = omega (arith, c, r.large);
    }
Step-IsReserved {s} {t} (writes i a b p has e l) r =
    let c = write_counts s.log b p e in
    record {
      counted = rw l (omega (arith, c, r.counted, length-set s.left i a));
      few = omega (arith, c, r.few);
      each = rw l (Each-set s.left i a has r.each);
      room = rw l (omega (arith, c, r.room, sum-set s.left i a has));
      large = omega (arith, c, r.large);
    }
Step-IsReserved {s} {t} (ends i a p has e l) r =
    let some_op = some_left s.left i a has in
    let c = end_counts s.log p e (omega (arith, r.counted, some_op)) r.few in
    record {
      counted = rw l (omega (arith, c, r.counted, length-remove s.left i a has));
      few = omega (arith, c, r.few);
      each = rw l (Each-remove s.left i r.each);
      room = rw l (omega (arith, c, r.room, sum-remove s.left i));
      large = omega (arith, c, r.large);
    }
Step-IsReserved {s} {t} (commits c busy e l) r =
    let k = commit_counts s.log c in
    record {
      counted = rw (l, e) (omega (arith, k, r.counted));
      few = rw e (omega (arith, k, r.few));
      each = rw l r.each;
      room = rw (l, e) (omega (arith, k, r.room));
      large = rw e (omega (arith, k, r.large));
    }

Reach-IsReserved : {s t : Session} → IsReserved s → Reach s t → IsReserved t
Reach-IsReserved r here = r
Reach-IsReserved r (next p st) = Step-IsReserved st (Reach-IsReserved r p)

IsStart-IsReserved : (s : Session) → IsStart s → IsReserved s
IsStart-IsReserved s h = record {
  counted = rw h.none_left h.idle;
  few = omega (arith, h.idle);
  each = rw h.none_left tt;
  room = rw h.none_left (omega (arith, h.empty));
  large = h.large;
}

log_write_room :
    (l : Log) (b : ℕ)
    → l.n < log_size
    → log_size < l.size
    → 0 < l.outstanding
    → l.outstanding ≤ 3
    → (r : Bool × Log) × (log_write l b ≡ some r)
unfolding log_write
log_write_room l b h k o f = elim (Bool-cases (find_block l.n l b 0 == l.n)) [
  | inl new ↦ (
    (true, record l { block = update l.block (find_block l.n l b 0) b; n = l.n + 1 }),
    rw (room, started, new) refl,
  )
  | inr old ↦ (
    (false, record l { block = update l.block (find_block l.n l b 0) b }),
    rw (room, started, old) refl,
  )
]
  where
    room : (ltb l.n log_size && ltb l.n (l.size - 1)) ≡ true
    room = ground arith

    started : (leb 1 l.outstanding && ltb l.outstanding (2 ^ 31)) ≡ true
    started = ground arith

get_elem?-le-sum : (xs : List ℕ) (i a : ℕ) → get_elem? xs i ≡ some a → a ≤ sum xs
get_elem?-le-sum [] i a h = cc
get_elem?-le-sum (x ∷ xs) zero a h = ground arith
get_elem?-le-sum (x ∷ xs) (suc i) a h = omega (arith, get_elem?-le-sum xs i a h)

-- Let the log have more than `LOGSIZE` blocks. However the operations of any number of processes
-- interleave, as long as each logs at most `MAXOPBLOCKS` times between its `begin_op` and its `end_op`,
-- no `log_write` panics.
pub log_write-safe :
    {s t : Session} (i a blockno : ℕ)
    → IsStart s
    → Reach s t
    → get_elem? t.left i ≡ some (suc a)
    → (r : Bool × Log) × (log_write t.log blockno ≡ some r)
log_write-safe {s} {t} i a blockno st p has =
    let r = Reach-IsReserved (IsStart-IsReserved s st) p in
    log_write_room t.log blockno (omega (arith, r.room, get_elem?-le-sum t.left i (suc a) has))
      r.large (omega (arith, r.counted, some_left t.left i (suc a) has)) r.few
