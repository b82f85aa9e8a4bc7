-- ===== src/Pipe.antt =====
-- kernel/pipe.c: the ring buffer of a pipe, `pipewrite`, `piperead` and `pipeclose`.
-- What `copyin` and `copyout` do to user memory, and whether the process was killed, are parameters.
pub mod Ring
pub mod Stream
pub mod Drain
mod Tests
use learn_os.Base.{
  ℕ, zero, suc, ◌+◌, ◌-◌, ◌%◌, ◌^◌, Bool, true, false, Option, none, some, List, [], ◌∷◌, ◌==◌,
  ◌&&◌, ◌||◌, not, update, if◌then◌else◌,
}

abbrev pub pipesize : ℕ
pipesize = 512

pub record Pipe : Type 0 where
  data_at : ℕ → ℕ
  nread : ℕ
  nwrite : ℕ
  readopen : Bool
  writeopen : Bool

-- How a call ends: with a result, with -1, or asleep until another process wakes it. A writer that is woken
-- goes on behind the bytes that it has written.
pub data Outcome : Type 0 where
  returned : ℕ → Pipe → Outcome
  failed : Pipe → Outcome
  asleep : ℕ → Pipe → Outcome

-- The same for a reader; its result is the number of the bytes delivered.
pub data Reading : Type 0 where
  returned : List ℕ → Pipe → Reading
  failed : Reading
  asleep : Reading

-- `pi->nwrite == pi->nread + PIPESIZE`, on 32-bit counters
abbrev pub is_full : Pipe → Bool
is_full p = p.nwrite == (p.nread + pipesize) % 2 ^ 32

-- `pi->nread == pi->nwrite`
abbrev pub is_empty : Pipe → Bool
is_empty p = p.nread == p.nwrite

-- `pi->data[pi->nwrite++ % PIPESIZE] = ch`
unfoldable pub push : Pipe → ℕ → Pipe
push p ch = record p {
  data_at = update p.data_at (p.nwrite % pipesize) ch;
  nwrite = (p.nwrite + 1) % 2 ^ 32;
}

-- `pi->nread++`, behind `ch = pi->data[pi->nread % PIPESIZE]`
unfoldable pub pop : Pipe → Pipe
pop p = record p { nread = (p.nread + 1) % 2 ^ 32 }

unfoldable pub front : Pipe → ℕ
front p = p.data_at (p.nread % pipesize)

module _ (killed : Bool) (copyin : ℕ → Option ℕ) where
  -- The loop of `pipewrite`, where `left` is `n - i`.
  unfoldable pub write_loop : (left : ℕ) → Pipe → (addr i : ℕ) → Outcome
  write_loop zero p addr i = Outcome.returned i p
  write_loop (suc left) p addr i =
      let rest : ℕ → Outcome = λ ch. write_loop left (push p ch) addr (i + 1) in
      if not p.readopen || killed
      then Outcome.failed p
      else if is_full p
      then Outcome.asleep i p
      else elim (copyin (addr + i)) [ none ↦ Outcome.returned i p | some ch ↦ rest ch ]

  unfoldable pub pipewrite : Pipe → (addr n : ℕ) → Outcome
  pipewrite p addr n = write_loop n p addr 0

module _ (copyout : ℕ → ℕ → Bool) where
  -- The second loop of `piperead`, where `left` is `n - i`: the bytes that `copyout` has written.
  unfoldable pub read_loop : (left : ℕ) → Pipe → (addr i : ℕ) → List ℕ × Pipe
  read_loop zero p addr i = ([], p)
  read_loop (suc left) p addr i =
      let rest = read_loop left (pop p) addr (i + 1) in
      if is_empty p
      then ([], p)
      else if copyout (addr + i) (front p)
      then (front p ∷ rest.0, rest.1)
      else ([], pop p)

  -- A reader that is woken begins anew; before it sleeps it has not changed the pipe.
  unfoldable pub piperead : (killed : Bool) → Pipe → (addr n : ℕ) → Reading
  piperead killed p addr n =
      if is_empty p && p.writeopen
      then (if killed then Reading.failed else Reading.asleep)
      else (let r = read_loop n p addr 0 in Reading.returned r.0 r.1)

-- The Boolean says that the page of the pipe is freed.
unfoldable pub pipeclose : Pipe → (writable : Bool) → Pipe × Bool
pipeclose p writable =
    let p' =
      if writable then (record p { writeopen = false }) else (record p { readopen = false }) in
    (p', not p'.readopen && not p'.writeopen)
