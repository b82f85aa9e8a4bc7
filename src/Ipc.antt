-- ===== src/Ipc.antt =====
-- kernel/ipc_hash.h: the open-addressing tables in which shared memory segments, semaphore sets and
-- message queues are found by key. `HASH_FUNC` and `AT_FUNC` are instantiated by a pool's size.
pub mod Lookup
pub mod Shm
mod Tests
use learn_os.Base.{
  ℕ, zero, suc, ◌+◌, ◌%◌, Bool, true, false, Option, none, some, ◌==◌, ◌&&◌, ◌>>=◌, if◌then◌else◌,
}

-- `enum ipcstate`
pub data IpcState : Type 0 where
  unused zombie used : IpcState

abbrev pub is_unused : IpcState → Bool
is_unused unused = true
is_unused zombie = false
is_unused used = false

abbrev pub is_none : Option ℕ → Bool
is_none none = true
is_none (some i) = false

-- `HASH_FUNC`
abbrev pub hash : ℕ → ℕ → ℕ
hash poolsize key = key % poolsize

-- What the tables share: the key and the state of a slot of `shmid_pool`, `semid_pool` or `msqid_pool`.
pub record Slot : Type 0 where
  key : ℕ
  state : IpcState

module _ (poolsize : ℕ) (key_of : ℕ → ℕ) (free : ℕ → Bool) where
  -- The loop of `AT_FUNC`: the last `id` and `first_free`, where a `first_free` of `none` is -1; or `none`,
  -- when the loop goes on after the given number of rounds. `find_free` is set exactly if `first_free` is.
  unfoldable pub scan : ℕ → ℕ → ℕ → ℕ → Option ℕ → Option (ℕ × Option ℕ)
  scan zero key origin_id id first_free = none
  scan (suc f) key origin_id id first_free =
      let first_free' = if is_none first_free && free id then some id else first_free in
      let next = (id + 1) % poolsize in
      let rest = scan f key origin_id next first_free' in
      if key_of id == key
      then some (id, first_free)
      else if next == origin_id
      then some (next, first_free')
      else rest

-- `AT_FUNC`, with as many rounds as the table has slots: the slot with the key, or the first free slot behind
-- the key's hash, or an inner `none` for -1. The outer `none` is a loop that has not ended.
unfoldable pub at : (poolsize : ℕ) (pool : ℕ → Slot) (key : ℕ) → Option (Option ℕ)
unfolding scan
at poolsize pool key = do
  let origin = hash poolsize key
  last ←
      scan poolsize (λ i. (pool i).key) (λ i. is_unused (pool i).state) poolsize key origin origin
        none
  some (if (pool last.0).key == key then some last.0 else last.1)
