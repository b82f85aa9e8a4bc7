-- ===== src/Ipc/Shm.antt =====
-- kernel/shm.c: the table of shared memory segments, `shmget`, `shmctl` and `shm_reinit`.
-- The allocator behind `kmalloc` and `kmfree` is an interface, `Allocator`.
pub mod Get
pub mod Control
use learn_os.Base.{
  ℕ, ◌+◌, ◌-◌, ◌/◌, ◌%◌, ◌^◌, ◌≤◌, ◌<◌, ◌≡◌, Bool, true, false, not, ◌&&◌, Option, none, some, ◌==◌,
  leb, ◌>>=◌, ◌>>◌, guard, update, if◌then◌else◌,
}
use learn_os.Ipc.{IpcState, Slot, is_unused, at}

abbrev pub shmmax : ℕ
shmmax = 4096

-- `kmalloc` and `kmfree`, which may panic.
pub record Allocator (S : Type 0) : Type 0 where
  pub kmalloc : ℕ → S → Option (ℕ × S)
  pub kmfree : ℕ → ℕ → S → Option S

pub record ShmBlock : Type 0 where
  pub sz : ℕ
  pub ref_count : ℕ
  pub flag : ℕ
  pub key : ℕ
  pub ptr : ℕ
  pub state : IpcState

-- `shmid_pool`, and the state of the allocator
pub record Shm (S : Type 0) : Type 0 where
  pub pool : ℕ → ShmBlock
  pub heap : S

abbrev pub slots : (ℕ → ShmBlock) → ℕ → Slot
slots pool i = record { key = (pool i).key; state = (pool i).state }

-- `flag & (1U << k)`
abbrev pub has_bit : ℕ → ℕ → Bool
has_bit flag k = flag / 2 ^ k % 2 == 1

-- What `shmget` returns: an identifier, -1, or -2.
pub data GetResult : Type 0 where
  ident : ℕ → GetResult
  missing already : GetResult

-- The commands of `shmctl`, IPC_SET with the flag of the user's buffer.
pub data Command : Type 0 where
  ipc_set : ℕ → Command
  ipc_rmid ipc_stat other : Command

-- What `shmctl` returns: 0, -1, or -2; with IPC_STAT -2 and the block whose size, reference count, flag and
-- state it has copied to the buffer.
pub data CtlResult : Type 0 where
  done invalid unknown : CtlResult
  unknown_copied : ShmBlock → CtlResult

-- The new segment of `shmget`; its reference count is not written.
abbrev pub created : ShmBlock → (key size flag pa : ℕ) → ShmBlock
created b key size flag pa = record b {
  flag = flag % 2 ^ 12;
  key = key;
  ptr = pa;
  sz = size % 2 ^ 32;
  state = IpcState.used;
}

abbrev pub reinitialised : ShmBlock → ShmBlock
reinitialised b = record b { key = 0; ptr = 0; sz = 0; state = IpcState.unused }

module _ {S : Type 0} (a : Allocator S) where
  -- With the table full `shm_at` returns -1, and the access to the table is out of its bounds: `none`.
  unfoldable pub shmget : Shm S → (key size flag : ℕ) → Option (GetResult × Shm S)
  shmget m key size flag = do
    looked ← at shmmax (slots m.pool) key
    id ← looked
    if has_bit flag 15
        then if has_bit flag 14 && not (is_unused (m.pool id).state)
          then some (GetResult.already, m)
          else if is_unused (m.pool id).state
          then (do
            taken ← a.kmalloc size m.heap
            some (
              GetResult.ident id,
              record {
                pool = update m.pool id (created (m.pool id) key size flag taken.0);
                heap = taken.1;
              },
            ))
          else some (GetResult.ident id, m)
        else if is_unused (m.pool id).state
        then some (GetResult.missing, m)
        else some (GetResult.ident id, m)

  unfoldable pub shm_reinit : Shm S → ℕ → Option (Shm S)
  shm_reinit m id = do
    guard ((m.pool id).ref_count == 0)
    heap ← a.kmfree (m.pool id).ptr (m.pool id).sz m.heap
    some (record { pool = update m.pool id (reinitialised (m.pool id)); heap = heap })

  -- A negative `shmid` is refused like one that is too large; the model's is a number from 0 on.
  unfoldable pub shmctl : Shm S → (shmid : ℕ) → Command → Option (CtlResult × Shm S)
  shmctl m shmid cmd =
      if leb shmmax shmid
      then some (CtlResult.invalid, m)
      else if is_unused (m.pool shmid).state
      then some (CtlResult.invalid, m)
      else command cmd
    where
      zombie : Shm S
      zombie = record m {
        pool = update m.pool shmid (record (m.pool shmid) { state = IpcState.zombie });
      }

      command : Command → Option (CtlResult × Shm S)
      command (Command.ipc_set flag) = some (
        CtlResult.done,
        record m { pool = update m.pool shmid (record (m.pool shmid) { flag = flag }) },
      )
      command Command.ipc_rmid =
          if (m.pool shmid).ref_count == 0
          then (do m' ← shm_reinit zombie shmid; some (CtlResult.done, m'))
          else some (CtlResult.done, zombie)
      command Command.ipc_stat = some (CtlResult.unknown_copied (m.pool shmid), m)
      command Command.other = some (CtlResult.unknown, m)
