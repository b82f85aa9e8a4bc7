-- ===== src/Files.antt =====
-- kernel/file.c: the table of open files, `filealloc`, `filedup` and `fileclose`.
-- Each runs as one step, as the lock of the table makes it; what `fileclose` does behind the lock with
-- the object of the file is its result.
mod Counts
mod References
mod Tests
use learn_os.Base.{
  ℕ, ◌+◌, ◌-◌, ◌%◌, ◌^◌, Bool, true, false, Option, none, some, ltb, leb, ◌==◌, ◌&&◌, ◌>>=◌, ◌>>◌,
  guard, update, if◌then◌else◌,
}
use learn_os.Proc.{first}

abbrev pub nfile : ℕ
nfile = 100

-- The field `type` of `struct file`.
pub data FileType : Type 0 where
  fd_none fd_pipe fd_inode fd_device : FileType

-- `ref` is an `int`, as its 32-bit pattern; `pipe` and `ip` are addresses.
pub record File : Type 0 where
  pub kind : FileType
  pub ref : ℕ
  pub readable : Bool
  pub writable : Bool
  pub pipe : ℕ
  pub ip : ℕ
  pub off : ℕ
  pub major : ℕ

abbrev pub FileTable : Type 0
FileTable = ℕ → File

-- `f->ref < 1` is false.
abbrev pub referenced : File → Bool
referenced f = leb 1 f.ref && ltb f.ref (2 ^ 31)

-- `filealloc` behind its search.
unfoldable pub filealloc_at : FileTable → Option ℕ → Option ℕ × FileTable
filealloc_at t none = (none, t)
filealloc_at t (some f) = (some f, update t f (record (t f) { ref = 1 }))

unfoldable pub filealloc : FileTable → Option ℕ × FileTable
unfolding filealloc_at
filealloc t = filealloc_at t (first nfile 0 (λ f. (t f).ref == 0))

unfoldable pub filedup : FileTable → ℕ → Option FileTable
filedup t f = do
  guard (referenced (t f))
  some (update t f (record (t f) { ref = ((t f).ref + 1) % 2 ^ 32 }))

-- What `fileclose` goes on to do: `pipeclose` with the end of the pipe, `iput`, or nothing.
pub data Closing : Type 0 where
  still_open nothing : Closing
  closes_pipe : (pipe : ℕ) → (writable : Bool) → Closing
  puts_inode : (ip : ℕ) → Closing

abbrev pub closing : FileType → File → Closing
closing fd_none f = nothing
closing fd_pipe f = closes_pipe f.pipe f.writable
closing fd_inode f = puts_inode f.ip
closing fd_device f = puts_inode f.ip

unfoldable pub fileclose : FileTable → ℕ → Option (Closing × FileTable)
fileclose t f = do
  guard (referenced (t f))
  if ltb 0 ((t f).ref - 1)
      then some (still_open, update t f (record (t f) { ref = (t f).ref - 1 }))
      else some (closing (t f).kind (t f), update t f (record (t f) { ref = 0; kind = fd_none }))
