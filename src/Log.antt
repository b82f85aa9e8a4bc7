-- ===== src/Log.antt =====
-- kernel/log.c: the redo log of the file system.
-- A block is its 32-bit words. What `bread` returns is `cache`, the contents that the buffer cache has
-- for a block or would read from the disk; an operation returns the blocks that it hands to `bwrite`, in
-- order, so that a crash is a prefix of them. Pins and locks of buffers are kernel/bio.c's.
pub mod Install
pub mod Phases
pub mod Recover
pub mod Commit
pub mod Reserve
mod Tests
use learn_os.Base.{
  ℕ, zero, suc, ◌+◌, ◌-◌, ◌*◌, Bool, true, false, Option, none, some, List, [], ◌∷◌, ◌++◌, ltb, leb,
  ◌==◌, ◌&&◌, ◌%◌, ◌^◌, ◌>>=◌, ◌>>◌, guard, not, update, if◌then◌else◌,
}

abbrev pub max_op_blocks : ℕ
max_op_blocks = 10

abbrev pub log_size : ℕ
log_size = 30

abbrev pub Block : Type 0
Block = ℕ → ℕ

-- A disk, or the buffer cache.
abbrev pub Blocks : Type 0
Blocks = ℕ → Block

-- `struct log`, with the header `lh` in its last two fields.
pub record Log : Type 0 where
  pub start : ℕ
  pub size : ℕ
  pub outstanding : ℕ
  pub committing : Bool
  pub n : ℕ
  pub block : ℕ → ℕ

-- The blocks that an operation has written to disk, and what it leaves in the cache.
abbrev pub Written : Type 0
Written = List (ℕ × Block) × Blocks

abbrev pub write_all : List (ℕ × Block) → Blocks → Blocks
write_all [] d = d
write_all ((b, x) ∷ ws) d = write_all ws (update d b x)

module _ (l : Log) where
  -- The loop of `install_trans` from `tail` on.
  unfoldable pub install_loop : (left : ℕ) → Blocks → (tail : ℕ) → Written
  install_loop zero c tail = ([], c)
  install_loop (suc left) c tail =
      let dst = l.block tail in
      let c' = update c dst (c (l.start + tail + 1)) in
      let rest = install_loop left c' (tail + 1) in ((dst, c (l.start + tail + 1)) ∷ rest.0, rest.1)

  unfoldable pub install_trans : Blocks → Written
  install_trans c = install_loop l.n c 0

  -- The loop of `write_log` from `tail` on.
  unfoldable pub write_log_loop : (left : ℕ) → Blocks → (tail : ℕ) → Written
  write_log_loop zero c tail = ([], c)
  write_log_loop (suc left) c tail =
      let to = l.start + tail + 1 in
      let c' = update c to (c (l.block tail)) in
      let rest = write_log_loop left c' (tail + 1) in ((to, c (l.block tail)) ∷ rest.0, rest.1)

  unfoldable pub write_log : Blocks → Written
  write_log c = write_log_loop l.n c 0

-- `hb->n` is the first word of the block and `hb->block[i]` the word `i + 1`; words behind the last block
-- number stay as they are.
unfoldable pub header : Log → Block → Block
header l old zero = l.n
header l old (suc i) = if ltb i l.n then l.block i else old (suc i)

unfoldable pub write_head : Log → Blocks → Written
write_head l c = let h = header l (c l.start) in ((l.start, h) ∷ [], update c l.start h)

-- In the header on disk the number of blocks is that of the first word.
unfoldable pub read_head : Log → Blocks → Log
read_head l c = record l {
  n = c l.start 0;
  block = λ i. if ltb i (c l.start 0) then c l.start (suc i) else l.block i;
}

-- One operation after the other, on the cache that the first leaves.
abbrev pub and_then : Written → (Blocks → Written) → Written
and_then w next = (w.0 ++ (next w.1).0, (next w.1).1)

unfoldable pub recover_from_log : Log → Blocks → Written × Log
recover_from_log l c =
    let l' = read_head l c in
    let cleared = record l' { n = 0 } in
    (and_then (install_trans l' c) (write_head cleared), cleared)

unfoldable pub commit : Log → Blocks → Written × Log
commit l c =
    if ltb 0 l.n
    then (let cleared = record l { n = 0 } in
        (
          and_then (and_then (and_then (write_log l c) (write_head l)) (install_trans l))
              (write_head cleared),
          cleared,
        ))
    else (([], c), l)

-- `begin_op`, from the lock to the next wait: `none` is a sleep on the log, after which it begins anew.
unfoldable pub begin_op : Log → Option Log
begin_op l =
    if l.committing
    then none
    else if ltb log_size (l.n + (l.outstanding + 1) * max_op_blocks)
    then none
    else some (record l { outstanding = l.outstanding + 1 })

-- `end_op` up to its first release, with `do_commit`; `outstanding` is a 32-bit integer.
unfoldable pub end_op_begin : Log → Option (Bool × Log)
end_op_begin l =
    let o = (l.outstanding + (2 ^ 32 - 1)) % 2 ^ 32 in
    if l.committing
    then none
    else if o == 0
    then some (true, record l { outstanding = o; committing = true })
    else some (false, record l { outstanding = o })

unfoldable pub end_op : Log → Blocks → Option (Written × Log)
end_op l c = do
  begun ← end_op_begin l
  if begun.0
      then (let r = commit begun.1 c in some (r.0, record r.1 { committing = false }))
      else some (([], c), begun.1)

-- The loop of `log_write`: the index of the block number, or `n`.
unfoldable pub find_block : (left : ℕ) → Log → (blockno i : ℕ) → ℕ
find_block zero l blockno i = i
find_block (suc left) l blockno i =
    let rest = find_block left l blockno (i + 1) in if l.block i == blockno then i else rest

-- The Boolean says whether the buffer was pinned.
unfoldable pub log_write : Log → (blockno : ℕ) → Option (Bool × Log)
log_write l blockno = do
  guard (ltb l.n log_size && ltb l.n (l.size - 1))
  guard (leb 1 l.outstanding && ltb l.outstanding (2 ^ 31))
  let i = find_block l.n l blockno 0
  let l' = record l { block = update l.block i blockno }
  if i == l.n then some (true, record l' { n = l.n + 1 }) else some (false, l')
