-- ===== src/Bcache.antt =====
-- kernel/bio.c: the buffer cache. A buffer is its index in `bcache.buf`, and the head of the list has the index
-- behind the last. The sleeplock and the data of a buffer are not part of it: `bget` ends before it waits for
-- the buffer's lock.
pub mod Ring
pub mod Links
pub mod Get
pub mod Init
pub mod Release
mod Tests
use learn_os.Base.{
  ℕ, zero, suc, ◌+◌, ◌-◌, ◌%◌, ◌^◌, Bool, true, false, Option, none, some, ◌==◌, ◌&&◌, not, update,
  if◌then◌else◌,
}

abbrev pub nbuf : ℕ
nbuf = 30

abbrev pub head : ℕ
head = nbuf

-- `struct buf`
pub record Buf : Type 0 where
  pub valid : Bool
  pub dev : ℕ
  pub blockno : ℕ
  pub refcnt : ℕ

-- `bcache`, with the pointers of each buffer and of the head.
pub record Bcache : Type 0 where
  pub buf : ℕ → Buf
  pub prev : ℕ → ℕ
  pub next : ℕ → ℕ

-- Buffer `b` becomes the first of the list.
unfoldable pub push_front : (b : ℕ) → Bcache → Bcache
push_front b c =
    let next = update c.next b (c.next head) in
    let prev = update c.prev b head in
    record c { prev = update prev (next head) b; next = update next head b }

unfoldable pub binit_loop : (left b : ℕ) → Bcache → Bcache
binit_loop zero b c = c
binit_loop (suc left) b c = binit_loop left (b + 1) (push_front b c)

unfoldable pub binit : Bcache → Bcache
binit c =
    binit_loop nbuf 0 (record c { prev = update c.prev head head; next = update c.next head head })

-- The loops of `bget`, through the pointers `next` or `prev`: the first buffer from `b` on that passes the test,
-- or `none` at the head; and `none` at the end of the rounds.
unfoldable pub scan_buffers :
    (left : ℕ) (next : ℕ → ℕ) (test : ℕ → Bool) (b : ℕ) → Option (Option ℕ)
scan_buffers zero next test b = none
scan_buffers (suc left) next test b =
    let rest = scan_buffers left next test (next b) in
    if b == head then some none else if test b then some (some b) else rest

pub data BgetResult : Type 0 where
  out_of_rounds : BgetResult
  panics : BgetResult
  got : ℕ → Bcache → BgetResult

abbrev pub is_block : (dev blockno : ℕ) → Bcache → ℕ → Bool
is_block dev blockno c b = (c.buf b).dev == dev && (c.buf b).blockno == blockno

abbrev pub is_free : Bcache → ℕ → Bool
is_free c b = (c.buf b).refcnt == 0

abbrev pub counted_up : ℕ → Bcache → Bcache
counted_up b c = record c {
  buf = update c.buf b (record (c.buf b) { refcnt = ((c.buf b).refcnt + 1) % 2 ^ 32 });
}

-- A reference count of 0 goes down to the largest number.
abbrev pub counted_down : ℕ → Bcache → Bcache
counted_down b c = record c {
  buf = update c.buf b (record (c.buf b) { refcnt = ((c.buf b).refcnt + (2 ^ 32 - 1)) % 2 ^ 32 });
}

unfoldable pub recycle : (dev blockno : ℕ) → Option (Option ℕ) → Bcache → BgetResult
recycle dev blockno none c = BgetResult.out_of_rounds
recycle dev blockno (some none) c = BgetResult.panics
recycle dev blockno (some (some b)) c = BgetResult.got b (record c {
  buf = update c.buf b (record { valid = false; dev = dev; blockno = blockno; refcnt = 1 });
})

abbrev pub cached_or : BgetResult → Option (Option ℕ) → Bcache → BgetResult
cached_or other none c = BgetResult.out_of_rounds
cached_or other (some none) c = other
cached_or other (some (some b)) c = BgetResult.got b (counted_up b c)

unfoldable pub bget : (left dev blockno : ℕ) → Bcache → BgetResult
bget left dev blockno c =
    cached_or (recycle dev blockno (scan_buffers left c.prev (is_free c) (c.prev head)) c)
      (scan_buffers left c.next (is_block dev blockno c) (c.next head)) c

unfoldable pub unlink : (b : ℕ) → Bcache → Bcache
unlink b c =
    let prev = update c.prev (c.next b) (c.prev b) in
    record c { prev = prev; next = update c.next (prev b) (c.next b) }

-- `holding` is whether the process holds the lock of the buffer.
unfoldable pub brelse : (holding : Bool) (b : ℕ) → Bcache → Option Bcache
brelse holding b c =
    let c' = counted_down b c in
    if not holding
    then none
    else if (c'.buf b).refcnt == 0
    then some (push_front b (unlink b c'))
    else some c'

unfoldable pub bpin : ℕ → Bcache → Bcache
bpin b c = counted_up b c

unfoldable pub bunpin : ℕ → Bcache → Bcache
bunpin b c = counted_down b c
