-- ===== src/Bcache/Tests.antt =====
-- Blocks in the cache.
use learn_os.Base.{ℕ, ◌≡◌, refl, arith, true, false}
use learn_os.Bcache.{
  Bcache, BgetResult, binit, binit_loop, push_front, scan_buffers, recycle, bget, nbuf,
}
use learn_os.Bcache.Ring.{IsCache}
use learn_os.Bcache.Get.{Gets, bget-Gets}
use learn_os.Bcache.Init.{down, binit-IsCache}
use learn_os.Bcache.Release.{Released, brelse-Released}

abbrev nothing_read : Bcache
nothing_read = record {
  buf = λ i. record { valid = false; dev = 0; blockno = 0; refcnt = 0 };
  prev = λ i. 0;
  next = λ i. 0;
}

abbrev buffer_of : BgetResult → ℕ
buffer_of BgetResult.out_of_rounds = 100
buffer_of BgetResult.panics = 200
buffer_of (BgetResult.got b c) = b

abbrev cache_of : BgetResult → Bcache
cache_of BgetResult.out_of_rounds = nothing_read
cache_of BgetResult.panics = nothing_read
cache_of (BgetResult.got b c) = c

-- The least recently used buffer is 0.
takes_oldest : buffer_of (bget 31 1 7 (binit nothing_read)) ≡ 0
unfolding bget scan_buffers recycle binit binit_loop push_front
takes_oldest = refl

finds_again : buffer_of (bget 31 1 7 (cache_of (bget 31 1 7 (binit nothing_read)))) ≡ 0
unfolding bget scan_buffers recycle binit binit_loop push_front
finds_again = refl

starts : IsCache (binit nothing_read) (down nbuf)
starts = binit-IsCache nothing_read (λ i. refl)

bget-Gets_example : Gets 1 7 (binit nothing_read) (down nbuf) (bget 31 1 7 (binit nothing_read))
bget-Gets_example = bget-Gets (binit nothing_read) (down nbuf) starts 1 7 31 (omega arith)

brelse-Released_example : Released true 3 (binit nothing_read) (down nbuf)
brelse-Released_example = brelse-Released true 3 (binit nothing_read) (down nbuf) starts refl
