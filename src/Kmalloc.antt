-- ===== src/Kmalloc.antt =====
-- kernel/kmalloc.c: which allocator serves a request of `kmalloc`, and which takes it back in `kmfree`.
pub mod Pools
mod Tests
use learn_os.Base.{
  ℕ, zero, suc, ◌+◌, ◌-◌, ◌/◌, ◌%◌, ◌^◌, Option, none, some, ltb, ◌>>=◌, if◌then◌else◌,
}
use learn_os.Buddy.Layout.{pgsize}

-- A slab cache, by the size of its objects (`g_slab_8` and so on), or blocks of an order.
pub data Pool : Type 0 where
  slab : ℕ → Pool
  buddy : ℕ → Pool

-- `uint pgnum = (sz + PGSIZE - 1) / PGSIZE` on a `uint64`
abbrev pub pgnum : ℕ → ℕ
pgnum sz = (sz + pgsize - 1) % 2 ^ 64 / pgsize % 2 ^ 32

-- The loop that both functions share, for at most the given number of rounds; `1U << order` is
-- undefined from order 32 on, which is `none`.
unfoldable pub order_loop : ℕ → ℕ → ℕ → Option ℕ
order_loop zero n order = none
order_loop (suc f) n order =
    let rest = order_loop f n (order + 1) in if ltb (2 ^ order) n then rest else some order

unfoldable pub order_of : ℕ → Option ℕ
unfolding order_loop
order_of n = order_loop 32 n 0

unfoldable pub kmalloc_pool : ℕ → Option Pool
kmalloc_pool sz =
    if ltb 2048 sz
    then (do order ← order_of (pgnum sz); some (buddy order))
    else if ltb 1024 sz
    then some (slab 2048)
    else if ltb 512 sz
    then some (slab 1024)
    else if ltb 256 sz
    then some (slab 512)
    else if ltb 128 sz
    then some (slab 256)
    else if ltb 64 sz
    then some (slab 128)
    else if ltb 32 sz
    then some (slab 64)
    else if ltb 16 sz
    then some (slab 32)
    else if ltb 8 sz
    then some (slab 16)
    else some (slab 8)

unfoldable pub kmfree_pool : ℕ → Option Pool
kmfree_pool sz =
    if ltb 1024 sz
    then (do order ← order_of (pgnum sz); some (buddy order))
    else if ltb 512 sz
    then some (slab 1024)
    else if ltb 256 sz
    then some (slab 512)
    else if ltb 128 sz
    then some (slab 256)
    else if ltb 64 sz
    then some (slab 128)
    else if ltb 32 sz
    then some (slab 64)
    else if ltb 16 sz
    then some (slab 32)
    else if ltb 8 sz
    then some (slab 16)
    else some (slab 8)
