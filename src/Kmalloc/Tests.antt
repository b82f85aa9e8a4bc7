-- ===== src/Kmalloc/Tests.antt =====
-- The theorems about `kmalloc` and `kmfree` at concrete inputs.
use learn_os.Base.{◌*◌, ◌<◌, ◌≤◌, ◌≡◌, refl, some, ◌&&◌, arith, ltb, leb, if◌then◌else◌}
use learn_os.Kmalloc.{Pool, slab, buddy, kmalloc_pool, kmfree_pool, order_of}
use learn_os.Kmalloc.Pools.{capacity, kmalloc_pool-fits, kmfree_pool-kmalloc_pool}

kmalloc_pool-fits_example :
    (p : Pool) × (kmalloc_pool 10000 ≡ some p)
    × (10000 ≤ capacity p)
    × (4 < 10000 → capacity p < 2 * 10000)
kmalloc_pool-fits_example = kmalloc_pool-fits 10000 (omega arith) (omega arith)

kmfree_pool-kmalloc_pool_example :
    kmfree_pool 1500
    ≡ (if ltb 1024 1500 && leb 1500 2048 then some (buddy 0) else kmalloc_pool 1500)
kmfree_pool-kmalloc_pool_example = kmfree_pool-kmalloc_pool 1500

-- 1500 bytes come from the slab of 2048 bytes, and go back as a page of their own.
kmalloc_1500 : kmalloc_pool 1500 ≡ some (slab 2048)
unfolding kmalloc_pool
kmalloc_1500 = refl

kmfree_1500 : kmfree_pool 1500 ≡ some (buddy 0)
unfolding kmfree_pool order_of
kmfree_1500 = refl
