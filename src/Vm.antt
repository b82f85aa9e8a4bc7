-- ===== src/Vm.antt =====
-- kernel/vm.c, with the macros of kernel/riscv.h: Sv39 page tables, from `walk` to `uvmdealloc`.
-- Memory is a function from addresses to the 64-bit words there, and a page table is the address of its
-- page. `kalloc` and `kfree` are an interface; what `kfree` fills a page with is not in the memory.
mod Words
mod Tables
mod Grow
mod Walk
mod Leaf
mod Map
mod Freed
mod Unmap
mod Undo
mod Tests
use learn_os.Base.{
  ℕ, zero, suc, ◌+◌, ◌-◌, ◌*◌, ◌/◌, ◌%◌, ◌^◌, Bool, true, false, not, Option, none, some, ltb, leb,
  ◌==◌, ◌&&◌, ◌>>=◌, ◌>>◌, guard, update, if◌then◌else◌,
}
use learn_os.Buddy.Layout.{pgsize, pgroundup}

abbrev pub maxva : ℕ
maxva = 2 ^ 38

-- `PA2PTE`, `PTE2PA`, `PTE_FLAGS` and `*pte & PTE_V`, `*pte & PTE_U`.
abbrev pub pa2pte : ℕ → ℕ
pa2pte pa = pa % 2 ^ 64 / 4096 * 1024 % 2 ^ 64

abbrev pub pte2pa : ℕ → ℕ
pte2pa pte = pte / 1024 * 4096 % 2 ^ 64

abbrev pub pte_flags : ℕ → ℕ
pte_flags pte = pte % 1024

abbrev pub is_valid : ℕ → Bool
is_valid pte = pte % 2 == 1

abbrev pub is_user : ℕ → Bool
is_user pte = pte / 16 % 2 == 1

abbrev pub px : (level va : ℕ) → ℕ
px level va = va / 2 ^ (12 + 9 * level) % 512

-- `&pagetable[PX(level, va)]`
abbrev pub slot : (pagetable level va : ℕ) → ℕ
slot pagetable level va = pagetable + 8 * px level va

-- `kalloc`, where 0 is NULL and `none` a fault, as that of `kalloc` without a free page, and `kfree`, which may
-- panic.
pub record PageAllocator (S : Type 0) : Type 0 where
  pub kalloc : S → Option (ℕ × S)
  pub kfree : ℕ → S → Option S

pub record Memory (S : Type 0) : Type 0 where
  pub mem : ℕ → ℕ
  pub heap : S

-- `memset(page, 0, PGSIZE)`
abbrev pub zeroed : (ℕ → ℕ) → (page : ℕ) → ℕ → ℕ
zeroed mem page a = if leb page a && ltb a (page + pgsize) then 0 else mem a

-- `PA2PTE(pa) | perm | PTE_V` for a `perm` below 1024, which shares no bit with the first.
abbrev pub leaf_pte : (pa perm : ℕ) → ℕ
leaf_pte pa perm = pa2pte pa + (perm / 2 * 2 + 1)

-- The memory once the new page is in the slot at `a`.
abbrev pub grown : {S : Type 0} → Memory S → (a page : ℕ) (heap : S) → Memory S
grown s a page heap = record { mem = update (zeroed s.mem page) a (pa2pte page + 1); heap = heap }

module _ {S : Type 0} (k : PageAllocator S) where
  -- The loop of `walk`, from `level` on, and its last line. The inner `none` is 0.
  unfoldable pub walk_loop :
      (level : ℕ) → (alloc : Bool) → Memory S → (pagetable va : ℕ) → Option (Option ℕ × Memory S)
  walk_loop zero alloc s pagetable va = some (some (slot pagetable 0 va), s)
  walk_loop (suc level) alloc s pagetable va =
      let a = slot pagetable (suc level) va in
      let down = walk_loop level alloc s (pte2pa (s.mem a)) va in
      if is_valid (s.mem a) then down else if not alloc then some (none, s) else (do
        r ← k.kalloc s.heap
        let made = walk_loop level alloc (grown s a r.0 r.1) r.0 va
        if r.0 == 0 then some (none, record s { heap = r.1 }) else made)

  -- A panic is `none`.
  unfoldable pub walk :
      Memory S → (pagetable va : ℕ) → (alloc : Bool) → Option (Option ℕ × Memory S)
  walk s pagetable va alloc = do guard (ltb va maxva); walk_loop 2 alloc s pagetable va

  -- What `walkaddr` does with the entry.
  unfoldable pub walkaddr_at : Memory S → Option ℕ → ℕ
  walkaddr_at s none = 0
  walkaddr_at s (some a) =
      if not (is_valid (s.mem a))
      then 0
      else if not (is_user (s.mem a))
      then 0
      else pte2pa (s.mem a)

  unfoldable pub walkaddr : Memory S → (pagetable va : ℕ) → Option ℕ
  unfolding walkaddr_at
  walkaddr s pagetable va =
      if leb maxva va
      then some 0
      else (do r ← walk s pagetable va false; some (walkaddr_at r.1 r.0))

  -- The body of the loop of `mappages` behind `walk`: `false` is -1.
  unfoldable pub map_at : Memory S → Option ℕ → (pa perm : ℕ) → Option (Bool × Memory S)
  map_at s none pa perm = some (false, s)
  map_at s (some a) pa perm = do
    guard (not (is_valid (s.mem a)))
    some (true, record s { mem = update s.mem a (leaf_pte pa perm) })

  -- The loop of `mappages`, with the number of pages that are left.
  unfoldable pub map_loop :
      (left : ℕ) → Memory S → (pagetable a pa perm : ℕ) → Option (Bool × Memory S)
  map_loop zero s pagetable a pa perm = some (true, s)
  map_loop (suc left) s pagetable a pa perm = do
    r ← walk s pagetable a true
    b ← map_at r.1 r.0 pa perm
    if b.0
        then map_loop left b.1 pagetable (a + pgsize) ((pa + pgsize) % 2 ^ 64) perm
        else some (false, b.1)

  unfoldable pub mappages : Memory S → (pagetable va size pa perm : ℕ) → Option (Bool × Memory S)
  mappages s pagetable va size pa perm = do
    guard (va % pgsize == 0)
    guard (size % pgsize == 0)
    guard (not (size == 0))
    map_loop (size / pgsize) s pagetable va pa perm

  -- The body of the loop of `uvmunmap` behind `walk`.
  unfoldable pub unmap_at : Memory S → Option ℕ → (do_free : Bool) → Option (Memory S)
  unmap_at s none do_free = some s
  unmap_at s (some a) do_free = if not (is_valid (s.mem a)) then some s else (do
    guard (not (pte_flags (s.mem a) == 1))
    heap ← if do_free then k.kfree (pte2pa (s.mem a)) s.heap else some s.heap
    some (record { mem = update s.mem a 0; heap = heap }))

  unfoldable pub unmap_loop :
      (left : ℕ) → Memory S → (pagetable a : ℕ) → (do_free : Bool) → Option (Memory S)
  unmap_loop zero s pagetable a do_free = some s
  unmap_loop (suc left) s pagetable a do_free = do
    r ← walk s pagetable a false
    s' ← unmap_at r.1 r.0 do_free
    unmap_loop left s' pagetable (a + pgsize) do_free

  unfoldable pub uvmunmap :
      Memory S → (pagetable va npages : ℕ) → (do_free : Bool) → Option (Memory S)
  uvmunmap s pagetable va npages do_free = do
    guard (va % pgsize == 0)
    unmap_loop npages s pagetable va do_free
