-- ===== src/Buddy/Layout.antt =====
-- kernel/kalloc.c, kernel/memlayout.h, kernel/riscv.h: the constants of the page allocator, the
-- addresses that the linker chooses, and the conversions between page numbers and addresses.
use learn_os.Base.{
  ℕ, ◌+◌, ◌-◌, ◌*◌, ◌/◌, ◌^◌, ◌≤◌, ◌<◌, ◌%◌, ◌≡◌, Option, none, some, ltb, leb, if◌then◌else◌,
  arith,
}

-- `PGSIZE`
abbrev pub pgsize : ℕ
pgsize = 4096

-- `KERNBASE`
abbrev pub kernbase : ℕ
kernbase = 0x8000_0000

-- `PHYSTOP`
abbrev pub phystop : ℕ
phystop = kernbase + 128 * 1024 * 1024

-- `MAX_ORDER`
abbrev pub max_order : ℕ
max_order = 11

-- `PGROUNDUP` on a number below 2^64 - 4096
abbrev pub pgroundup : ℕ → ℕ
pgroundup sz = (sz + pgsize - 1) / pgsize * pgsize

-- Two addresses that the linker chooses: `end`, and that of the array `buddy.freelist_page`, whose
-- elements are two pointers long.
pub record Linker : Type 0 where
  pub kernel_end : ℕ
  pub freelist_page : ℕ

-- The array lies in the kernel's image, and the image in the first 64 MB of memory.
pub record IsLinked (l : Linker) : Type 0 where
  pub above : kernbase < l.freelist_page
  pub inside : l.freelist_page + 16 * (max_order + 1) ≤ l.kernel_end
  pub below : l.kernel_end ≤ kernbase + 64 * 1024 * 1024

module _ (l : Linker) where
  -- `buddy.start`, as `buddy_init` sets it
  abbrev pub start : ℕ
  start = pgroundup l.kernel_end

  -- `pnum_max`, as `buddy_init` sets it
  abbrev pub pnum_max : ℕ
  pnum_max = (phystop - start) / pgsize

  -- `&buddy.freelist_page[order]`
  abbrev pub head : ℕ → ℕ
  head order = l.freelist_page + 16 * order

  -- The address of a page, as `pnum_to_pa` computes it.
  abbrev pub page : ℕ → ℕ
  page pnum = start + pnum * pgsize

  unfoldable pub pnum_to_pa : ℕ → Option ℕ
  pnum_to_pa pnum = if leb pnum_max pnum then none else some (page pnum)

  -- The difference of two pointers is signed: below `start` it is negative, is divided towards
  -- zero, and becomes a `uint64`.
  unfoldable pub pa_to_pnum : ℕ → Option ℕ
  pa_to_pnum pa =
      if leb phystop pa
      then none
      else if ltb pa start
      then some ((2 ^ 64 - (start - pa) / pgsize) % 2 ^ 64)
      else some ((pa - start) / pgsize)

  pub pnum_to_pa-eq : {n : ℕ} → n < pnum_max → pnum_to_pa n ≡ some (page n)
  unfolding pnum_to_pa
  pnum_to_pa-eq h = ground arith

  -- Page numbers and page addresses are converted into one another without loss.
  pub pa_to_pnum-page : {n : ℕ} → n < pnum_max → pa_to_pnum (page n) ≡ some n
  unfolding pa_to_pnum
  pa_to_pnum-page h = ground arith

  -- There are fewer than 2^15 pages, and no arithmetic on their addresses wraps.
  pub pnum_max-le : IsLinked l → pnum_max < 2 ^ 15
  pnum_max-le v = omega arith
