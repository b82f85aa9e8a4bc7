-- ===== src/Buddy/Bitmap.antt =====
-- kernel/kalloc.c: `buddy.bitmap_page`, one bit for each block of each order, 1 for "not free".
-- The bitmap is a function from byte offsets to bytes.
pub mod Bytes
pub mod Places
pub mod Laws
use learn_os.Base.{
  ℕ, ◌+◌, ◌-◌, ◌/◌, ◌%◌, ◌^◌, Bool, Option, some, List, [], ◌∷◌, get_or, ◌==◌, ◌>>=◌, ◌>>◌, guard,
  not, update, bit_and, bit_or, if◌then◌else◌,
}

abbrev pub Bitmap : Type 0
Bitmap = ℕ → ℕ

-- `buddy_bitmap_offset`
abbrev pub bitmap_offsets : List ℕ
bitmap_offsets =
    0x0000 ∷ 0x1000 ∷ 0x1800 ∷ 0x1c00 ∷ 0x1e00 ∷ 0x1f00 ∷ 0x1f80 ∷ 0x1fc0 ∷ 0x1fe0 ∷ 0x1ff0 ∷ 0x1ff8
    ∷ 0x1ffc ∷ 0x1ffe ∷ []

-- No caller passes an order above 12, where C leaves the read undefined.
unfoldable pub bitmap_offset : ℕ → ℕ
bitmap_offset order = get_or bitmap_offsets order 0

-- the byte and the bit in it of a block
abbrev pub byte_of : ℕ → ℕ → ℕ
byte_of pnum order = bitmap_offset order + pnum / 2 ^ order / 8

abbrev pub bit_of : ℕ → ℕ → ℕ
bit_of pnum order = pnum / 2 ^ order % 8

-- `b |= mask` and `b &= ~mask` on a byte, for `mask = 1 << k`
abbrev pub set_bit : ℕ → ℕ → ℕ
set_bit b k = bit_or b (2 ^ k)

abbrev pub clear_bit : ℕ → ℕ → ℕ
clear_bit b k = bit_and b (255 - 2 ^ k)

-- `pnum & ((1 << order) - 1)` is 0
abbrev pub aligned : ℕ → ℕ → Bool
aligned pnum order = pnum % 2 ^ order == 0

unfoldable pub setbitmap : Bitmap → ℕ → ℕ → Bool → Option Bitmap
setbitmap m pnum order flag = do
  guard (aligned pnum order)
  let i = byte_of pnum order
  let k = bit_of pnum order
  some (update m i (if flag then set_bit (m i) k else clear_bit (m i) k))

unfoldable pub getbitmap : Bitmap → ℕ → ℕ → Option ℕ
getbitmap m pnum order = do
  guard (aligned pnum order)
  some (bit_and (m (byte_of pnum order)) (2 ^ bit_of pnum order))

-- `buddy_init_bitmap` writes 255 to all 2 * PGSIZE bytes.
abbrev pub init_bitmap : Bitmap
init_bitmap i = 255
