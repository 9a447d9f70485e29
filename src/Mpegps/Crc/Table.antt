-- ===== src/Mpegps/Crc/Table.antt =====
-- gb28181/mpegps/util.go: crc32table against division by the polynomial of ISO/IEC 13818-1.
use lalmax.Base.{
  holds_below, holds_below-at, ℕ, ◌+◌, ◌%◌, ◌*◌, ◌^◌, ◌<◌, ◌≡◌, refl, bit_xor, Bool, true, get_or,
  leb, ◌==◌, ==_iff, if◌then◌else◌, shl, shr,
}
use lalmax.Mpegps.Crc.{crc32table}

-- One bit of the division by x^32 + 0x04C11DB7.
abbrev divide_bit : ℕ → ℕ
divide_bit c = if leb 0x80000000 c then bit_xor (c * 2 % 2 ^ 32) 0x04C11DB7 else c * 2 % 2 ^ 32

abbrev swap_bytes : ℕ → ℕ
swap_bytes c =
    c % 256 * 0x1000000 + shr c 8 % 256 * 0x10000 + shr c 16 % 256 * 0x100 + shr c 24 % 256

-- The remainder of the byte i followed by 32 zero bits, least significant byte first.
unfoldable pub remainder : ℕ → ℕ
remainder i = swap_bytes (
    divide_bit (
      divide_bit
        (divide_bit (divide_bit (divide_bit (divide_bit (divide_bit (divide_bit (shl i 24)))))))))

agrees : ℕ → Bool
unfolding crc32table remainder
agrees i = get_or crc32table i 0 == remainder i

all_agree : holds_below 256 agrees ≡ true
unfolding holds_below agrees
all_agree = refl

-- For i below 256, entry i of the table is the remainder of i, followed by 32 zero bits, by the
-- polynomial, least significant byte first.
pub crc32table-remainder : (i : ℕ) → i < 256 → get_or crc32table i 0 ≡ remainder i
unfolding agrees
crc32table-remainder i h = (==_iff _ _).0 (holds_below-at 256 agrees i all_agree h)
