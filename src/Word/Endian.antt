-- ===== src/Word/Endian.antt =====
-- src/endian.h: byte order, by the portable expressions that the compiler's intrinsics stand for.
use libbinrec.Common.{ℕ, ◌*◌, ◌/◌, ◌%◌, ◌^◌, bit_and, bit_or, Bool, if◌then◌else◌}
use libbinrec.Word.{u32, u64}

unfoldable pub bswap16 : ℕ → ℕ
bswap16 x = bit_or (x / 2 ^ 8) (x * 2 ^ 8) % 2 ^ 16

unfoldable pub bswap32 : ℕ → ℕ
bswap32 x =
    bit_or
      (bit_or (bit_or (x / 2 ^ 24) (bit_and (x / 2 ^ 8) 0xFF00)) (u32 (bit_and x 0xFF00 * 2 ^ 8)))
      (u32 (x * 2 ^ 24))

unfoldable pub bswap64 : ℕ → ℕ
bswap64 x =
    bit_or
      (bit_or
        (bit_or
          (bit_or
            (bit_or
              (bit_or (bit_or (x / 2 ^ 56) (bit_and (x / 2 ^ 40) 0xFF00))
                (bit_and (x / 2 ^ 24) 0xFF0000))
              (bit_and (x / 2 ^ 8) 0xFF000000))
            (u64 (bit_and x 0xFF000000 * 2 ^ 8)))
          (u64 (bit_and x 0xFF0000 * 2 ^ 24)))
        (u64 (bit_and x 0xFF00 * 2 ^ 40)))
      (u64 (x * 2 ^ 56))

-- The native byte order, is_little_endian(), is the argument `little`.
unfoldable pub bswap_be16 : Bool → ℕ → ℕ
bswap_be16 little x = if little then bswap16 x else x

unfoldable pub bswap_be32 : Bool → ℕ → ℕ
bswap_be32 little x = if little then bswap32 x else x

unfoldable pub bswap_be64 : Bool → ℕ → ℕ
bswap_be64 little x = if little then bswap64 x else x

unfoldable pub bswap_le16 : Bool → ℕ → ℕ
bswap_le16 little x = if little then x else bswap16 x

unfoldable pub bswap_le32 : Bool → ℕ → ℕ
bswap_le32 little x = if little then x else bswap32 x

unfoldable pub bswap_le64 : Bool → ℕ → ℕ
bswap_le64 little x = if little then x else bswap64 x
