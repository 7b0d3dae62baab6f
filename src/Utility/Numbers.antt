-- ===== src/Utility/Numbers.antt =====
-- Utility::bigint2string, atoi64 and hex2unsigned of src/Utility.cpp.
pub mod Decimal
use cpp_sockets_library.Prelude.{
  ℕ, zero, suc, ◌+◌, ◌-◌, ◌*◌, ◌/◌, ◌%◌, ◌^◌, ◌&&◌, Option, none, some, [], ◌∷◌, ltb, leb, ◌==◌,
  if◌then◌else◌, Bytes,
}
use cpp_sockets_library.Prelude.Int.{ℤ, pos, negsuc}

-- `while (tmp) { …; str = (char)(a + 48) + str; tmp /= 10; }` on fuel.
pub digits_loop : ℕ → ℕ → Bytes → Option Bytes
digits_loop zero tmp str = none
digits_loop (suc fuel) tmp str =
    let rest = digits_loop fuel (tmp / 10) ((tmp % 10 + 48) ∷ str) in
    if tmp == 0 then some str else rest

-- `if (!str.size()) str = "0";`
pub or_zero : Option Bytes → Option Bytes
or_zero none = none
or_zero (some []) = some (b'0' ∷ [])
or_zero (some (c ∷ s)) = some (c ∷ s)

-- bigint2string(uint64_t): a number below 2 ^ 64 has at most 20 digits.
pub bigint2string : ℕ → Option Bytes
unfolding digits_loop or_zero
bigint2string l = or_zero (digits_loop 21 l [])

-- bigint2string(int64_t), where -l is the absolute value.
pub bigint2string_signed : ℤ → Option Bytes
unfolding digits_loop or_zero
bigint2string_signed (pos n) = or_zero (digits_loop 21 n [])
bigint2string_signed (negsuc n) = or_zero (digits_loop 21 (suc n) (b'-' ∷ []))

-- A char, which is signed, as a word of `m` values.
unfoldable pub char_word : ℕ → ℕ → ℕ
char_word m c = if ltb c 128 then c else c + m - 256

pub atoi64_loop : ℕ → Bytes → ℕ
unfolding char_word
atoi64_loop l [] = l
atoi64_loop l (c ∷ s) = atoi64_loop ((l * 10 + char_word (2 ^ 64) c + (2 ^ 64 - 48)) % 2 ^ 64) s

pub atoi64 : Bytes → ℕ
unfolding atoi64_loop
atoi64 s = atoi64_loop 0 s

-- `((c >= 'A') ? 7 : 0) + ((c >= 'a') ? 32 : 0)` on a signed char
unfoldable pub letter_offset : ℕ → ℕ
letter_offset c =
    (if leb b'A' c && ltb c 128 then 7 else 0) + (if leb b'a' c && ltb c 128 then 32 else 0)

unfoldable pub hex_loop : ℕ → Bytes → ℕ
unfolding char_word letter_offset
hex_loop r [] = r
hex_loop r (c ∷ s) =
    hex_loop ((r * 16 + char_word (2 ^ 32) c + (2 ^ 32 - 48) + (2 ^ 32 - letter_offset c)) % 2 ^ 32)
      s

unfoldable pub hex2unsigned : Bytes → ℕ
unfolding hex_loop
hex2unsigned s = hex_loop 0 s
