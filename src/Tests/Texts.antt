-- ===== src/Tests/Texts.antt =====
-- Numbers and letters.
use cpp_sockets_library.Prelude.{◌≡◌, some, [], ◌∷◌, Bytes, All, IsByte, arith}
use cpp_sockets_library.Prelude.Int.{}
use cpp_sockets_library.Utility.Numbers.{bigint2string, atoi64}
use cpp_sockets_library.Utility.Numbers.Decimal.{atoi64-bigint2string}
use cpp_sockets_library.Utility.Letters.{}

atoi64-bigint2string_example : (s : Bytes) × (bigint2string 1024 ≡ some s) × (atoi64 s ≡ 1024)
atoi64-bigint2string_example = atoi64-bigint2string 1024 (omega arith)

-- "Aé" in Latin-1
abbrev latin : Bytes
latin = b'A' ∷ 0xe9 ∷ []

latin-IsByte : All IsByte latin
latin-IsByte = (omega arith, (omega arith, tt))

abbrev address : Bytes
address = b'1' ∷ b'.' ∷ b'2' ∷ b'.' ∷ b'3' ∷ b'.' ∷ b'4' ∷ []
