-- ===== src/Base64.antt =====
-- src/Base64.cpp. A char is its byte, 0 to 255. A read outside a string or outside the table
-- `rstr` is a fault, `none`; the end of a std::string reads as 0.
pub mod Sextets
pub mod RoundTrip
pub mod Variants
use Prim.Native.Nat.{bit_and}
use cpp_sockets_library.Prelude.{
  ◌>>=◌, ℕ, zero, suc, ◌+◌, ◌-◌, ◌*◌, ◌/◌, ◌%◌, Bool, true, false, not, ◌&&◌, ◌||◌, Option, none,
  some, List, [], ◌∷◌, ◌++◌, ltb, leb, ◌==◌, if◌then◌else◌, Bytes, length, drop, get_elem?,
}
use cpp_sockets_library.Prelude.Text.{codes}

pub bstr : Bytes
bstr = codes "ABCDEFGHIJKLMNOPQRSTUVWXYZabcdefghijklmnopqrstuvwxyz0123456789+/"

pub zeros : ℕ → Bytes
zeros zero = []
zeros (suc n) = 0 ∷ zeros n

-- n, n + 1, …, `k` numbers
pub upwards : ℕ → ℕ → Bytes
upwards zero n = []
upwards (suc k) n = n ∷ upwards k (n + 1)

pub rstr : Bytes
unfolding zeros upwards
rstr =
    zeros 43
    ++ (62
        ∷ (zeros 3
            ++ (63
                ∷ (upwards 10 52
                    ++ (zeros 7 ++ (upwards 26 0 ++ (zeros 6 ++ (upwards 26 26 ++ zeros 5))))))))

-- bstr[k]; every index of the encoder is below 64.
pub digit : ℕ → ℕ
unfolding bstr
digit k = elim (get_elem? bstr k) [ none ↦ 0 | some c ↦ c ]

-- rstr[(int)c]; a char from 128 on is a negative index.
pub value : ℕ → Option ℕ
unfolding rstr
value c = get_elem? rstr c

-- `if (add_crlf && o && o % 76 == 0) output += "\n";`
pub break_line : Bool → ℕ → Bytes → Bytes
break_line add_crlf o out =
    if add_crlf && not (o == 0) && o % 76 == 0 then out ++ (b'\n' ∷ []) else out

pub quad1 : ℕ → Bytes
quad1 a = digit (bit_and (a / 4) 0x3f) ∷ digit (bit_and (a * 16) 0x30) ∷ b'=' ∷ b'=' ∷ []

pub quad2 : ℕ → ℕ → Bytes
quad2 a b =
    digit (bit_and (a / 4) 0x3f)
    ∷ digit (bit_and (a * 16) 0x30 + bit_and (b / 16) 0x0f)
    ∷ digit (bit_and (b * 4) 0x3c)
    ∷ b'='
    ∷ []

pub quad3 : ℕ → ℕ → ℕ → Bytes
quad3 a b c =
    digit (bit_and (a / 4) 0x3f)
    ∷ digit (bit_and (a * 16) 0x30 + bit_and (b / 16) 0x0f)
    ∷ digit (bit_and (b * 4) 0x3c + bit_and (c / 64) 0x03)
    ∷ digit (bit_and c 0x3f)
    ∷ []

-- The loop of encode(const char *, …) on the input from `i` on.
pub encode_loop : Bool → ℕ → Bytes → Bytes → Bytes
encode_loop add_crlf o out [] = out
encode_loop add_crlf o out (a ∷ []) = break_line add_crlf o out ++ quad1 a
encode_loop add_crlf o out (a ∷ b ∷ []) = break_line add_crlf o out ++ quad2 a b
encode_loop add_crlf o out (a ∷ b ∷ c ∷ s) =
    encode_loop add_crlf (o + 4) (break_line add_crlf o out ++ quad3 a b c) s

-- encode on a std::string, a char array or an unsigned char array.
pub encode : Bool → Bytes → Bytes
encode add_crlf s = encode_loop add_crlf 0 [] s

-- What one round of encode(IFile *, …) appends for a read of one to three bytes.
pub quad_of : Bytes → Bytes
quad_of (a ∷ b ∷ c ∷ s) = quad3 a b c
quad_of (a ∷ b ∷ []) = quad2 a b
quad_of (a ∷ []) = quad1 a
quad_of [] = []

-- encode(IFile *, …) and encode(FILE *, …) on what the calls of fread(input, 1, 3) return; an empty read ends it.
pub encode_reads : Bool → ℕ → Bytes → List Bytes → Bytes
encode_reads add_crlf o out [] = out
encode_reads add_crlf o out ([] ∷ reads) = out
encode_reads add_crlf o out ((a ∷ s) ∷ reads) =
    encode_reads add_crlf (o + 4) (break_line add_crlf o out ++ quad_of (a ∷ s)) reads

-- input[k] of a std::string whose rest is `s`.
pub char_at : Bytes → ℕ → Option ℕ
char_at [] zero = some 0
char_at [] (suc k) = none
char_at (c ∷ s) zero = some c
char_at (c ∷ s) (suc k) = char_at s k

pub is_newline : ℕ → Bool
is_newline c = c == 13 || c == 10

pub skip_newlines : Bytes → Bytes
skip_newlines [] = []
skip_newlines (c ∷ s) = let rest = skip_newlines s in if is_newline c then rest else c ∷ s

pub byte1 : ℕ → ℕ → ℕ
byte1 x y = (bit_and (x * 4) 0xfc + bit_and (y / 16) 0x03) % 256

pub byte2 : ℕ → ℕ → ℕ
byte2 y z = (bit_and (y * 16) 0xf0 + bit_and (z / 4) 0x0f) % 256

pub byte3 : ℕ → ℕ → ℕ
byte3 z w = (bit_and (z * 64) 0xc0 + w) % 256

-- The body of the decoder's `if (i < l)`: the bytes that four characters give.
pub decode_quad : Bytes → Option Bytes
decode_quad s = do
  c0 ← char_at s 0
  x ← value c0
  c1 ← char_at s 1
  y ← value c1
  c2 ← char_at s 2
  second ← if c2 == b'=' then some [] else (do z ← value c2; some (byte2 y z ∷ []))
  c3 ← char_at s 3
  third ← if c3 == b'=' then some [] else (do z ← value c2; w ← value c3; some (byte3 z w ∷ []))
  some (byte1 x y ∷ (second ++ third))

-- decode(input, output); the fuel is a round for each character and one more.
pub decode_loop : ℕ → Bytes → Bytes → Option Bytes
decode_loop zero s out = none
decode_loop (suc fuel) s out = elim (skip_newlines s) [
  | [] ↦ some out
  | c ∷ t ↦ do q ← decode_quad (c ∷ t); decode_loop fuel (drop 4 (c ∷ t)) (out ++ q)
]

pub decode : Bytes → Option Bytes
decode s = decode_loop (length s + 1) s []

-- decode(input, output, sz): the bytes stored, when `output` is not NULL, and `sz`.
pub decode_to_loop : Bool → ℕ → Bytes → Bytes → ℕ → Option (Bytes × ℕ)
decode_to_loop stores zero s out j = none
decode_to_loop stores (suc fuel) s out j = elim (skip_newlines s) [
  | [] ↦ some (out, j)
  | c ∷ t ↦ do
    q ← decode_quad (c ∷ t)
    decode_to_loop stores fuel (drop 4 (c ∷ t)) (if stores then out ++ q else out) (j + length q)
]

pub decode_to : Bool → Bytes → Option (Bytes × ℕ)
decode_to stores s = decode_to_loop stores (length s + 1) s [] 0

-- decode_length(str64)
pub decode_length : Bytes → Option ℕ
unfolding char_at
decode_length s = if length s == 0 || not (length s % 4 == 0) then some 0 else (do
  let l = 3 * (length s / 4 - 1) + 1
  c ← char_at s (length s - 2)
  let l' = (if c == b'=' then l else l + 1)
  d ← char_at s (length s - 1)
  some (if d == b'=' then l' else l' + 1))
