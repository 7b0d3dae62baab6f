-- ===== src/Json/Token.antt =====
-- Json::Token of src/Json.cpp. The buffer from the index on is a list of bytes with the zero that
-- ends it left off; where the index moves behind that zero, nothing of the buffer is left, `none`.
pub mod Plain
pub mod Quoted
use cpp_sockets_library.Prelude.{
  ℕ, Bool, true, false, not, ◌&&◌, ◌||◌, Option, none, some, [], ◌∷◌, leb, ◌==◌, if◌then◌else◌,
  Bytes,
}
use cpp_sockets_library.Prelude.Text.{codes}
use cpp_sockets_library.Json.{decode}

-- The token's type and text, with the value of m_b_value for a Boolean; `character` is any other
-- char, which Token returns itself, and 0 at the end of the buffer.
pub data Token : Type 0 where
  real integer string : Bytes → Token
  unknown : Token
  boolean : Bool → Token
  character : ℕ → Token

pub is_space : ℕ → Bool
is_space c = c == b' ' || c == 9 || c == 13 || c == 10

pub skip_spaces : Bytes → Bytes
skip_spaces [] = []
skip_spaces (c ∷ s) = let rest = skip_spaces s in if is_space c then rest else c ∷ s

unfoldable pub isdigit : ℕ → Bool
isdigit c = leb b'0' c && leb c b'9'

-- `while (isdigit(C) || C == '.')`: the chars passed, whether one was a dot, and the rest.
pub number_span : Bytes → Bytes × Bool × Bytes
number_span [] = ([], false, [])
number_span (c ∷ s) =
    let (n, dot, rest) = number_span s in
    if isdigit c || c == b'.' then (c ∷ n, dot || c == b'.', rest) else ([], false, c ∷ s)

pub number : Bytes × Bool × Bytes → Token × Option Bytes
number (n, true, rest) = (real n, some rest)
number (n, false, rest) = (integer n, some rest)

-- `while (C && (ign || C != 34))` and the `++index` behind it: the chars passed, and the rest.
pub string_span : Bool → Bytes → Bytes × Option Bytes
string_span ign [] = ([], none)
string_span ign (c ∷ s) =
    let (taken, rest) = string_span (not ign && c == b'\\') s in
    if c == 0 || (not ign && c == b'"') then ([], some s) else (c ∷ taken, rest)

-- `!strncmp(&buffer[index], word, |word|)`, and the buffer behind the word.
pub strip : Bytes → Bytes → Option Bytes
strip [] s = some s
strip (x ∷ w) [] = none
strip (x ∷ w) (c ∷ s) = let rest = strip w s in if c == x then rest else none

-- The tests behind those for numbers and strings.
pub word_or_char : Bytes → Token × Option Bytes
word_or_char [] = (character 0, none)
word_or_char (c ∷ s) = elim (strip (codes "null") (c ∷ s)) [
  | some rest ↦ (unknown, some rest)
  | none ↦ elim (strip (codes "true") (c ∷ s)) [
    | some rest ↦ (boolean true, some rest)
    | none ↦ elim (strip (codes "false") (c ∷ s)) [
      | some rest ↦ (boolean false, some rest)
      | none ↦ (character c, some s)
    ]
  ]
]

-- Token on the buffer behind the spaces.
pub token_at : Bytes → Token × Option Bytes
token_at [] = word_or_char []
token_at (c ∷ s) =
    let (n, dot, rest) = number_span s in
    let (taken, behind) = string_span false s in
    if c == b'-'
    then number (c ∷ n, dot, rest)
    else if isdigit c
    then number (c ∷ n, dot, rest)
    else if c == b'"'
    then (string (decode taken), behind)
    else word_or_char (c ∷ s)

pub token : Bytes → Token × Option Bytes
token buffer = token_at (skip_spaces buffer)
