-- ===== src/Json/Token/Quoted.antt =====
-- A string that was encoded and quoted is read back as one token.
use cpp_sockets_library.Prelude.{
  none, ℕ, ◌≡◌, ◌≢◌, refl, ◌∙◌, ap, false, Option, some, [], ◌∷◌, ◌++◌, ◌==◌, if◌then◌else◌, Bytes,
  All, Bool-cases, inl, inr, append_assoc, arith,
}
use cpp_sockets_library.Json.{escape, encode, decode}
use cpp_sockets_library.Json.Escapes.{NoBackslash, decode-encode_string}
use cpp_sockets_library.Json.Token.{
  string, is_space, skip_spaces, isdigit, string_span, token_at, token,
}

-- What encode writes for one byte.
escaped : ℕ → Bytes
escaped c =
    if c == b'\\'
    then b'\\' ∷ b'\\' ∷ []
    else if c == b'\r'
    then b'\\' ∷ b'r' ∷ []
    else if c == b'\n'
    then b'\\' ∷ b'n' ∷ []
    else if c == b'"'
    then b'\\' ∷ b'"' ∷ []
    else c ∷ []

encode-cons : (c : ℕ) (s : Bytes) → encode (c ∷ s) ≡ escaped c ++ encode s
unfolding encode escape escaped
encode-cons c s = elim (Bool-cases (c == b'\\')) [
  | inl b ↦ rw b refl
  | inr b ↦ elim (Bool-cases (c == b'\r')) [
    | inl r ↦ rw (b, r) refl
    | inr r ↦ elim (Bool-cases (c == b'\n')) [
      | inl n ↦ rw (b, r, n) refl
      | inr n ↦ elim (Bool-cases (c == b'"')) [
        | inl q ↦ rw (b, r, n, q) refl
        | inr q ↦ rw (b, r, n, q) refl
      ]
    ]
  ]
]

abbrev prepend : Bytes → Bytes × Option Bytes → Bytes × Option Bytes
prepend xs (taken, rest) = (xs ++ taken, rest)

string_span-plain :
    (c : ℕ) (s : Bytes)
    → c ≢ 0
    → (c == b'\\') ≡ false
    → (c == b'"') ≡ false
    → string_span false (c ∷ s) ≡ prepend (c ∷ []) (string_span false s)
unfolding string_span
string_span-plain c s nz b q = let plain : (c == 0) ≡ false = ground arith in rw (b, q, plain) refl

string_span-escaped :
    (c : ℕ) (s : Bytes)
    → c ≢ 0
    → string_span false (escaped c ++ s) ≡ prepend (escaped c) (string_span false s)
unfolding string_span escaped
string_span-escaped c s nz = elim (Bool-cases (c == b'\\')) [
  | inl b ↦ rw b refl
  | inr b ↦ elim (Bool-cases (c == b'\r')) [
    | inl r ↦ rw (b, r) refl
    | inr r ↦ elim (Bool-cases (c == b'\n')) [
      | inl n ↦ rw (b, r, n) refl
      | inr n ↦ elim (Bool-cases (c == b'"')) [
        | inl q ↦ rw (b, r, n, q) refl
        | inr q ↦ rw (b, r, n, q) (string_span-plain c s nz b q)
      ]
    ]
  ]
]

string_span-encode :
    (s rest : Bytes)
    → All (λ c. c ≢ 0) s
    → string_span false (encode s ++ b'"' ∷ rest) ≡ (encode s, some rest)
string_span-encode [] rest v = unfold encode escape string_span in refl
string_span-encode (c ∷ s) rest v =
    rw (encode-cons c s, append_assoc)
      (string_span-escaped c (encode s ++ b'"' ∷ rest) v.0
        ∙ ap (prepend (escaped c)) (string_span-encode s rest v.1))

token-quote :
    (s : Bytes)
    → token (b'"' ∷ s) ≡ (string (decode (string_span false s).0), (string_span false s).1)
unfolding token token_at skip_spaces is_space isdigit
token-quote s = refl

-- The text that encode writes for a string with no zero byte, between quotes, is one token: it ends
-- at the closing quote, whatever quotes and backslashes the string has, its value is what decode
-- makes of the text, and that is the string where it has no backslash.
pub token-encode :
    (s rest : Bytes)
    → All (λ c. c ≢ 0) s
    → (token (b'"' ∷ (encode s ++ b'"' ∷ rest)) ≡ (string (decode (encode s)), some rest))
      × (All NoBackslash s → token (b'"' ∷ (encode s ++ b'"' ∷ rest)) ≡ (string s, some rest))
token-encode s rest v =
    let whole = token-quote (encode s ++ b'"' ∷ rest) ∙ rw (string_span-encode s rest v) refl in
    (whole, λ n. whole ∙ rw (decode-encode_string s n) refl)

string_span-open :
    (s : Bytes) → All (λ c. c ≢ 0) s → string_span false (encode s) ≡ (encode s, none)
string_span-open [] v = unfold encode escape string_span in refl
string_span-open (c ∷ s) v =
    rw (encode-cons c s)
      (string_span-escaped c (encode s) v.0 ∙ ap (prepend (escaped c)) (string_span-open s v.1))

-- Where the closing quote is missing, the index is behind the end of the buffer.
pub token-open :
    (s : Bytes) → All (λ c. c ≢ 0) s → token (b'"' ∷ encode s) ≡ (string (decode (encode s)), none)
token-open s v = token-quote (encode s) ∙ rw (string_span-open s v) refl
