-- ===== src/Json/Token/Plain.antt =====
-- Json::Token of src/Json.cpp, on marks, words and numbers.
use cpp_sockets_library.Prelude.{
  ℕ, ◌≡◌, refl, subst, Bool, true, false, ◌||◌, some, [], ◌∷◌, ◌++◌, ◌==◌, if◌then◌else◌, Bytes,
  All, arith, Bool-cases, inl, inr,
}
use cpp_sockets_library.Prelude.Text.{codes}
use cpp_sockets_library.Json.Token.{
  token, token_at, skip_spaces, is_space, isdigit, word_or_char, strip, number_span, number, real,
  integer, unknown, boolean, character,
}

pub token-null : (s : Bytes) → token (codes "null" ++ s) ≡ (unknown, some s)
unfolding token token_at skip_spaces is_space isdigit word_or_char strip
token-null s = refl

pub token-truth :
    (b : Bool) (s : Bytes)
    → token ((if b then codes "true" else codes "false") ++ s) ≡ (boolean b, some s)
unfolding token token_at skip_spaces is_space isdigit word_or_char strip
token-truth true s = refl
token-truth false s = refl

-- The chars that Parse looks for.
pub data Mark : ℕ → Type 0 where
  open_array : Mark b'['
  close_array : Mark b']'
  open_object : Mark b'{'
  close_object : Mark b'}'
  comma : Mark b','
  colon : Mark b':'

pub token-Mark : (c : ℕ) (s : Bytes) → Mark c → token (c ∷ s) ≡ (character c, some s)
unfolding token token_at skip_spaces is_space isdigit word_or_char strip
token-Mark _ s open_array = refl
token-Mark _ s close_array = refl
token-Mark _ s open_object = refl
token-Mark _ s close_object = refl
token-Mark _ s comma = refl
token-Mark _ s colon = refl

abbrev pub is_number_char : ℕ → Bool
is_number_char c = isdigit c || c == b'.'

-- No number goes on behind this place.
abbrev pub Ends : Bytes → Type 0
Ends [] = Unit {0}
Ends (c ∷ s) = is_number_char c ≡ false

unfoldable pub has_dot : Bytes → Bool
has_dot [] = false
has_dot (c ∷ s) = has_dot s || c == b'.'

abbrev pub Starts : ℕ → Type 0
Starts c = ((c == b'-') || isdigit c) ≡ true

number_span-chars :
    (n rest : Bytes)
    → All (λ c. is_number_char c ≡ true) n
    → Ends rest
    → number_span (n ++ rest) ≡ (n, has_dot n, rest)
unfolding number_span has_dot
number_span-chars [] [] a e = refl
number_span-chars [] (c ∷ s) a e = rw e refl
number_span-chars (c ∷ n) rest a e = rw (number_span-chars n rest a.1 e, a.0) refl

start_is_no_space : (c : ℕ) → Starts c → is_space c ≡ false
unfolding is_space isdigit
start_is_no_space c v = ground arith

number-if :
    (n rest : Bytes) (dot : Bool)
    → number (n, dot, rest) ≡ (if dot then real n else integer n, some rest)
unfolding number
number-if n rest true = refl
number-if n rest false = refl

-- A number is one token, up to a char that does not go on with it.
pub token-number :
    (c : ℕ) (n rest : Bytes)
    → Starts c
    → All (λ c. is_number_char c ≡ true) n
    → Ends rest
    → token (c ∷ (n ++ rest)) ≡ (if has_dot n then real (c ∷ n) else integer (c ∷ n), some rest)
unfolding token token_at skip_spaces
token-number c n rest v a e =
    let spans = number_span-chars n rest a e in
    let result = number-if (c ∷ n) rest (has_dot n) in
    elim (Bool-cases (c == b'-')) [
      | inl m ↦ rw (start_is_no_space c v, spans, m) result
      | inr m ↦
          let digit : isdigit c ≡ true = subst (λ b. (b || isdigit c) ≡ true) m v in
          rw (start_is_no_space c v, spans, m, digit) result
    ]

pub Mark-Ends : (c : ℕ) (s : Bytes) → Mark c → Ends (c ∷ s)
unfolding isdigit
Mark-Ends _ s open_array = refl
Mark-Ends _ s close_array = refl
Mark-Ends _ s open_object = refl
Mark-Ends _ s close_object = refl
Mark-Ends _ s comma = refl
Mark-Ends _ s colon = refl
