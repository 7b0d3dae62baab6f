-- ===== src/Tests/Values.antt =====
-- JSON values.
use cpp_sockets_library.Prelude.{
  ℕ, zero, suc, ◌+◌, ◌-◌, ◌*◌, ◌/◌, ◌%◌, ltb, if◌then◌else◌, ◌⊎◌, none, ◌≡◌, ◌≢◌, ap, true, false,
  some, [], ◌∷◌, ◌++◌, Bytes, arith,
}
use cpp_sockets_library.Prelude.Text.{codes}
use cpp_sockets_library.Json.Tree.{
  Json, null, long, double, text, truth, array, object, no_item, item, no_member, member, Numbers,
  outside, parse,
}
use cpp_sockets_library.Json.{encode}
use cpp_sockets_library.Json.Tree.Access.{at, has_value, takes_names, assign, assign-at}
use cpp_sockets_library.Json.Tree.Unclosed.{parse_unclosed}

-- The digits of a number, the number of some digits, and a half.
abbrev digits : ℕ → ℕ → Bytes
digits zero n = []
digits (suc f) n =
    let before = digits f (n / 10) in
    if ltb n 10 then (48 + n) ∷ [] else before ++ (48 + n % 10) ∷ []

abbrev number : ℕ → Bytes → ℕ
number n [] = n
number n (c ∷ s) = number (10 * n + (c - 48)) s

abbrev decimal : Numbers
decimal = record {
  atoi = number 0;
  atof = λ s. 4602678819172646912;
  snprintf_ld = digits 20;
  sprintf_f = λ d. codes "0.500000";
}

abbrev tree : Json
tree = object (
    member (codes "a") (array (item (truth true) (item null (item (text (codes "x\"y")) no_item))))
      (member (codes "b") (long 1234) (
        member (codes "c") (double 4602678819172646912)
          (member (codes "d") (object no_member) no_member))))

-- A text with a backslash, which comes back changed.
abbrev path : Json
path = array (item (text (codes "a\\n")) no_item)

parse_unclosed_example :
    (parse decimal 9 (b'[' ∷ b'"' ∷ encode (codes "x")) ≡ outside)
    × (parse decimal 9 (b'{' ∷ b'"' ∷ encode (codes "x")) ≡ outside)
parse_unclosed_example = parse_unclosed decimal 6 (codes "x") (omega arith, tt)

abbrev pair : Json
pair = object (member (codes "a") null (member (codes "c") (truth true) no_member))

first : Bytes → ℕ
first [] = 0
first (c ∷ s) = c

c_is_not_b : codes "c" ≢ codes "b"
unfolding first
c_is_not_b e = let same : ◌≡◌ {A = ℕ} b'c' b'b' = ap first e in omega arith

assign-at_example :
    ((takes_names pair ≡ true)
      × ((j' : Json) × (assign (codes "b") (truth false) pair ≡ some j')
          × (at (codes "b") j' ≡ some (truth false))
          × (has_value (codes "b") j' ≡ true)
          × (at (codes "c") j' ≡ at (codes "c") pair)
          × (has_value (codes "c") j' ≡ has_value (codes "c") pair)))
    ⊎ ((takes_names pair ≡ false) × (assign (codes "b") (truth false) pair ≡ none))
assign-at_example = assign-at (codes "b") (codes "c") (truth false) pair c_is_not_b
