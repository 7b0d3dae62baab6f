-- ===== src/Json/Tree/Unclosed.antt =====
-- Json::Parse of src/Json.cpp, on a text that ends inside a string.
use cpp_sockets_library.Prelude.{ℕ, suc, ◌≡◌, ◌≢◌, refl, ap, ◌∙◌, none, some, ◌∷◌, Bytes, All}
use cpp_sockets_library.Json.{encode, decode}
use cpp_sockets_library.Json.Token.Quoted.{token-open}
use cpp_sockets_library.Json.Tree.{
  text, Items, no_item, Members, no_member, Numbers, parsed, outside, name, parse, parse_items,
  parse_members,
}
use cpp_sockets_library.Json.Tree.Rounds.{after, parse-after, parse-open_array, parse-open_object}

module _ (lib : Numbers) where
  parse-unclosed :
      (f : ℕ) (s : Bytes)
      → All (λ c. c ≢ 0) s
      → parse lib (suc f) (b'"' ∷ encode s) ≡ parsed (text (decode (encode s))) none
  unfolding after
  parse-unclosed f s v = parse-after lib f _ ∙ ap (after lib f) (token-open s v)

  items-unclosed :
      (f : ℕ) (acc : Items) (s : Bytes)
      → All (λ c. c ≢ 0) s
      → parse_items lib (suc (suc f)) acc (some (b'"' ∷ encode s)) ≡ outside
  unfolding parse
  items-unclosed f acc s v = rw (parse_items, parse-unclosed f s v) refl

  members-unclosed :
      (f : ℕ) (acc : Members) (s : Bytes)
      → All (λ c. c ≢ 0) s
      → parse_members lib (suc (suc f)) name acc (some (b'"' ∷ encode s)) ≡ outside
  unfolding parse
  members-unclosed f acc s v = rw (parse_members, parse-unclosed f s v) refl

-- Of a text that ends inside the first string of an array, or inside the first name of an object, Parse
-- reads behind the end of the buffer, whatever the string is, with no zero byte in it, and with at
-- least three calls to make.
pub parse_unclosed :
    (lib : Numbers) (fuel : ℕ) (s : Bytes)
    → All (λ c. c ≢ 0) s
    → (parse lib (suc (suc (suc fuel))) (b'[' ∷ b'"' ∷ encode s) ≡ outside)
      × (parse lib (suc (suc (suc fuel))) (b'{' ∷ b'"' ∷ encode s) ≡ outside)
parse_unclosed lib fuel s v = (
  parse-open_array lib (suc (suc fuel)) _ ∙ items-unclosed lib fuel no_item s v,
  parse-open_object lib (suc (suc fuel)) _ ∙ members-unclosed lib fuel no_member s v,
)
