-- ===== src/Json/Tree/Rounds.antt =====
-- Json::Parse of src/Json.cpp: the rounds of its loops.
use cpp_sockets_library.Prelude.{
  ℕ, suc, ◌≡◌, refl, ap, subst, none, ◌∙◌, Bool, true, false, ◌||◌, Option, some, [], ◌∷◌, ◌&&◌,
  ◌++◌, leb, ◌==◌, if◌then◌else◌, Bytes,
}
use cpp_sockets_library.Prelude.Text.{codes}
use cpp_sockets_library.Json.{encode, decode}
use cpp_sockets_library.Json.Token.{
  Token, token, unknown, boolean, character, string, real, integer,
}
use cpp_sockets_library.Json.Token.Plain.{
  Mark, open_array, close_array, open_object, close_object, comma, Mark-Ends, Ends, Starts,
  is_number_char, has_dot, token-null, token-truth, token-Mark, token-number,
}
use cpp_sockets_library.Json.Token.Plain
use cpp_sockets_library.Json.Token.Quoted.{token-encode}
use cpp_sockets_library.Json.Tree.{
  Json, null, long, double, text, truth, array, object, Items, no_item, item, Members, no_member,
  member, Numbers, push_back, insert, Parsed, parsed, thrown, outside, mark, name, colon, element,
  parse, parse_items, parse_members, items_text, members_text,
}
use cpp_sockets_library.Json.Tree.Readable.{IsNumber, IsText}

module _ (lib : Numbers) where
  -- What Parse does with a token.
  unfoldable pub after : ℕ → Token × Option Bytes → Parsed
  after f t =
      let items = parse_items lib f no_item t.1 in
      let members = parse_members lib f name no_member t.1 in
      elim t.0 [
        | real n ↦ parsed (double (lib.atof n)) t.1
        | integer n ↦ parsed (long (lib.atoi n)) t.1
        | string v ↦ parsed (text v) t.1
        | unknown ↦ parsed null t.1
        | boolean b ↦ parsed (truth b) t.1
        | character c ↦
            if c == b'['
            then items
            else if c == b'{'
            then members
            else if c == b']' || c == b'}' || c == b',' || c == b':'
            then mark c t.1
            else if leb 251 c && leb c 255
            then parsed null t.1
            else elim t.1 [ none ↦ outside | some behind ↦ thrown ]
      ]

  pub parse-after : (f : ℕ) (s : Bytes) → parse lib (suc f) s ≡ after f (token s)
  unfolding parse after
  parse-after f s = refl

  pub parse-comma : (f : ℕ) (s : Bytes) → parse lib (suc f) (b',' ∷ s) ≡ mark b',' (some s)
  unfolding after
  parse-comma f s = parse-after f _ ∙ ap (after f) (token-Mark b',' s comma)

  pub parse-colon : (f : ℕ) (s : Bytes) → parse lib (suc f) (b':' ∷ s) ≡ mark b':' (some s)
  unfolding after
  parse-colon f s = parse-after f _ ∙ ap (after f) (token-Mark b':' s Plain.colon)

  pub parse-close_array : (f : ℕ) (s : Bytes) → parse lib (suc f) (b']' ∷ s) ≡ mark b']' (some s)
  unfolding after
  parse-close_array f s = parse-after f _ ∙ ap (after f) (token-Mark b']' s close_array)

  pub parse-close_object : (f : ℕ) (s : Bytes) → parse lib (suc f) (b'}' ∷ s) ≡ mark b'}' (some s)
  unfolding after
  parse-close_object f s = parse-after f _ ∙ ap (after f) (token-Mark b'}' s close_object)

  pub parse-open_array :
      (f : ℕ) (s : Bytes) → parse lib (suc f) (b'[' ∷ s) ≡ parse_items lib f no_item (some s)
  unfolding after
  parse-open_array f s = parse-after f _ ∙ ap (after f) (token-Mark b'[' s open_array)

  pub parse-open_object :
      (f : ℕ) (s : Bytes)
      → parse lib (suc f) (b'{' ∷ s) ≡ parse_members lib f name no_member (some s)
  unfolding after
  parse-open_object f s = parse-after f _ ∙ ap (after f) (token-Mark b'{' s open_object)

  pub parse-null :
      (f : ℕ) (s : Bytes) → parse lib (suc f) (codes "null" ++ s) ≡ parsed null (some s)
  unfolding after
  parse-null f s = parse-after f _ ∙ ap (after f) (token-null s)

  pub parse-truth :
      (f : ℕ) (b : Bool) (s : Bytes)
      → parse lib (suc f) ((if b then codes "true" else codes "false") ++ s)
        ≡ parsed (truth b) (some s)
  unfolding after
  parse-truth f b s = parse-after f _ ∙ ap (after f) (token-truth b s)

  pub parse-text :
      (f : ℕ) (s rest : Bytes)
      → IsText s
      → parse lib (suc f) (b'"' ∷ (encode s ++ b'"' ∷ rest))
        ≡ parsed (text (decode (encode s))) (some rest)
  unfolding after
  parse-text f s rest v = parse-after f _ ∙ ap (after f) (token-encode s rest v).0

  pub parse-integer :
      (f : ℕ) (t rest : Bytes)
      → IsNumber false t
      → Ends rest
      → parse lib (suc f) (t ++ rest) ≡ parsed (long (lib.atoi t)) (some rest)
  unfolding after
  parse-integer f [] rest v e = absurd (v tt)
  parse-integer f (c ∷ n) rest (v, a, d) e =
      parse-after f _
      ∙ ap (after f) (
          subst
            (λ b.
              token (c ∷ (n ++ rest)) ≡ (if b then real (c ∷ n) else integer (c ∷ n), some rest))
            d (token-number c n rest v a e))

  pub parse-real :
      (f : ℕ) (t rest : Bytes)
      → IsNumber true t
      → Ends rest
      → parse lib (suc f) (t ++ rest) ≡ parsed (double (lib.atof t)) (some rest)
  unfolding after
  parse-real f [] rest v e = absurd (v tt)
  parse-real f (c ∷ n) rest (v, a, d) e =
      parse-after f _
      ∙ ap (after f) (
          subst
            (λ b.
              token (c ∷ (n ++ rest)) ≡ (if b then real (c ∷ n) else integer (c ∷ n), some rest))
            d (token-number c n rest v a e))

  -- A round of the loop over an array.
  pub items-item :
      (f : ℕ) (acc : Items) (x : Json) (s : Bytes) (rest : Bytes)
      → parse lib f s ≡ parsed x (some rest)
      → parse_items lib (suc f) acc (some s) ≡ parse_items lib f (push_back acc x) (some rest)
  unfolding parse
  items-item f acc x s rest p = rw (parse_items, p) refl

  pub items-comma :
      (f : ℕ) (acc : Items) (s : Bytes)
      → parse_items lib (suc (suc f)) acc (some (b',' ∷ s)) ≡ parse_items lib (suc f) acc (some s)
  unfolding parse
  items-comma f acc s = rw (parse_items, parse-comma f s) refl

  pub items-end :
      (f : ℕ) (acc : Items) (s : Bytes)
      → parse_items lib (suc (suc f)) acc (some (b']' ∷ s)) ≡ parsed (array acc) (some s)
  unfolding parse
  items-end f acc s = rw (parse_items, parse-close_array f s) refl

  -- Rounds of the loop over an object.
  pub members-name :
      (f : ℕ) (acc : Members) (k s rest : Bytes)
      → parse lib f s ≡ parsed (text k) (some rest)
      → parse_members lib (suc f) name acc (some s) ≡ parse_members lib f (colon k) acc (some rest)
  unfolding parse
  members-name f acc k s rest p = rw (parse_members, p) refl

  pub members-colon :
      (f : ℕ) (acc : Members) (k s : Bytes)
      → parse_members lib (suc (suc f)) (colon k) acc (some (b':' ∷ s))
        ≡ parse_members lib (suc f) (element k) acc (some s)
  unfolding parse
  members-colon f acc k s = rw (parse_members, parse-colon f s) refl

  pub members-element :
      (f : ℕ) (acc : Members) (k : Bytes) (x : Json) (s rest : Bytes)
      → parse lib f s ≡ parsed x (some rest)
      → parse_members lib (suc f) (element k) acc (some s)
        ≡ parse_members lib f name (insert k x acc) (some rest)
  unfolding parse
  members-element f acc k x s rest p = rw (parse_members, p) refl

  pub members-comma :
      (f : ℕ) (acc : Members) (s : Bytes)
      → parse_members lib (suc (suc f)) name acc (some (b',' ∷ s))
        ≡ parse_members lib (suc f) name acc (some s)
  unfolding parse
  members-comma f acc s = rw (parse_members, parse-comma f s) refl

  pub members-end :
      (f : ℕ) (acc : Members) (s : Bytes)
      → parse_members lib (suc (suc f)) name acc (some (b'}' ∷ s)) ≡ parsed (object acc) (some s)
  unfolding parse
  members-end f acc s = rw (parse_members, parse-close_object f s) refl

  -- What is behind a value ends it.
  pub items_text-Ends :
      (xs : Items) (rest : Bytes) → Ends (items_text lib true false xs ++ b']' ∷ rest)
  unfolding items_text
  items_text-Ends no_item rest = Mark-Ends b']' rest close_array
  items_text-Ends (item x xs) rest = Mark-Ends b',' [] comma

  pub members_text-Ends :
      (ms : Members) (rest : Bytes) → Ends (members_text lib true false ms ++ b'}' ∷ rest)
  unfolding members_text
  members_text-Ends no_member rest = Mark-Ends b'}' rest close_object
  members_text-Ends (member k x ms) rest = Mark-Ends b',' [] comma
