-- ===== src/Json/Tree/RoundTrip.antt =====
-- Json::ToString and Json::Parse of src/Json.cpp, one behind the other.
use cpp_sockets_library.Prelude.{
  ℕ, zero, suc, ◌≤◌, ◌≡◌, sym, ap, ◌∙◌, Bool, true, false, some, [], ◌∷◌, ◌++◌, append_assoc, Bytes,
  arith,
}
use cpp_sockets_library.Prelude.Text.{}
use cpp_sockets_library.Json.{encode, decode}
use cpp_sockets_library.Json.Token.Plain.{Ends}
use cpp_sockets_library.Json.Tree.{
  l2string, Json, null, long, double, text, truth, array, object, Items, no_item, item, Members,
  no_member, member, Numbers, push_back, parsed, name, parse, parse_items, parse_members, to_string,
  items_text, members_text,
}
use cpp_sockets_library.Json.Tree.Readable.{
  decoded, decoded_items, decoded_members, IsText, Below, Ordered, IsReadable, AllReadable,
  MembersReadable, size, size_items, size_members, push_member, join, join-push_back, join-no_item,
  join_members, join_members-push_member, join_members-no_member, insert-Below,
}
use cpp_sockets_library.Json.Tree.Rounds.{
  parse-open_array, parse-open_object, parse-null, parse-truth, parse-text, parse-integer,
  parse-real, items-item, items-comma, items-end, members-name, members-colon, members-element,
  members-comma, members-end, items_text-Ends, members_text-Ends,
}

positive : (v : Json) → 1 ≤ size v
unfolding size
positive null = omega arith
positive (long i) = omega arith
positive (double d) = omega arith
positive (text s) = omega arith
positive (truth b) = omega arith
positive (array xs) = omega arith
positive (object ms) = omega arith

key_assoc :
    (a b : ℕ) (k t m r : Bytes)
    → ((k ++ a ∷ b ∷ []) ++ (t ++ m)) ++ r ≡ k ++ a ∷ b ∷ (t ++ (m ++ r))
key_assoc a b [] t m r = ap (λ s. a ∷ b ∷ s) (append_assoc t m r)
key_assoc a b (x ∷ k) t m r = ap (◌∷◌ x) (key_assoc a b k t m r)

module _ (lib : Numbers) where
  -- A round for an item, and the three rounds for a member, from what the calls they make give.
  items-first :
      (f : ℕ) (x : Json) (xs : Items) (acc : Items) (rest : Bytes)
      → (let behind = items_text lib true false xs ++ b']' ∷ rest in
          (parse lib f (to_string lib true x ++ behind) ≡ parsed (decoded lib x) (some behind))
          × (parse_items lib f (push_back acc (decoded lib x)) (some behind)
              ≡ parsed
                  (array (join (push_back acc (decoded lib x)) (decoded_items lib xs)))
                  (some rest)))
      → parse_items lib
          (suc f)
          acc
          (some ((to_string lib true x ++ items_text lib true false xs) ++ b']' ∷ rest))
        ≡ parsed (array (join acc (decoded_items lib (item x xs)))) (some rest)
  unfolding decoded
  items-first f x xs acc rest (one, others) =
      rw (append_assoc (to_string lib true x) (items_text lib true false xs) (b']' ∷ rest)) (
        items-item lib f acc (decoded lib x) _ _ one
        ∙ others
        ∙ ap (λ j. parsed (array j) (some rest))
            (join-push_back acc (decoded lib x) (decoded_items lib xs)))

  members-first :
      (f : ℕ) (k : Bytes) (x : Json) (ms : Members) (acc : Members) (rest : Bytes)
      → IsText k
      → Below acc (decode (encode k))
      → (let behind = members_text lib true false ms ++ b'}' ∷ rest in
          (parse lib f (to_string lib true x ++ behind) ≡ parsed (decoded lib x) (some behind))
          × (parse_members lib f name
                (push_member acc (decode (encode k)) (decoded lib x))
                (some behind)
              ≡ parsed
                  (object (
                    join_members
                      (push_member acc (decode (encode k)) (decoded lib x))
                      (decoded_members lib ms)))
                  (some rest)))
      → parse_members lib (suc (suc (suc f))) name acc (
          some (
            b'"'
            ∷ (((encode k ++ b'"' ∷ b':' ∷ [])
                  ++ (to_string lib true x ++ members_text lib true false ms))
                ++ b'}' ∷ rest)))
        ≡ parsed (object (join_members acc (decoded_members lib (member k x ms)))) (some rest)
  unfolding decoded
  members-first f k x ms acc rest v below (one, others) =
      let behind = members_text lib true false ms ++ b'}' ∷ rest in
      rw
        (key_assoc b'"' b':' (encode k) (to_string lib true x) (members_text lib true false ms)
          (b'}' ∷ rest))
        (members-name lib (suc (suc f)) acc (decode (encode k)) _ _
            (parse-text lib (suc f) k (b':' ∷ (to_string lib true x ++ behind)) v)
          ∙ members-colon lib f acc (decode (encode k)) (to_string lib true x ++ behind)
          ∙ members-element lib f acc (decode (encode k)) (decoded lib x) _ _ one
          ∙ ap (λ a. parse_members lib f name a (some behind))
              (insert-Below (decode (encode k)) (decoded lib x) acc below)
          ∙ others
          ∙ ap (λ j. parsed (object j) (some rest))
              (join_members-push_member acc (decode (encode k)) (decoded lib x)
                (decoded_members lib ms)))

  mutual
    unfolding to_string size join join_members decoded

    parse-value :
        (f : ℕ) (v : Json) (rest : Bytes)
        → size v ≤ f
        → IsReadable lib v
        → Ends rest
        → parse lib f (to_string lib true v ++ rest) ≡ parsed (decoded lib v) (some rest)
    parse-value zero v rest lt r e = absurd (let p = positive v in omega arith)
    parse-value (suc f) null rest lt r e = parse-null lib f rest
    parse-value (suc f) (long i) rest lt r e = parse-integer lib f (l2string lib i) rest r e
    parse-value (suc f) (double d) rest lt r e = parse-real lib f (lib.sprintf_f d) rest r e
    parse-value (suc f) (text s) rest lt r e =
        rw (append_assoc (encode s) (b'"' ∷ []) rest) (parse-text lib f s rest r)
    parse-value (suc f) (truth b) rest lt r e = parse-truth lib f b rest
    parse-value (suc f) (array xs) rest lt r e =
        rw (append_assoc (items_text lib true true xs) (b']' ∷ []) rest)
          (parse-open_array lib f _ ∙ items-list f xs true no_item rest (omega arith) r)
    parse-value (suc f) (object ms) rest lt r e =
        rw (append_assoc (members_text lib true true ms) (b'}' ∷ []) rest)
          (parse-open_object lib f _ ∙ members-list f ms true no_member rest (omega arith) r.0 r.1)

    items-list :
        (f : ℕ) (xs : Items) (first : Bool) (acc : Items) (rest : Bytes)
        → size_items xs ≤ f
        → AllReadable lib xs
        → parse_items lib f acc (some (items_text lib true first xs ++ b']' ∷ rest))
          ≡ parsed (array (join acc (decoded_items lib xs))) (some rest)
    items-list zero no_item first acc rest lt r = absurd (omega arith)
    items-list (suc zero) no_item first acc rest lt r = absurd (omega arith)
    items-list (suc (suc f)) no_item first acc rest lt r =
        items-end lib f acc rest ∙ ap (λ j. parsed (array j) (some rest)) (sym (join-no_item acc))
    items-list zero (item x xs) first acc rest lt r = absurd (omega arith)
    items-list (suc zero) (item x xs) first acc rest lt r = absurd (omega arith)
    items-list (suc (suc f)) (item x xs) true acc rest lt r = items-first (suc f) x xs acc rest (
      parse-value (suc f) x _ (omega arith) r.0 (items_text-Ends lib xs rest),
      items-list (suc f) xs false (push_back acc (decoded lib x)) rest (omega arith) r.1,
    )
    items-list (suc (suc f)) (item x xs) false acc rest lt r =
        items-comma lib f acc _
        ∙ items-first f x xs acc rest (
          parse-value f x _ (omega arith) r.0 (items_text-Ends lib xs rest),
          items-list f xs false (push_back acc (decoded lib x)) rest (omega arith) r.1,
        )

    members-list :
        (f : ℕ) (ms : Members) (first : Bool) (acc : Members) (rest : Bytes)
        → size_members ms ≤ f
        → MembersReadable lib ms
        → Ordered acc (decoded_members lib ms)
        → parse_members lib f name acc (some (members_text lib true first ms ++ b'}' ∷ rest))
          ≡ parsed (object (join_members acc (decoded_members lib ms))) (some rest)
    members-list zero no_member first acc rest lt r o = absurd (omega arith)
    members-list (suc zero) no_member first acc rest lt r o = absurd (omega arith)
    members-list (suc (suc f)) no_member first acc rest lt r o =
        members-end lib f acc rest
        ∙ ap (λ j. parsed (object j) (some rest)) (sym (join_members-no_member acc))
    members-list zero (member k x ms) first acc rest lt r o = absurd (omega arith)
    members-list (suc zero) (member k x ms) first acc rest lt r o = absurd (omega arith)
    members-list (suc (suc zero)) (member k x ms) first acc rest lt r o = absurd (omega arith)
    members-list (suc (suc (suc zero))) (member k x ms) first acc rest lt r o = absurd (omega arith)
    members-list (suc (suc (suc (suc f)))) (member k x ms) true acc rest lt r o =
        members-first (suc f) k x ms acc rest r.0 o.0 (
          parse-value (suc f) x _ (omega arith) r.1 (members_text-Ends lib ms rest),
          members-list (suc f) ms false (push_member acc (decode (encode k)) (decoded lib x)) rest
              (omega arith) r.2 o.1,
        )
    members-list (suc (suc (suc (suc f)))) (member k x ms) false acc rest lt r o =
        members-comma lib (suc (suc f)) acc _
        ∙ members-first f k x ms acc rest r.0 o.0 (
          parse-value f x _ (omega arith) r.1 (members_text-Ends lib ms rest),
          members-list f ms false (push_member acc (decode (encode k)) (decoded lib x)) rest
              (omega arith) r.2 o.1,
        )
