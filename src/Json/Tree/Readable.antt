-- ===== src/Json/Tree/Readable.antt =====
-- The values of src/Json.cpp that are printed as they are read.
use cpp_sockets_library.Prelude.{
  ℕ, suc, ◌+◌, ◌≡◌, ◌≢◌, refl, ap, Bool, true, false, [], ◌∷◌, Bytes, All,
}
use cpp_sockets_library.Prelude.Text.{}
use cpp_sockets_library.Json.{encode, decode}
use cpp_sockets_library.Json.Escapes.{NoBackslash, decode-encode_string}
use cpp_sockets_library.Json.Token.Plain.{Starts, is_number_char, has_dot}
use cpp_sockets_library.Json.Tree.{
  l2string, Json, null, long, double, text, truth, array, object, Items, no_item, item, Members,
  no_member, member, Numbers, push_back, text_less, insert,
}

-- A number as it is printed: digits, with a minus or not, and with a dot where it is a double.
abbrev pub IsNumber : Bool → Bytes → Type 0
IsNumber dot [] = Unit {0} → ⊥
IsNumber dot (c ∷ n) = Starts c × All (λ x. is_number_char x ≡ true) n × (has_dot n ≡ dot)

abbrev pub IsText : Bytes → Type 0
IsText s = All (λ c. c ≢ 0) s

-- The names go up.
unfoldable pub push_member : Members → Bytes → Json → Members
push_member no_member k o = member k o no_member
push_member (member j x ms) k o = member j x (push_member ms k o)

abbrev pub Below : Members → Bytes → Type 0
Below no_member k = Unit {0}
Below (member j x ms) k = (text_less j k ≡ true) × Below ms k

abbrev pub Ordered : Members → Members → Type 0
Ordered acc no_member = Unit {0}
Ordered acc (member k x ms) = Below acc k × Ordered (push_member acc k x) ms

-- A value with its strings as encode and decode leave them, and its numbers as they are printed and
-- read.
unfoldable mutual
  pub decoded : Numbers → Json → Json
  decoded lib null = null
  decoded lib (long i) = long (lib.atoi (l2string lib i))
  decoded lib (double d) = double (lib.atof (lib.sprintf_f d))
  decoded lib (text s) = text (decode (encode s))
  decoded lib (truth b) = truth b
  decoded lib (array xs) = array (decoded_items lib xs)
  decoded lib (object ms) = object (decoded_members lib ms)

  pub decoded_items : Numbers → Items → Items
  decoded_items lib no_item = no_item
  decoded_items lib (item x xs) = item (decoded lib x) (decoded_items lib xs)

  pub decoded_members : Numbers → Members → Members
  decoded_members lib no_member = no_member
  decoded_members lib (member k x ms) =
      member (decode (encode k)) (decoded lib x) (decoded_members lib ms)

-- The values that come back the same: no string has a backslash, and the C library reads the numbers
-- back that it prints.
abbrev mutual
  pub IsKept : Numbers → Json → Type 0
  IsKept lib null = Unit {0}
  IsKept lib (long i) = lib.atoi (l2string lib i) ≡ i
  IsKept lib (double d) = lib.atof (lib.sprintf_f d) ≡ d
  IsKept lib (text s) = All NoBackslash s
  IsKept lib (truth b) = Unit {0}
  IsKept lib (array xs) = ItemsKept lib xs
  IsKept lib (object ms) = MembersKept lib ms

  pub ItemsKept : Numbers → Items → Type 0
  ItemsKept lib no_item = Unit {0}
  ItemsKept lib (item x xs) = IsKept lib x × ItemsKept lib xs

  pub MembersKept : Numbers → Members → Type 0
  MembersKept lib no_member = Unit {0}
  MembersKept lib (member k x ms) = All NoBackslash k × IsKept lib x × MembersKept lib ms

mutual
  unfolding decoded

  pub decoded_kept : (lib : Numbers) (v : Json) → IsKept lib v → decoded lib v ≡ v
  decoded_kept lib null h = refl
  decoded_kept lib (long i) h = ap long h
  decoded_kept lib (double d) h = ap double h
  decoded_kept lib (text s) h = ap text (decode-encode_string s h)
  decoded_kept lib (truth b) h = refl
  decoded_kept lib (array xs) h = ap array (items_kept lib xs h)
  decoded_kept lib (object ms) h = ap object (members_kept lib ms h)

  items_kept : (lib : Numbers) (xs : Items) → ItemsKept lib xs → decoded_items lib xs ≡ xs
  items_kept lib no_item h = refl
  items_kept lib (item x xs) h = rw (decoded_kept lib x h.0, items_kept lib xs h.1) refl

  members_kept : (lib : Numbers) (ms : Members) → MembersKept lib ms → decoded_members lib ms ≡ ms
  members_kept lib no_member h = refl
  members_kept lib (member k x ms) h =
      rw (decode-encode_string k h.0, decoded_kept lib x h.1, members_kept lib ms h.2) refl

-- The values that ToString prints as Parse reads them.
abbrev mutual
  pub IsReadable : Numbers → Json → Type 0
  IsReadable lib null = Unit {0}
  IsReadable lib (long i) = IsNumber false (l2string lib i)
  IsReadable lib (double d) = IsNumber true (lib.sprintf_f d)
  IsReadable lib (text s) = IsText s
  IsReadable lib (truth b) = Unit {0}
  IsReadable lib (array xs) = AllReadable lib xs
  IsReadable lib (object ms) = MembersReadable lib ms × Ordered no_member (decoded_members lib ms)

  pub AllReadable : Numbers → Items → Type 0
  AllReadable lib no_item = Unit {0}
  AllReadable lib (item x xs) = IsReadable lib x × AllReadable lib xs

  pub MembersReadable : Numbers → Members → Type 0
  MembersReadable lib no_member = Unit {0}
  MembersReadable lib (member k x ms) = IsText k × IsReadable lib x × MembersReadable lib ms

-- The calls of Parse for a value.
unfoldable mutual
  pub size : Json → ℕ
  size null = 1
  size (long i) = 1
  size (double d) = 1
  size (text s) = 1
  size (truth b) = 1
  size (array xs) = suc (size_items xs)
  size (object ms) = suc (size_members ms)

  pub size_items : Items → ℕ
  size_items no_item = 2
  size_items (item x xs) = suc (suc (size x + size_items xs))

  pub size_members : Members → ℕ
  size_members no_member = 2
  size_members (member k x ms) = suc (suc (suc (suc (size x + size_members ms))))

unfoldable pub join : Items → Items → Items
join no_item ys = ys
join (item x xs) ys = item x (join xs ys)

pub join-push_back :
    (acc : Items) (x : Json) (xs : Items) → join (push_back acc x) xs ≡ join acc (item x xs)
unfolding join push_back
join-push_back no_item x xs = refl
join-push_back (item y acc) x xs = ap (item y) (join-push_back acc x xs)

pub join-no_item : (acc : Items) → join acc no_item ≡ acc
unfolding join
join-no_item no_item = refl
join-no_item (item y acc) = ap (item y) (join-no_item acc)

unfoldable pub join_members : Members → Members → Members
join_members no_member ys = ys
join_members (member k x ms) ys = member k x (join_members ms ys)

pub join_members-push_member :
    (acc : Members) (k : Bytes) (x : Json) (ms : Members)
    → join_members (push_member acc k x) ms ≡ join_members acc (member k x ms)
unfolding join_members push_member
join_members-push_member no_member k x ms = refl
join_members-push_member (member j y acc) k x ms =
    ap (member j y) (join_members-push_member acc k x ms)

pub join_members-no_member : (acc : Members) → join_members acc no_member ≡ acc
unfolding join_members
join_members-no_member no_member = refl
join_members-no_member (member j y acc) = ap (member j y) (join_members-no_member acc)

pub insert-Below :
    (k : Bytes) (x : Json) (acc : Members) → Below acc k → insert k x acc ≡ push_member acc k x
unfolding insert push_member
insert-Below k x no_member b = refl
insert-Below k x (member j y acc) b = rw b.0 (ap (member j y) (insert-Below k x acc b.1))
