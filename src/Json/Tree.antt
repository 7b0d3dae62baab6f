-- ===== src/Json/Tree.antt =====
-- src/Json.cpp: the values, Json::Parse and Json::ToString. The exceptions have no text, and the
-- functions of the C library that read and print numbers, atoi, atof, snprintf with %ld and sprintf
-- with %f, are a parameter.
pub mod Access
pub mod Readable
pub mod RoundTrip
pub mod Rounds
pub mod Unclosed
use cpp_sockets_library.Prelude.{
  ℕ, zero, suc, ◌+◌, Bool, true, false, ◌&&◌, ◌||◌, Option, none, some, [], ◌∷◌, ◌++◌, ltb, leb,
  ◌==◌, if◌then◌else◌, Bytes,
}
use cpp_sockets_library.Prelude.Text.{codes}
use cpp_sockets_library.Json.{encode}
use cpp_sockets_library.Json.Token.{
  Token, token, real, integer, string, unknown, boolean, character,
}

-- A value with the field that its type uses: a long and a double by their 64 bits, and the members
-- of an object in the order of their names.
mutual
  pub data Json : Type 0 where
    null : Json
    long double : ℕ → Json
    text : Bytes → Json
    truth : Bool → Json
    array : Items → Json
    object : Members → Json

  pub data Items : Type 0 where
    no_item : Items
    item : Json → Items → Items

  pub data Members : Type 0 where
    no_member : Members
    member : Bytes → Json → Members → Members

pub record Numbers : Type 0 where
  pub atoi : Bytes → ℕ
  pub atof : Bytes → ℕ
  pub snprintf_ld : ℕ → Bytes
  pub sprintf_f : ℕ → Bytes

-- Utility::l2string; the text of a long fits into the 100 bytes.
abbrev pub l2string : Numbers → ℕ → Bytes
l2string lib i = lib.snprintf_ld i

-- m_array.push_back(o)
pub push_back : Items → Json → Items
push_back no_item o = item o no_item
push_back (item x xs) o = item x (push_back xs o)

-- operator< of std::string
unfoldable pub text_less : Bytes → Bytes → Bool
text_less s [] = false
text_less [] (d ∷ t) = true
text_less (c ∷ s) (d ∷ t) = let rest = text_less s t in if ltb c d then true else c == d && rest

-- m_object[name] = o
unfoldable pub insert : Bytes → Json → Members → Members
insert name o no_member = member name o no_member
insert name o (member k x ms) =
    let rest = insert name o ms in
    if text_less k name
    then member k x rest
    else if text_less name k
    then member name o (member k x ms)
    else member k o ms

-- What Parse gives: 0 with the value, or a char; the second field is the text behind it, `none`
-- behind the end of the buffer. It may throw, or read behind the buffer.
pub data Parsed : Type 0 where
  parsed : Json → Option Bytes → Parsed
  mark : ℕ → Option Bytes → Parsed
  thrown outside no_fuel : Parsed

-- The states 0, 1 and 2 of the loop over an object, with element_name.
pub data Expects : Type 0 where
  name : Expects
  colon element : Bytes → Expects

-- Parse, and its loops over an array and over an object. A char from 251 on is negative, and taken for
-- one of the types below TYPE_ARRAY, while m_type stays TYPE_UNKNOWN; the exception at the end has the
-- text from the index on.
mutual
  pub parse : Numbers → ℕ → Bytes → Parsed
  parse lib zero s = no_fuel
  parse lib (suc fuel) s =
      let (t, rest) = token s in
      let items = parse_items lib fuel no_item rest in
      let members = parse_members lib fuel name no_member rest in
      elim t [
        | real n ↦ parsed (double (lib.atof n)) rest
        | integer n ↦ parsed (long (lib.atoi n)) rest
        | string v ↦ parsed (text v) rest
        | unknown ↦ parsed null rest
        | boolean b ↦ parsed (truth b) rest
        | character c ↦
            if c == b'['
            then items
            else if c == b'{'
            then members
            else if c == b']' || c == b'}' || c == b',' || c == b':'
            then mark c rest
            else if leb 251 c && leb c 255
            then parsed null rest
            else elim rest [ none ↦ outside | some behind ↦ thrown ]
      ]

  pub parse_items : Numbers → ℕ → Items → Option Bytes → Parsed
  parse_items lib zero acc rest = no_fuel
  parse_items lib (suc fuel) acc none = outside
  parse_items lib (suc fuel) acc (some s) = elim (parse lib fuel s) [
    | parsed o rest ↦ parse_items lib fuel (push_back acc o) rest
    | mark c rest ↦
        let more = parse_items lib fuel acc rest in
        if c == b']' then parsed (array acc) rest else if c == b',' then more else thrown
    | thrown ↦ thrown
    | outside ↦ outside
    | no_fuel ↦ no_fuel
  ]

  pub parse_members : Numbers → ℕ → Expects → Members → Option Bytes → Parsed
  parse_members lib zero state acc rest = no_fuel
  parse_members lib (suc fuel) state acc none = outside
  parse_members lib (suc fuel) state acc (some s) = elim (parse lib fuel s) [
    | parsed o rest ↦ elim state [
      | name ↦ elim o [
        | text k ↦ parse_members lib fuel (colon k) acc rest
        | null ↦ thrown
        | long i ↦ thrown
        | double d ↦ thrown
        | truth b ↦ thrown
        | array xs ↦ thrown
        | object ms ↦ thrown
      ]
      | colon k ↦ thrown
      | element k ↦ parse_members lib fuel name (insert k o acc) rest
    ]
    | mark c rest ↦
        let more = parse_members lib fuel name acc rest in
        elim state [
          | name ↦
              if c == b',' then more else if c == b'}' then parsed (object acc) rest else thrown
          | colon k ↦
              let value = parse_members lib fuel (element k) acc rest in
              if c == b':' then value else thrown
          | element k ↦ thrown
        ]
    | thrown ↦ thrown
    | outside ↦ outside
    | no_fuel ↦ no_fuel
  ]

-- ToString(quote), with its loops over an array and over an object.
mutual
  pub to_string : Numbers → Bool → Json → Bytes
  to_string lib quote null = codes "null"
  to_string lib quote (long i) = l2string lib i
  to_string lib quote (double d) = lib.sprintf_f d
  to_string lib quote (text s) = b'"' ∷ (encode s ++ b'"' ∷ [])
  to_string lib quote (truth b) = if b then codes "true" else codes "false"
  to_string lib quote (array xs) = b'[' ∷ (items_text lib quote true xs ++ b']' ∷ [])
  to_string lib quote (object ms) = b'{' ∷ (members_text lib quote true ms ++ b'}' ∷ [])

  pub items_text : Numbers → Bool → Bool → Items → Bytes
  items_text lib quote first no_item = []
  items_text lib quote first (item x xs) =
      (if first then [] else b',' ∷ []) ++ (to_string lib quote x ++ items_text lib quote false xs)

  pub members_text : Numbers → Bool → Bool → Members → Bytes
  members_text lib quote first no_member = []
  members_text lib quote first (member k x ms) =
      (if first then [] else b',' ∷ [])
      ++ ((if quote then b'"' ∷ (encode k ++ b'"' ∷ b':' ∷ []) else k ++ b':' ∷ [])
          ++ (to_string lib quote x ++ members_text lib quote false ms))
