-- ===== src/Utility/Url.antt =====
-- Utility::rfc1738_encode and rfc1738_decode of src/Utility.cpp. A char is its byte; the end of a
-- std::string reads as 0. isalnum and isxdigit are those of the "C" locale.
use cpp_sockets_library.Prelude.{
  IsByte, ℕ, ◌+◌, ◌-◌, ◌*◌, ◌/◌, ◌%◌, ◌<◌, ◌≡◌, ◌∙◌, refl, Bool, true, false, not, ◌&&◌, ◌||◌, [],
  ◌∷◌, leb, ◌==◌, if◌then◌else◌, Bytes, arith, All, Bool-cases, inl, inr, ==→eq, get_elem?, none,
  some,
}
use cpp_sockets_library.Prelude.Text.{all_below, all_below→, codes}

abbrev within : ℕ → ℕ → ℕ → Bool
within lo hi c = leb lo c && leb c hi

pub isalnum : ℕ → Bool
isalnum c = within b'0' b'9' c || within b'A' b'Z' c || within b'a' b'z' c

pub isxdigit : ℕ → Bool
isxdigit c = within b'0' b'9' c || within b'A' b'F' c || within b'a' b'f' c

-- hex[k], for k below 16
pub hex : ℕ → ℕ
hex k = elim (get_elem? (codes "0123456789ABCDEF") k) [ none ↦ 0 | some c ↦ c ]

pub rfc1738_encode : Bytes → Bytes
rfc1738_encode [] = []
rfc1738_encode (c ∷ s) =
    let rest = rfc1738_encode s in
    if isalnum c
    then c ∷ rest
    else if c == b' '
    then b'+' ∷ rest
    else b'%' ∷ hex (c / 16) ∷ hex (c % 16) ∷ rest

-- `c = c - 48 - ((c >= 'A') ? 7 : 0) - ((c >= 'a') ? 32 : 0)` on a hexadecimal digit: the second
-- offset is decided by the char as it was.
pub hex_value : ℕ → ℕ
hex_value c = c - 48 - (if leb b'A' c then 7 else 0) - (if leb b'a' c then 32 else 0)

-- A char that is no escape.
pub decode_char : ℕ → ℕ
decode_char c = if c == b'+' then b' ' else c

pub rfc1738_decode : Bytes → Bytes
rfc1738_decode [] = []
rfc1738_decode (c ∷ []) = decode_char c ∷ []
rfc1738_decode (c ∷ d ∷ []) = decode_char c ∷ rfc1738_decode (d ∷ [])
rfc1738_decode (c ∷ d1 ∷ d2 ∷ s) =
    let escape = ((hex_value d1 * 16 + hex_value d2) % 256) ∷ rfc1738_decode s in
    let plain = decode_char c ∷ rfc1738_decode (d1 ∷ d2 ∷ s) in
    if c == b'%' && (isxdigit d1 && isxdigit d2) then escape else plain

url_check : ℕ → Bool
url_check c =
    if isalnum c
    then not (c == b'%') && decode_char c == c
    else isxdigit (hex (c / 16))
      && isxdigit (hex (c % 16))
      && (hex_value (hex (c / 16)) * 16 + hex_value (hex (c % 16))) % 256 == c

url_table : all_below 256 url_check ≡ true
unfolding all_below url_check isalnum isxdigit hex hex_value decode_char
url_table = refl

split_and : (x y : Bool) → (x && y) ≡ true → (x ≡ true) × (y ≡ true)
split_and x y h = ground arith

not_true_lem : (x : Bool) → not x ≡ true → x ≡ false
not_true_lem x h = ground arith

url_plain : (c : ℕ) → c < 256 → isalnum c ≡ true → ((c == b'%') ≡ false) × (decode_char c ≡ c)
unfolding url_check
url_plain c h e =
    let (p, q) = split_and _ _ (rw e at (all_below→ 256 url_check url_table c h)) in
    (not_true_lem _ p, ==→eq _ c q)

url_escape :
    (c : ℕ)
    → c < 256
    → isalnum c ≡ false
    → (isxdigit (hex (c / 16)) ≡ true)
      × (isxdigit (hex (c % 16)) ≡ true)
      × ((hex_value (hex (c / 16)) * 16 + hex_value (hex (c % 16))) % 256 ≡ c)
unfolding url_check
url_escape c h e =
    let (p, q2) = split_and _ _ (rw e at (all_below→ 256 url_check url_table c h)) in
    let (p1, q1) = split_and _ _ p in (p1, q1, ==→eq _ c q2)

decode-plain :
    (c : ℕ) (t : Bytes)
    → (c == b'%') ≡ false
    → rfc1738_decode (c ∷ t) ≡ decode_char c ∷ rfc1738_decode t
unfolding rfc1738_decode
decode-plain c [] h = refl
decode-plain c (d ∷ []) h = refl
decode-plain c (d ∷ d2 ∷ t) h = rw h

decode-escape :
    (d1 d2 : ℕ) (t : Bytes)
    → isxdigit d1 ≡ true
    → isxdigit d2 ≡ true
    → rfc1738_decode (b'%' ∷ d1 ∷ d2 ∷ t)
      ≡ ((hex_value d1 * 16 + hex_value d2) % 256) ∷ rfc1738_decode t
unfolding rfc1738_decode
decode-escape d1 d2 t h k = rw (h, k)

decode_char-plus : decode_char b'+' ≡ b' '
unfolding decode_char
decode_char-plus = refl

-- rfc1738_decode inverts rfc1738_encode on every text of bytes.
pub rfc1738_decode-rfc1738_encode :
    (s : Bytes) → All IsByte s → rfc1738_decode (rfc1738_encode s) ≡ s
unfolding rfc1738_encode
rfc1738_decode-rfc1738_encode [] v = unfold rfc1738_decode in refl
rfc1738_decode-rfc1738_encode (c ∷ s) v =
    let ih = rfc1738_decode-rfc1738_encode s v.1 in
    elim (Bool-cases (isalnum c)) [
      | inl e ↦ let (p, q) = url_plain c v.0 e in rw e (decode-plain c _ p ∙ rw (q, ih))
      | inr e ↦ elim (Bool-cases (c == b' ')) [
        | inl b ↦ rw (e, b) (decode-plain b'+' _ refl ∙ rw (decode_char-plus, ih, ==→eq c b' ' b))
        | inr b ↦
            let (p, q, r) = url_escape c v.0 e in rw (e, b) (decode-escape _ _ _ p q ∙ rw (r, ih))
      ]
    ]

hex_check : ℕ → Bool
hex_check c = isalnum (hex (c / 16)) && isalnum (hex (c % 16))

hex_table : all_below 256 hex_check ≡ true
unfolding all_below hex_check isalnum hex
hex_table = refl

-- What the encoder may write.
abbrev pub IsUrlChar : ℕ → Type 0
IsUrlChar c = (isalnum c || c == b'+' || c == b'%') ≡ true

plus_url : IsUrlChar b'+'
unfolding isalnum
plus_url = refl

percent_url : IsUrlChar b'%'
unfolding isalnum
percent_url = refl

-- For a text of bytes rfc1738_encode writes letters, digits, `+` and `%` only.
pub rfc1738_encode-IsUrlChar : (s : Bytes) → All IsByte s → All IsUrlChar (rfc1738_encode s)
unfolding rfc1738_encode hex_check
rfc1738_encode-IsUrlChar [] v = tt
rfc1738_encode-IsUrlChar (c ∷ s) v =
    let ih = rfc1738_encode-IsUrlChar s v.1 in
    elim (Bool-cases (isalnum c)) [
      | inl e ↦ rw e (rw e, ih)
      | inr e ↦ elim (Bool-cases (c == b' ')) [
        | inl b ↦ rw (e, b) (plus_url, ih)
        | inr b ↦
            let (p, q) =
              split_and (isalnum (hex (c / 16))) (isalnum (hex (c % 16)))
                (all_below→ 256 hex_check hex_table c v.0) in
            rw (e, b) (percent_url, (rw p, (rw q, ih)))
      ]
    ]
