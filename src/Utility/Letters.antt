-- ===== src/Utility/Letters.antt =====
-- Utility::ToLower, ToUpper, isipv4, ToUtf8 and FromUtf8 of src/Utility.cpp. A char is its byte.
use Prim.Native.Nat.{bit_and, bit_or}
use cpp_sockets_library.Prelude.{
  IsByte, ℕ, ◌+◌, ◌-◌, ◌*◌, ◌/◌, ◌%◌, ◌<◌, ◌≡◌, ◌∙◌, refl, Bool, true, false, not, ◌&&◌, ◌||◌, [],
  ◌∷◌, leb, ◌==◌, if◌then◌else◌, Bytes, length, arith, All, Bool-cases, inl, inr, ==→eq, ap,
}
use cpp_sockets_library.Prelude.Text.{all_below, all_below→}

pub lower : ℕ → ℕ
lower c = if leb b'A' c && leb c b'Z' then bit_or c 32 else c

pub upper : ℕ → ℕ
upper c = if leb b'a' c && leb c b'z' then c - 32 else c

pub to_lower : Bytes → Bytes
to_lower [] = []
to_lower (c ∷ s) = lower c ∷ to_lower s

pub to_upper : Bytes → Bytes
to_upper [] = []
to_upper (c ∷ s) = upper c ∷ to_upper s

-- The loop of isipv4 with the dots counted so far.
pub isipv4_loop : ℕ → Bytes → Bool
isipv4_loop dots [] = dots == 3
isipv4_loop dots (c ∷ s) =
    let rest = isipv4_loop (if c == b'.' then dots + 1 else dots) s in
    if c == b'.' || (leb b'0' c && leb c b'9') then rest else false

pub isipv4 : Bytes → Bool
isipv4 s = isipv4_loop 0 s

-- `str[i] >> 6` as a byte: a signed char from 128 on is negative, and the shift keeps the sign.
pub shift6 : Bool → ℕ → ℕ
shift6 is_signed c = if is_signed && leb 128 c then c / 64 + 252 else c / 64

-- ToUtf8 where `char` is signed or not.
pub to_utf8 : Bool → Bytes → Bytes
to_utf8 is_signed [] = []
to_utf8 is_signed (c ∷ s) =
    if bit_and c 0x80 == 0x80
    then bit_or (shift6 is_signed c) 0xc0 ∷ bit_or (bit_and c 0x3f) 0x80 ∷ to_utf8 is_signed s
    else c ∷ to_utf8 is_signed s

pub from_utf8 : Bytes → Bytes
from_utf8 [] = []
from_utf8 (a ∷ []) = a ∷ []
from_utf8 (a ∷ b ∷ s) =
    let pair = ((bit_and a 0x1f * 64 + bit_and b 0x3f) % 256) ∷ from_utf8 s in
    let single = a ∷ from_utf8 (b ∷ s) in
    if bit_and a 0xe0 == 0xc0 && bit_and b 0xc0 == 0x80 then pair else single

check : (n : ℕ) (f g : ℕ → ℕ) → all_below n (λ x. f x == g x) ≡ true → (x : ℕ) → x < n → f x ≡ g x
check n f g table x h = ==→eq _ _ (all_below→ n (λ x. f x == g x) table x h)

lower-upper : (c : ℕ) → c < 256 → lower (upper c) ≡ lower c
unfolding all_below lower upper
lower-upper = check 256 _ _ refl

lower-lower : (c : ℕ) → c < 256 → lower (lower c) ≡ lower c
unfolding all_below lower
lower-lower = check 256 _ _ refl

-- ToLower forgets the case of a text of bytes: it gives the same for the text, for its ToUpper,
-- and for what ToLower gave before.
pub to_lower-to_upper :
    (s : Bytes)
    → All IsByte s
    → (to_lower (to_upper s) ≡ to_lower s) × (to_lower (to_lower s) ≡ to_lower s)
unfolding to_lower to_upper
to_lower-to_upper [] v = (refl, refl)
to_lower-to_upper (c ∷ s) v =
    let (up, low) = to_lower-to_upper s v.1 in
    (rw (lower-upper c v.0, up), rw (lower-lower c v.0, low))

pub dots_in : Bytes → ℕ
dots_in [] = 0
dots_in (c ∷ s) = (if c == b'.' then 1 else 0) + dots_in s

abbrev pub IsDotOrDigit : ℕ → Type 0
IsDotOrDigit c = (c == b'.' || (leb b'0' c && leb c b'9')) ≡ true

isipv4_loop_iff :
    (s : Bytes) (dots : ℕ)
    → (isipv4_loop dots s ≡ true → All IsDotOrDigit s × (dots + dots_in s ≡ 3))
      × (All IsDotOrDigit s → dots + dots_in s ≡ 3 → isipv4_loop dots s ≡ true)
unfolding isipv4_loop dots_in
isipv4_loop_iff [] dots = (λ h. (tt, ground arith), λ _ h. ground arith)
isipv4_loop_iff (c ∷ s) dots =
    let (to, from) = isipv4_loop_iff s (if c == b'.' then dots + 1 else dots) in
    (λ h. ground arith, λ v h. ground (arith, from v.1))

-- isipv4 accepts exactly the texts of digits and three dots, empty groups and groups above 255
-- included.
pub isipv4_iff :
    (s : Bytes)
    → (isipv4 s ≡ true → All IsDotOrDigit s × (dots_in s ≡ 3))
      × (All IsDotOrDigit s → dots_in s ≡ 3 → isipv4 s ≡ true)
unfolding isipv4
isipv4_iff s =
    let (to, from) = isipv4_loop_iff s 0 in
    (λ h. let (a, b) = to h in (a, omega arith), λ a b. from a (omega arith))

utf8_check : ℕ → Bool
utf8_check c =
    let a = bit_or (shift6 false c) 0xc0 in
    let b = bit_or (bit_and c 0x3f) 0x80 in
    if bit_and c 0x80 == 0x80
    then bit_and a 0xe0 == 0xc0
      && bit_and b 0xc0 == 0x80
      && (bit_and a 0x1f * 64 + bit_and b 0x3f) % 256 == c
    else not (bit_and c 0xe0 == 0xc0)

utf8_table : all_below 256 utf8_check ≡ true
unfolding all_below utf8_check shift6
utf8_table = refl

from_utf8-single :
    (a : ℕ) (t : Bytes) → (bit_and a 0xe0 == 0xc0) ≡ false → from_utf8 (a ∷ t) ≡ a ∷ from_utf8 t
unfolding from_utf8
from_utf8-single a [] h = refl
from_utf8-single a (b ∷ t) h = rw h

from_utf8-pair :
    (a b : ℕ) (t : Bytes)
    → (bit_and a 0xe0 == 0xc0) ≡ true
    → (bit_and b 0xc0 == 0x80) ≡ true
    → from_utf8 (a ∷ b ∷ t) ≡ ((bit_and a 0x1f * 64 + bit_and b 0x3f) % 256) ∷ from_utf8 t
unfolding from_utf8
from_utf8-pair a b t h k = rw (h, k)

not_true_lem : (x : Bool) → not x ≡ true → x ≡ false
not_true_lem x h = ground arith

split_and : (x y : Bool) → (x && y) ≡ true → (x ≡ true) × (y ≡ true)
split_and x y h = ground arith

utf8_high :
    (c : ℕ)
    → c < 256
    → (bit_and c 0x80 == 0x80) ≡ true
    → let a = bit_or (shift6 false c) 0xc0 in
      let b = bit_or (bit_and c 0x3f) 0x80 in
      ((bit_and a 0xe0 == 0xc0) ≡ true)
      × ((bit_and b 0xc0 == 0x80) ≡ true)
      × ((bit_and a 0x1f * 64 + bit_and b 0x3f) % 256 ≡ c)
unfolding utf8_check
utf8_high c h e =
    let (p, q2) = split_and _ _ (rw e at (all_below→ 256 utf8_check utf8_table c h)) in
    let (p1, q1) = split_and _ _ p in (p1, q1, ==→eq _ c q2)

utf8_low : (c : ℕ) → c < 256 → (bit_and c 0x80 == 0x80) ≡ false → (bit_and c 0xe0 == 0xc0) ≡ false
unfolding utf8_check
utf8_low c h e = not_true_lem _ (rw e at (all_below→ 256 utf8_check utf8_table c h))

-- Where `char` is unsigned, FromUtf8 inverts ToUtf8 on every text of bytes.
pub from_utf8-to_utf8 : (s : Bytes) → All IsByte s → from_utf8 (to_utf8 false s) ≡ s
unfolding to_utf8
from_utf8-to_utf8 [] v = unfold from_utf8 in refl
from_utf8-to_utf8 (c ∷ s) v = elim (Bool-cases (bit_and c 0x80 == 0x80)) [
  | inl e ↦
      let (p, q1, q2) = utf8_high c v.0 e in
      rw e (from_utf8-pair _ _ _ p q1 ∙ rw (q2, from_utf8-to_utf8 s v.1))
  | inr e ↦ rw e (from_utf8-single c _ (utf8_low c v.0 e) ∙ ap (◌∷◌ c) (from_utf8-to_utf8 s v.1))
]

pub high_bytes : Bytes → ℕ
high_bytes [] = 0
high_bytes (c ∷ s) = (if bit_and c 0x80 == 0x80 then 1 else 0) + high_bytes s

signed_check : ℕ → Bool
signed_check c =
    if bit_and c 0x80 == 0x80
    then not (bit_and (bit_or (shift6 true c) 0xc0) 0xe0 == 0xc0)
      && not (bit_and (bit_or (bit_and c 0x3f) 0x80) 0xe0 == 0xc0)
    else not (bit_and c 0xe0 == 0xc0)

signed_table : all_below 256 signed_check ≡ true
unfolding all_below signed_check shift6
signed_table = refl

signed_high :
    (c : ℕ)
    → c < 256
    → (bit_and c 0x80 == 0x80) ≡ true
    → ((bit_and (bit_or (shift6 true c) 0xc0) 0xe0 == 0xc0) ≡ false)
      × ((bit_and (bit_or (bit_and c 0x3f) 0x80) 0xe0 == 0xc0) ≡ false)
unfolding signed_check
signed_high c h e =
    let (p, q) = split_and _ _ (rw e at (all_below→ 256 signed_check signed_table c h)) in
    (not_true_lem _ p, not_true_lem _ q)

-- Where `char` is signed, a text of bytes comes back from ToUtf8 and FromUtf8 longer by one byte
-- for each of its bytes that is not ASCII.
pub length-from_utf8-to_utf8 :
    (s : Bytes) → All IsByte s → length (from_utf8 (to_utf8 true s)) ≡ length s + high_bytes s
unfolding to_utf8 high_bytes
length-from_utf8-to_utf8 [] v = unfold from_utf8 in refl
length-from_utf8-to_utf8 (c ∷ s) v = elim (Bool-cases (bit_and c 0x80 == 0x80)) [
  | inl e ↦
      let (p, q) = signed_high c v.0 e in
      rw
        (
          e,
          from_utf8-single _ (bit_or (bit_and c 0x3f) 0x80 ∷ to_utf8 true s) p,
          from_utf8-single _ (to_utf8 true s) q,
        )
        (omega (arith, length-from_utf8-to_utf8 s v.1))
  | inr e ↦
      rw (e, from_utf8-single c (to_utf8 true s) (utf8_low c v.0 e))
        (omega (arith, length-from_utf8-to_utf8 s v.1))
]
