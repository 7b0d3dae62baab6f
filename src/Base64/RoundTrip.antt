-- ===== src/Base64/RoundTrip.antt =====
-- decode inverts encode, with line breaks and without.
use mathlib.Core.List.{append_assoc, append-nil}
use Prim.Native.Nat.{bit_and}
use cpp_sockets_library.Prelude.{
  IsByte, ◌>>=◌, ℕ, zero, suc, ◌+◌, ◌*◌, ◌/◌, ◌%◌, ◌<◌, ◌≤◌, ◌≡◌, refl, ◌∙◌, sym, ap, Bool, true,
  not, ◌&&◌, some, ◌==◌, [], ◌∷◌, ◌++◌, arith, Bytes, length, length-append, drop, All, Bool-cases,
  inl, inr,
}
use cpp_sockets_library.Base64.{
  digit, is_newline, break_line, quad1, quad2, quad3, encode_loop, encode, char_at, skip_newlines,
  byte1, byte2, byte3, decode_quad, decode_loop, decode,
}
use cpp_sockets_library.Base64.Sextets.{
  hi6, lo2, hi4, lo4, hi2, lo6, up2, down4, up4, down2, up6, value-digit,
}

-- What encode_loop appends.
unfoldable pub encoded : Bool → ℕ → Bytes → Bytes
encoded crlf o [] = []
encoded crlf o (a ∷ []) = break_line crlf o [] ++ quad1 a
encoded crlf o (a ∷ b ∷ []) = break_line crlf o [] ++ quad2 a b
encoded crlf o (a ∷ b ∷ c ∷ s) = break_line crlf o [] ++ (quad3 a b c ++ encoded crlf (o + 4) s)

break_line-append :
    (crlf : Bool) (o : ℕ) (out : Bytes) → break_line crlf o out ≡ out ++ break_line crlf o []
unfolding break_line
break_line-append crlf o out = ground (arith, append-nil out)

pub encode_loop-encoded :
    (crlf : Bool) (o : ℕ) (out s : Bytes) → encode_loop crlf o out s ≡ out ++ encoded crlf o s
unfolding encode_loop encoded
encode_loop-encoded crlf o out [] = sym (append-nil out)
encode_loop-encoded crlf o out (a ∷ []) = rw (break_line-append crlf o out, append_assoc)
encode_loop-encoded crlf o out (a ∷ b ∷ []) = rw (break_line-append crlf o out, append_assoc)
encode_loop-encoded crlf o out (a ∷ b ∷ c ∷ s) =
    encode_loop-encoded crlf (o + 4) (break_line crlf o out ++ quad3 a b c) s
    ∙ rw (break_line-append crlf o out, append_assoc, append_assoc)

decode_three :
    (x y z w : ℕ) (t : Bytes)
    → x < 64
    → y < 64
    → z < 64
    → w < 64
    → decode_quad (digit x ∷ digit y ∷ digit z ∷ digit w ∷ t)
      ≡ some (byte1 x y ∷ byte2 y z ∷ byte3 z w ∷ [])
unfolding decode_quad char_at
decode_three x y z w t hx hy hz hw =
    let (vx, _, _) = value-digit x hx in
    let (vy, _, _) = value-digit y hy in
    let (vz, _, ez) = value-digit z hz in
    let (vw, _, ew) = value-digit w hw in rw (vx, vy, ez, vz, ew, vw)

decode_two :
    (x y z : ℕ) (t : Bytes)
    → x < 64
    → y < 64
    → z < 64
    → decode_quad (digit x ∷ digit y ∷ digit z ∷ b'=' ∷ t) ≡ some (byte1 x y ∷ byte2 y z ∷ [])
unfolding decode_quad char_at
decode_two x y z t hx hy hz =
    let (vx, _, _) = value-digit x hx in
    let (vy, _, _) = value-digit y hy in let (vz, _, ez) = value-digit z hz in rw (vx, vy, ez, vz)

decode_one :
    (x y : ℕ) (t : Bytes)
    → x < 64
    → y < 64
    → decode_quad (digit x ∷ digit y ∷ b'=' ∷ b'=' ∷ t) ≡ some (byte1 x y ∷ [])
unfolding decode_quad char_at
decode_one x y t hx hy =
    let (vx, _, _) = value-digit x hx in let (vy, _, _) = value-digit y hy in rw (vx, vy)

byte1_lem : (a r : ℕ) → IsByte a → r < 16 → byte1 (a / 4) (a % 4 * 16 + r) ≡ a
unfolding byte1
byte1_lem a r h k =
    rw (up2 (a / 4) (omega arith), down4 (a % 4 * 16 + r) (omega arith)) (omega arith)

byte2_lem : (a b r : ℕ) → IsByte b → r < 4 → byte2 (a % 4 * 16 + b / 16) (b % 16 * 4 + r) ≡ b
unfolding byte2
byte2_lem a b r h k =
    rw (up4 (a % 4 * 16 + b / 16) (omega arith), down2 (b % 16 * 4 + r) (omega arith)) (omega arith)

byte3_lem : (b c : ℕ) → IsByte c → byte3 (b % 16 * 4 + c / 64) (c % 64) ≡ c
unfolding byte3
byte3_lem b c h = rw (up6 (b % 16 * 4 + c / 64) (omega arith)) (omega arith)

quad3-decode :
    (a b c : ℕ) (t : Bytes)
    → IsByte a
    → IsByte b
    → IsByte c
    → decode_quad (quad3 a b c ++ t) ≡ some (a ∷ b ∷ c ∷ [])
unfolding quad3
quad3-decode a b c t ha hb hc =
    rw (hi6 a ha, lo2 a ha, hi4 b hb, lo4 b hb, hi2 c hc, lo6 c hc)
      (decode_three (a / 4) (a % 4 * 16 + b / 16) (b % 16 * 4 + c / 64) (c % 64) t (omega arith)
          (omega arith) (omega arith) (omega arith)
        ∙ rw (
          byte1_lem a (b / 16) ha (omega arith),
          byte2_lem a b (c / 64) hb (omega arith),
          byte3_lem b c hc,
        ))

quad2-decode : (a b : ℕ) → IsByte a → IsByte b → decode_quad (quad2 a b) ≡ some (a ∷ b ∷ [])
unfolding quad2
quad2-decode a b ha hb =
    let e : b % 16 * 4 + 0 ≡ b % 16 * 4 = omega arith in
    rw (hi6 a ha, lo2 a ha, hi4 b hb, lo4 b hb, ← e)
      (decode_two (a / 4) (a % 4 * 16 + b / 16) (b % 16 * 4 + 0) [] (omega arith) (omega arith)
          (omega arith)
        ∙ rw (byte1_lem a (b / 16) ha (omega arith), byte2_lem a b 0 hb (omega arith)))

quad1-decode : (a : ℕ) → IsByte a → decode_quad (quad1 a) ≡ some (a ∷ [])
unfolding quad1
quad1-decode a h =
    let e : a % 4 * 16 + 0 ≡ a % 4 * 16 = omega arith in
    rw (hi6 a h, lo2 a h, ← e)
      (decode_one (a / 4) (a % 4 * 16 + 0) [] (omega arith) (omega arith)
        ∙ rw (byte1_lem a 0 h (omega arith)))

is_newline-10 : is_newline 10 ≡ true
unfolding is_newline
is_newline-10 = refl

-- The encoder's line break, then a digit.
skip_break :
    (crlf : Bool) (o k : ℕ) (t : Bytes)
    → k < 64
    → skip_newlines (break_line crlf o [] ++ digit k ∷ t) ≡ digit k ∷ t
unfolding skip_newlines break_line
skip_break crlf o k t h =
    let (_, plain, _) = value-digit k h in
    elim (Bool-cases (crlf && not (o == 0) && o % 76 == 0)) [
      | inl e ↦ rw (e, is_newline-10, plain)
      | inr e ↦ rw (e, plain)
    ]

decode_round :
    (f : ℕ) (crlf : Bool) (o k : ℕ) (t out : Bytes)
    → k < 64
    → decode_loop (suc f) (break_line crlf o [] ++ digit k ∷ t) out
      ≡ (decode_quad (digit k ∷ t) >>= λ q. decode_loop f (drop 3 t) (out ++ q))
unfolding decode_loop
decode_round f crlf o k t out h = rw (skip_break crlf o k t h, decode_loop)

pub head-lt : (a : ℕ) → IsByte a → bit_and (a / 4) 0x3f < 64
head-lt a h = rw (hi6 a h) (omega arith)

loop-nil : (f : ℕ) (out : Bytes) → decode_loop (suc f) [] out ≡ some out
unfolding decode_loop skip_newlines
loop-nil f out = refl

decode_loop-quad1 :
    (f : ℕ) (crlf : Bool) (o a : ℕ) (out : Bytes)
    → IsByte a
    → decode_loop (suc (suc f)) (break_line crlf o [] ++ quad1 a) out ≡ some (out ++ a ∷ [])
unfolding quad1
decode_loop-quad1 f crlf o a out h =
    decode_round (suc f) crlf o _ _ out (head-lt a h)
    ∙ ap (λ q. q >>= λ q. decode_loop (suc f) [] (out ++ q)) (quad1-decode a h)
    ∙ loop-nil f _

decode_loop-quad2 :
    (f : ℕ) (crlf : Bool) (o a b : ℕ) (out : Bytes)
    → IsByte a
    → IsByte b
    → decode_loop (suc (suc f)) (break_line crlf o [] ++ quad2 a b) out ≡ some (out ++ a ∷ b ∷ [])
unfolding quad2
decode_loop-quad2 f crlf o a b out h k =
    decode_round (suc f) crlf o _ _ out (head-lt a h)
    ∙ ap (λ q. q >>= λ q. decode_loop (suc f) [] (out ++ q)) (quad2-decode a b h k)
    ∙ loop-nil f _

decode_loop-quad3 :
    (f : ℕ) (crlf : Bool) (o a b c : ℕ) (t out : Bytes)
    → IsByte a
    → IsByte b
    → IsByte c
    → decode_loop (suc f) (break_line crlf o [] ++ (quad3 a b c ++ t)) out
      ≡ decode_loop f t (out ++ a ∷ b ∷ c ∷ [])
unfolding quad3
decode_loop-quad3 f crlf o a b c t out h k l =
    decode_round f crlf o _ _ out (head-lt a h)
    ∙ ap (λ q. q >>= λ q. decode_loop f t (out ++ q)) (quad3-decode a b c t h k l)

decode_loop-encoded :
    (fuel : ℕ) (crlf : Bool) (o : ℕ) (s out : Bytes)
    → All IsByte s
    → length s < fuel
    → decode_loop fuel (encoded crlf o s) out ≡ some (out ++ s)
unfolding encoded
decode_loop-encoded zero crlf o s out v h = absurd (omega arith)
decode_loop-encoded (suc f) crlf o [] out v h = rw append-nil (loop-nil f out)
decode_loop-encoded (suc zero) crlf o (a ∷ s) out v h = absurd (omega arith)
decode_loop-encoded (suc (suc f)) crlf o (a ∷ []) out v h = decode_loop-quad1 f crlf o a out v.0
decode_loop-encoded (suc (suc f)) crlf o (a ∷ b ∷ []) out v h =
    decode_loop-quad2 f crlf o a b out v.0 v.1.0
decode_loop-encoded (suc (suc f)) crlf o (a ∷ b ∷ c ∷ s) out v h =
    decode_loop-quad3 (suc f) crlf o a b c _ out v.0 v.1.0 v.1.1.0
    ∙ decode_loop-encoded (suc f) crlf (o + 4) s (out ++ a ∷ b ∷ c ∷ []) v.1.1.1 (omega arith)
    ∙ rw append_assoc

-- Each three bytes give four characters at least.
length-encoded : (crlf : Bool) (o : ℕ) (s : Bytes) → length s ≤ length (encoded crlf o s)
unfolding encoded quad1 quad2 quad3
length-encoded crlf o [] = omega arith
length-encoded crlf o (a ∷ []) = omega (arith, length-append (break_line crlf o []) (quad1 a))
length-encoded crlf o (a ∷ b ∷ []) = omega (arith, length-append (break_line crlf o []) (quad2 a b))
length-encoded crlf o (a ∷ b ∷ c ∷ s) = omega (
  arith,
  length-append (break_line crlf o []) (quad3 a b c ++ encoded crlf (o + 4) s),
  length-encoded crlf (o + 4) s,
)

-- For every byte string, decode gives back what encode was given, with line breaks (`add_crlf`)
-- and without; it ends and reads nothing outside the string or the table.
pub decode-encode :
    (add_crlf : Bool) (s : Bytes) → All IsByte s → decode (encode add_crlf s) ≡ some s
unfolding decode encode
decode-encode crlf s v = rw (encode_loop-encoded crlf 0 [] s) (
    decode_loop-encoded (length (encoded crlf 0 s) + 1) crlf 0 s [] v
      (omega (arith, length-encoded crlf 0 s)))
