-- ===== src/Base64/Variants.antt =====
-- The other entry points of the codec agree with encode and decode.
use Prim.Native.Nat.{}
use cpp_sockets_library.Prelude.{
  ◌>>=◌, IsByte, ℕ, zero, suc, ◌+◌, ◌-◌, ◌*◌, ◌/◌, ◌%◌, ◌<◌, ◌≤◌, ◌≡◌, refl, ◌∙◌, ap, Bool, true,
  false, not, Option, some, none, ◌==◌, List, [], ◌∷◌, ◌++◌, arith, if◌then◌else◌, Bytes, length,
  length-append, drop, All,
}
use cpp_sockets_library.Base64.{
  digit, break_line, quad1, quad2, quad3, quad_of, encode_loop, encode, encode_reads, char_at,
  skip_newlines, decode_quad, decode_loop, decode, decode_to_loop, decode_to, decode_length,
}
use cpp_sockets_library.Base64.Sextets.{lo4, hi2, lo6, value-digit}
use cpp_sockets_library.Base64.RoundTrip.{encoded, encode_loop-encoded}

-- A file's reads of three bytes, the last one shorter.
pub reads_of : Bytes → List Bytes
reads_of [] = []
reads_of (a ∷ []) = (a ∷ []) ∷ []
reads_of (a ∷ b ∷ []) = (a ∷ b ∷ []) ∷ []
reads_of (a ∷ b ∷ c ∷ s) = (a ∷ b ∷ c ∷ []) ∷ reads_of s

encode_reads-encode_loop :
    (add_crlf : Bool) (o : ℕ) (out s : Bytes)
    → encode_reads add_crlf o out (reads_of s) ≡ encode_loop add_crlf o out s
unfolding encode_reads encode_loop reads_of quad_of
encode_reads-encode_loop crlf o out [] = refl
encode_reads-encode_loop crlf o out (a ∷ []) = refl
encode_reads-encode_loop crlf o out (a ∷ b ∷ []) = refl
encode_reads-encode_loop crlf o out (a ∷ b ∷ c ∷ s) =
    encode_reads-encode_loop crlf (o + 4) (break_line crlf o out ++ quad3 a b c) s

-- A file whose reads are full but the last encodes as its bytes do in memory.
pub encode_reads-encode :
    (add_crlf : Bool) (s : Bytes) → encode_reads add_crlf 0 [] (reads_of s) ≡ encode add_crlf s
unfolding encode
encode_reads-encode crlf s = encode_reads-encode_loop crlf 0 [] s

abbrev pub report : Bool → Option Bytes → Option (Bytes × ℕ)
report stores none = none
report stores (some out) = some (if stores then out else [], length out)

store_append :
    (stores : Bool) (out q : Bytes)
    → (if stores then (if stores then out else []) ++ q else (if stores then out else []))
      ≡ (if stores then out ++ q else [])
store_append true out q = refl
store_append false out q = refl

report_step :
    (stores : Bool) (fuel : ℕ) (t out : Bytes) (q : Option Bytes)
    → ((out' : Bytes)
        → decode_to_loop stores fuel t (if stores then out' else []) (length out')
          ≡ report stores (decode_loop fuel t out'))
    → (q >>= λ q.
        decode_to_loop stores fuel t
          (if stores then (if stores then out else []) ++ q else (if stores then out else []))
          (length out + length q))
      ≡ report stores (q >>= λ q. decode_loop fuel t (out ++ q))
report_step stores fuel t out none ih = refl
report_step stores fuel t out (some q) ih =
    rw (store_append stores out q, ← length-append out q) (ih (out ++ q))

decode_to_loop-decode_loop :
    (stores : Bool) (fuel : ℕ) (s out : Bytes)
    → decode_to_loop stores fuel s (if stores then out else []) (length out)
      ≡ report stores (decode_loop fuel s out)
unfolding decode_to_loop decode_loop
decode_to_loop-decode_loop stores zero s out = refl
decode_to_loop-decode_loop stores (suc f) s out =
    go (decode_to_loop-decode_loop stores f) (skip_newlines s) refl
  where
    go :
        ((t out' : Bytes)
          → decode_to_loop stores f t (if stores then out' else []) (length out')
            ≡ report stores (decode_loop f t out'))
        → (r : Bytes) → skip_newlines s ≡ r
        → decode_to_loop stores (suc f) s (if stores then out else []) (length out)
          ≡ report stores (decode_loop (suc f) s out)
    go ih [] e = rw (e, decode_to_loop, decode_loop)
    go ih (c ∷ t) e =
        rw (e, decode_to_loop, decode_loop)
          (report_step stores f (drop 4 (c ∷ t)) out (decode_quad (c ∷ t)) (ih (drop 4 (c ∷ t))))

-- The decoder into a raw buffer stores what the decoder into a string appends, reports its
-- length, and stores nothing into a null buffer; it fails where that one fails.
pub decode_to-decode : (stores : Bool) (s : Bytes) → decode_to stores s ≡ report stores (decode s)
unfolding decode_to decode
decode_to-decode true s = decode_to_loop-decode_loop true (length s + 1) s []
decode_to-decode false s = decode_to_loop-decode_loop false (length s + 1) s []

-- The last two characters of a text for `n` bytes.
abbrev Tail : Bytes → ℕ → Type 0
Tail e n =
    (c d : ℕ) × (char_at e (length e - 2) ≡ some c)
    × (char_at e (length e - 1) ≡ some d)
    × ((c == b'=') ≡ (n % 3 == 1))
    × ((d == b'=') ≡ not (n % 3 == 0))

char_at-append : (xs ys : Bytes) (k : ℕ) → char_at (xs ++ ys) (length xs + k) ≡ char_at ys k
unfolding char_at
char_at-append [] ys k = ap (char_at ys) (omega arith)
char_at-append (x ∷ xs) ys k =
    let e : length (x ∷ xs) + k ≡ suc (length xs + k) = omega arith in rw e (char_at-append xs ys k)

length-plain : (o : ℕ) (s : Bytes) → length (encoded false o s) ≡ 4 * ((length s + 2) / 3)
unfolding encoded quad1 quad2 quad3 break_line
length-plain o [] = omega arith
length-plain o (a ∷ []) = omega arith
length-plain o (a ∷ b ∷ []) = omega arith
length-plain o (a ∷ b ∷ c ∷ s) = omega (arith, length-plain (o + 4) s)

Tail-quad :
    (a b c : ℕ) (e : Bytes) (n : ℕ)
    → 2 ≤ length e
    → Tail e n
    → Tail (quad3 a b c ++ e) (suc (suc (suc n)))
unfolding quad3
Tail-quad a b c e n long (x, y, ex, ey, px, py) =
    let at = char_at-append (quad3 a b c) e in
    (
      x,
      y,
      ap (char_at (quad3 a b c ++ e)) (omega arith) ∙ at (length e - 2) ∙ ex,
      ap (char_at (quad3 a b c ++ e)) (omega arith) ∙ at (length e - 1) ∙ ey,
      px ∙ ap (λ k. k == 1) (omega arith),
      py ∙ ap (λ k. not (k == 0)) (omega arith),
    )

encoded-Tail :
    (o : ℕ) (s : Bytes) → All IsByte s → 0 < length s → Tail (encoded false o s) (length s)
unfolding encoded break_line
encoded-Tail o [] v h = absurd (omega arith)
encoded-Tail o (a ∷ []) v h =
    (b'=', b'=', unfold quad1 char_at in refl, unfold quad1 char_at in refl, refl, refl)
encoded-Tail o (a ∷ b ∷ []) v h =
    let small : b % 16 * 4 < 64 = omega arith in
    let (_, _, plain) = value-digit (b % 16 * 4) small in
    (
      digit (b % 16 * 4),
      b'=',
      unfold quad2 char_at in ap (λ k. some (digit k)) (lo4 b v.1.0),
      unfold quad2 char_at in refl,
      plain,
      refl,
    )
encoded-Tail o (a ∷ b ∷ c ∷ []) v h =
    let (_, _, plain) = value-digit (b % 16 * 4 + c / 64) (omega (arith, v.1.1.0)) in
    let (_, _, plain') = value-digit (c % 64) (omega arith) in
    (
      digit (b % 16 * 4 + c / 64),
      digit (c % 64),
      unfold quad3 char_at in rw (lo4 b v.1.0, hi2 c v.1.1.0),
      unfold quad3 char_at in rw (lo6 c v.1.1.0),
      plain,
      plain',
    )
encoded-Tail o (a ∷ b ∷ c ∷ d ∷ s) v h =
    Tail-quad a b c _ (length (d ∷ s)) (omega (arith, length-plain (o + 4) (d ∷ s)))
      (encoded-Tail (o + 4) (d ∷ s) v.1.1.1 (omega arith))

decode_length-Tail :
    (e : Bytes) (n : ℕ) → 0 < n → length e ≡ 4 * ((n + 2) / 3) → Tail e n → decode_length e ≡ some n
unfolding decode_length
decode_length-Tail e n pos long (c, d, ec, ed, pc, pd) =
    let some_text : (length e == 0) ≡ false = ground arith in
    let whole : (length e % 4 == 0) ≡ true = ground arith in
    rw (some_text, whole, ec, ed, pc, pd) (ap some (ground (arith, long)))

-- Of a text that bytes were encoded to without line breaks decode_length gives the number of the
-- bytes.
pub decode_length-encode :
    (s : Bytes) → All IsByte s → decode_length (encode false s) ≡ some (length s)
unfolding encode
decode_length-encode s v = rw (encode_loop-encoded false 0 [] s) (from s v)
  where
    from : (s : Bytes) → All IsByte s → decode_length (encoded false 0 s) ≡ some (length s)
    from [] v = unfold decode_length encoded in refl
    from (a ∷ s) v =
        decode_length-Tail _ _ (omega arith) (length-plain 0 (a ∷ s))
          (encoded-Tail 0 (a ∷ s) v (omega arith))
