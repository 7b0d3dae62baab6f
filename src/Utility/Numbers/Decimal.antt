-- ===== src/Utility/Numbers/Decimal.antt =====
-- Decimal texts: printing and reading back.
use native.Mathlib.Nat.{pow-suc}
use cpp_sockets_library.Prelude.{
  ℕ, zero, suc, ◌+◌, ◌-◌, ◌*◌, ◌/◌, ◌%◌, ◌^◌, ◌<◌, ◌≡◌, refl, ◌∙◌, sym, some, [], ◌∷◌, ◌++◌,
  append-nil, append_assoc, lt→ltb, ◌==◌, if◌then◌else◌, Bytes, arith, Bool-cases, inl, inr, ==→eq,
  false,
}
use cpp_sockets_library.Prelude.Int.{negsuc}
use cpp_sockets_library.Utility.Numbers.{
  digits_loop, or_zero, bigint2string, bigint2string_signed, char_word, atoi64_loop, atoi64,
}

-- The digits of a number, most significant first; none for 0.
decimal : ℕ → ℕ → Bytes
decimal zero n = []
decimal (suc f) n =
    let rest = decimal f (n / 10) ++ (n % 10 + 48) ∷ [] in if n == 0 then [] else rest

digits_loop-decimal :
    (k f n : ℕ) (str : Bytes) → n < 10 ^ k → k < f → digits_loop f n str ≡ some (decimal f n ++ str)
unfolding digits_loop decimal
digits_loop-decimal k zero n str h lt = absurd (omega arith)
digits_loop-decimal zero (suc f) n str h lt = ground arith
digits_loop-decimal (suc k) (suc f) n str h lt = elim (Bool-cases (n == 0)) [
  | inl e ↦ rw e
  | inr e ↦ rw (
    e,
    digits_loop-decimal k f (n / 10) ((n % 10 + 48) ∷ str) (omega (arith, pow-suc 10 k))
        (omega arith),
    append_assoc,
  )
]

atoi64_loop-append :
    (xs : Bytes) (l c : ℕ)
    → atoi64_loop l (xs ++ c ∷ [])
      ≡ (atoi64_loop l xs * 10 + char_word (2 ^ 64) c + (2 ^ 64 - 48)) % 2 ^ 64
unfolding atoi64_loop
atoi64_loop-append [] l c = refl
atoi64_loop-append (x ∷ xs) l c = atoi64_loop-append xs _ c

digit_step :
    (n : ℕ)
    → n < 2 ^ 64
    → (n / 10 * 10 + char_word (2 ^ 64) (n % 10 + 48) + (2 ^ 64 - 48)) % 2 ^ 64 ≡ n
unfolding char_word
digit_step n h = rw (lt→ltb (n % 10 + 48) 128 (omega arith)) (omega arith)

atoi64_loop-nil : (l : ℕ) → atoi64_loop l [] ≡ l
unfolding atoi64_loop
atoi64_loop-nil l = refl

atoi64_loop-decimal :
    (k f n : ℕ) → n < 10 ^ k → k < f → n < 2 ^ 64 → atoi64_loop 0 (decimal f n) ≡ n
unfolding decimal
atoi64_loop-decimal k zero n h lt w = absurd (omega arith)
atoi64_loop-decimal zero (suc f) n h lt w = let e : n ≡ 0 = omega arith in rw e (atoi64_loop-nil 0)
atoi64_loop-decimal (suc k) (suc f) n h lt w = elim (Bool-cases (n == 0)) [
  | inl e ↦ rw e (atoi64_loop-nil 0 ∙ sym (==→eq _ _ e))
  | inr e ↦
      let front =
        atoi64_loop-decimal k f (n / 10) (omega (arith, pow-suc 10 k)) (omega arith)
          (omega arith) in
      rw (e, atoi64_loop-append (decimal f (n / 10)) 0 (n % 10 + 48), front) (digit_step n w)
]

decimal-zero : (f : ℕ) → decimal f 0 ≡ []
unfolding decimal
decimal-zero zero = refl
decimal-zero (suc f) = refl

or_zero-concat : (xs ys : Bytes) (c : ℕ) → or_zero (some (xs ++ c ∷ ys)) ≡ some (xs ++ c ∷ ys)
unfolding or_zero
or_zero-concat [] ys c = refl
or_zero-concat (x ∷ xs) ys c = refl

or_zero-decimal :
    (f n : ℕ) → (n == 0) ≡ false → or_zero (some (decimal (suc f) n)) ≡ some (decimal (suc f) n)
unfolding decimal
or_zero-decimal f n e = rw e (or_zero-concat (decimal f (n / 10)) [] (n % 10 + 48))

bigint2string-decimal :
    (l : ℕ) → l < 2 ^ 64 → (l == 0) ≡ false → bigint2string l ≡ some (decimal 21 l)
unfolding bigint2string
bigint2string-decimal l h e =
    rw (digits_loop-decimal 20 21 l [] (omega arith) (omega arith), append-nil)
      (or_zero-decimal 20 l e)

-- A 64-bit number printed by bigint2string is read back by atoi64.
pub atoi64-bigint2string :
    (l : ℕ) → l < 2 ^ 64 → (s : Bytes) × (bigint2string l ≡ some s) × (atoi64 s ≡ l)
atoi64-bigint2string l h = elim (Bool-cases (l == 0)) [
  | inl e ↦
      let z = ==→eq _ _ e in
      (
        b'0' ∷ [],
        rw z (unfold bigint2string digits_loop or_zero in refl),
        unfold atoi64 atoi64_loop char_word in sym z,
      )
  | inr e ↦ (
    decimal 21 l,
    bigint2string-decimal l h e,
    unfold atoi64 in atoi64_loop-decimal 20 21 l (omega arith) (omega arith) h,
  )
]

-- For a negative number above -2^63 bigint2string(int64_t) gives the digits of the absolute
-- value and behind them the `-`.
pub bigint2string_signed-negative :
    (n : ℕ)
    → suc n < 2 ^ 63
    → (s : Bytes) × (bigint2string (suc n) ≡ some s)
      × (bigint2string_signed (negsuc n) ≡ some (s ++ b'-' ∷ []))
bigint2string_signed-negative n h = (
  decimal 21 (suc n),
  bigint2string-decimal (suc n) (omega arith) (ground arith),
  unfold bigint2string_signed in
      rw (digits_loop-decimal 20 21 (suc n) (b'-' ∷ []) (omega arith) (omega arith))
        (or_zero-concat (decimal 21 (suc n)) [] b'-'),
)
