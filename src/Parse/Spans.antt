-- ===== src/Parse/Spans.antt =====
-- How far the loops of Parse go.
use cpp_sockets_library.Prelude.{
  ℕ, zero, suc, ◌+◌, ◌≤◌, ◌≡◌, ◌≢◌, ◌⊎◌, inl, inr, refl, sym, ap, ◌∙◌, Bool, true, false, not, ◌&&◌,
  [], ◌∷◌, ltb, ◌==◌, Bytes, length, take, drop, All, arith, Bool-cases, ltb_false→le,
}
use cpp_sockets_library.Parse.{Parse, first, span, set_ord}

drop-nil : (n : ℕ) → drop {A = ℕ} n [] ≡ []
drop-nil zero = refl
drop-nil (suc n) = refl

at_count : (s : Bytes) (m n : ℕ) → m ≡ n → drop m s ≡ drop n s
at_count s m n e = ap (λ k. drop k s) e

pub drop-add : (a b : ℕ) (s : Bytes) → drop (a + b) s ≡ drop b (drop a s)
drop-add zero b s = at_count s (0 + b) b (omega arith)
drop-add (suc a) b [] = drop-nil (suc a + b) ∙ sym (drop-nil b)
drop-add (suc a) b (x ∷ s) =
    at_count (x ∷ s) (suc a + b) (suc (a + b)) (omega arith) ∙ drop-add a b s

pub drop_past : (a : ℕ) (s : Bytes) → length s ≤ a → drop a s ≡ []
drop_past zero [] h = refl
drop_past zero (x ∷ s) h = absurd (omega arith)
drop_past (suc a) [] h = refl
drop_past (suc a) (x ∷ s) h = drop_past a s (omega arith)

take-nil : (n : ℕ) → take {A = ℕ} n [] ≡ []
take-nil zero = refl
take-nil (suc n) = refl

-- A byte that does not end the loop with the test `f`.
abbrev pub Passes : (ℕ → Bool) → ℕ → Type 0
Passes f c = (c ≢ 0) × (f c ≡ true)

pub span-length : (f : ℕ → Bool) (s : Bytes) → span f s ≤ length s
unfolding span
span-length f [] = omega arith
span-length f (c ∷ s) = ground (arith, span-length f s)

pub span-Passes : (f : ℕ → Bool) (s : Bytes) → All (Passes f) (take (span f s) s)
unfolding span
span-Passes f [] = tt
span-Passes f (c ∷ s) = elim (Bool-cases (not (c == 0) && f c)) [
  | inl h ↦ rw h ((ground arith, ground arith), span-Passes f s)
  | inr h ↦ rw h tt
]

pub span_stops :
    (f : ℕ → Bool) (s : Bytes) → let c = first (drop (span f s) s) in (c ≡ 0) ⊎ (f c ≡ false)
unfolding span
span_stops f [] = inl refl
span_stops f (c ∷ s) = elim (Bool-cases (not (c == 0) && f c)) [
  | inl h ↦ rw h (span_stops f s)
  | inr h ↦ rw h (ground arith)
]

pub set_ord-take : (x n : ℕ) (p : Parse) → (set_ord x n p).ord ≡ take n (drop x p.the_str)
set_ord-take x n p = elim (Bool-cases (ltb x (length p.the_str))) [
  | inl h ↦ rw h
  | inr h ↦ rw (h, drop_past x p.the_str (ltb_false→le _ _ h)) (sym (take-nil n))
]
