-- ===== src/Json/Escapes.antt =====
-- Which strings the escapes of src/Json.cpp preserve.
use cpp_sockets_library.Prelude.{
  ℕ, ◌≡◌, ◌∙◌, refl, false, [], ◌∷◌, ◌==◌, Bytes, arith, All, Bool-cases, inl, inr, ==→eq, ap,
}
use cpp_sockets_library.Json.{escape, unescape, encode, decode}

unescape-other :
    (c k x : ℕ) (s : Bytes) → (x == b'\\') ≡ false → unescape c k (x ∷ s) ≡ x ∷ unescape c k s
unfolding unescape
unescape-other c k x [] h = refl
unescape-other c k x (y ∷ s) h = rw h

unescape-pair : (c k : ℕ) (s : Bytes) → unescape c k (b'\\' ∷ k ∷ s) ≡ c ∷ unescape c k s
unfolding unescape
unescape-pair c k s = ground arith

-- Another escape is left as it is.
unescape-foreign :
    (c k j : ℕ) (s : Bytes)
    → (j == k) ≡ false
    → (j == b'\\') ≡ false
    → unescape c k (b'\\' ∷ j ∷ s) ≡ b'\\' ∷ j ∷ unescape c k s
unfolding unescape
unescape-foreign c k j [] h n = rw h
unescape-foreign c k j (y ∷ s) h n = rw (h, n)

abbrev pub NoBackslash : ℕ → Type 0
NoBackslash x = (x == b'\\') ≡ false

escape-none : (s : Bytes) → All NoBackslash s → escape b'\\' b'\\' s ≡ s
unfolding escape
escape-none [] v = refl
escape-none (x ∷ s) v = rw (v.0, escape-none s v.1)

unescape-none : (c k : ℕ) (s : Bytes) → All NoBackslash s → unescape c k s ≡ s
unescape-none c k [] v = unfold unescape in refl
unescape-none c k (x ∷ s) v = unescape-other c k x s v.0 ∙ ap (◌∷◌ x) (unescape-none c k s v.1)

abbrev esc_r : Bytes → Bytes
esc_r s = escape b'\r' b'r' s

abbrev esc_n : Bytes → Bytes
esc_n s = escape b'\n' b'n' s

abbrev esc_q : Bytes → Bytes
esc_q s = escape b'"' b'"' s

undo_q :
    (s : Bytes) → All NoBackslash s → unescape b'"' b'"' (esc_q (esc_n (esc_r s))) ≡ esc_n (esc_r s)
unfolding escape
undo_q [] v = unfold unescape in refl
undo_q (x ∷ s) v =
    let ih = undo_q s v.1 in
    elim (Bool-cases (x == b'\r')) [
      | inl r ↦ rw r (unescape-foreign b'"' b'"' b'r' _ refl refl ∙ ap (λ t. b'\\' ∷ b'r' ∷ t) ih)
      | inr r ↦ elim (Bool-cases (x == b'\n')) [
        | inl n ↦
            rw (r, n) (unescape-foreign b'"' b'"' b'n' _ refl refl ∙ ap (λ t. b'\\' ∷ b'n' ∷ t) ih)
        | inr n ↦ elim (Bool-cases (x == b'"')) [
          | inl q ↦ rw (r, n, q) (unescape-pair b'"' b'"' _ ∙ rw (ih, ==→eq x b'"' q))
          | inr q ↦ rw (r, n, q) (unescape-other b'"' b'"' x _ v.0 ∙ ap (◌∷◌ x) ih)
        ]
      ]
    ]

undo_r : (s : Bytes) → All NoBackslash s → unescape b'\r' b'r' (esc_n (esc_r s)) ≡ esc_n s
unfolding escape
undo_r [] v = unfold unescape in refl
undo_r (x ∷ s) v =
    let ih = undo_r s v.1 in
    elim (Bool-cases (x == b'\r')) [
      | inl r ↦ rw (r, ==→eq x b'\r' r) (unescape-pair b'\r' b'r' _ ∙ ap (◌∷◌ b'\r') ih)
      | inr r ↦ elim (Bool-cases (x == b'\n')) [
        | inl n ↦
            rw (r, n) (unescape-foreign b'\r' b'r' b'n' _ refl refl ∙ ap (λ t. b'\\' ∷ b'n' ∷ t) ih)
        | inr n ↦ rw (r, n) (unescape-other b'\r' b'r' x _ v.0 ∙ ap (◌∷◌ x) ih)
      ]
    ]

undo_n : (s : Bytes) → All NoBackslash s → unescape b'\n' b'n' (esc_n s) ≡ s
unfolding escape
undo_n [] v = unfold unescape in refl
undo_n (x ∷ s) v =
    let ih = undo_n s v.1 in
    elim (Bool-cases (x == b'\n')) [
      | inl n ↦ rw n (unescape-pair b'\n' b'n' _ ∙ rw (ih, ==→eq x b'\n' n))
      | inr n ↦ rw n (unescape-other b'\n' b'n' x _ v.0 ∙ ap (◌∷◌ x) ih)
    ]

-- A string with no backslash survives the escapes, with its quotes and line ends.
pub decode-encode_string : (s : Bytes) → All NoBackslash s → decode (encode s) ≡ s
unfolding decode encode
decode-encode_string s v =
    rw (escape-none s v, undo_q s v, undo_r s v, undo_n s v) (unescape-none b'\\' b'\\' s v)

unescape-single :
    (c k y : ℕ) (s : Bytes)
    → (y == k) ≡ false
    → unescape c k (b'\\' ∷ y ∷ s) ≡ b'\\' ∷ unescape c k (y ∷ s)
unfolding unescape
unescape-single c k y s h = rw h

escaped :
    (s : Bytes)
    → All NoBackslash s
    → encode (b'\\' ∷ b'r' ∷ s) ≡ b'\\' ∷ b'\\' ∷ b'r' ∷ esc_q (esc_n (esc_r s))
unfolding encode escape
escaped s v = ap (λ t. b'\\' ∷ b'\\' ∷ b'r' ∷ esc_q (esc_n (esc_r t))) (escape-none s v)

-- A text of a backslash, an `r` and a rest with no backslash comes back from encode and decode
-- as a backslash, a carriage return and the rest: decode takes the second half of the escaped
-- backslash for the escape of a carriage return.
pub decode-encode_backslash :
    (s : Bytes) → All NoBackslash s → decode (encode (b'\\' ∷ b'r' ∷ s)) ≡ b'\\' ∷ b'\r' ∷ s
unfolding decode
decode-encode_backslash s v =
    ap
      (λ t. unescape b'\\' b'\\' (unescape b'\n' b'n' (unescape b'\r' b'r' (unescape b'"' b'"' t))))
      (escaped s v)
    ∙ ap (λ t. unescape b'\\' b'\\' (unescape b'\n' b'n' (unescape b'\r' b'r' t)))
        (unescape-single b'"' b'"' b'\\' _ refl
          ∙ ap (◌∷◌ b'\\') (
              unescape-foreign b'"' b'"' b'r' _ refl refl
              ∙ ap (λ t. b'\\' ∷ b'r' ∷ t) (undo_q s v)))
    ∙ ap (λ t. unescape b'\\' b'\\' (unescape b'\n' b'n' t))
        (unescape-single b'\r' b'r' b'\\' _ refl
          ∙ ap (◌∷◌ b'\\') (unescape-pair b'\r' b'r' _ ∙ ap (◌∷◌ b'\r') (undo_r s v)))
    ∙ ap (unescape b'\\' b'\\') (
        unescape-single b'\n' b'n' b'\r' _ refl
        ∙ ap (◌∷◌ b'\\') (unescape-other b'\n' b'n' b'\r' _ refl ∙ ap (◌∷◌ b'\r') (undo_n s v)))
    ∙ unescape-single b'\\' b'\\' b'\r' s refl
    ∙ ap (◌∷◌ b'\\')
        (unescape-other b'\\' b'\\' b'\r' s refl ∙ ap (◌∷◌ b'\r') (unescape-none b'\\' b'\\' s v))
