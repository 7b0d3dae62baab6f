-- ===== src/Parse/Words.antt =====
-- Lines and words of a text: what a call returns, and how far it moves.
use cpp_sockets_library.Prelude.{
  ◌<◌, ℕ, zero, suc, ◌+◌, ◌-◌, ◌≡◌, ◌≢◌, ◌⊎◌, inl, inr, refl, sym, ap, subst, ◌∙◌, Bool, true,
  false, not, ◌&&◌, ◌||◌, [], ◌∷◌, ◌++◌, ltb, ◌==◌, if◌then◌else◌, Bytes, length, take, drop,
  take-drop, length-take, All, arith, Bool-cases, ltb_false→le, ==→eq,
}
use cpp_sockets_library.Parse.{
  Parse, ahead, first, here, is_space, is_blank, span, move, set_ord, outside, disabled_after,
  is_open, in_word, word_span, word_spaced, at_break, getword, wordlen_spaced, getwordlen, getrest,
  strlen, getrestlen, skip_char, getline,
}
use cpp_sockets_library.Parse.Spans.{
  drop-add, drop_past, Passes, span-length, span-Passes, span_stops, set_ord-take,
}

-- What stands between a line and the next: nothing at the end of the text, CR, LF or CR LF.
pub data LineEnd : Bytes → Bytes → Type 0 where
  at_end : {s : Bytes} → first s ≡ 0 → LineEnd [] s
  cr : {s : Bytes} → first s ≢ b'\n' → LineEnd (b'\r' ∷ []) s
  lf : {s : Bytes} → LineEnd (b'\n' ∷ []) s
  cr_lf : {s : Bytes} → LineEnd (b'\r' ∷ b'\n' ∷ []) s

abbrev pub in_line : ℕ → Bool
in_line c = not (c == 13) && not (c == 10)

-- The two tests behind the loop of getline, on the text that is left.
pub skip_end : Bytes → Bytes
skip_end s =
    let s' = (if first s == 13 then drop 1 s else s) in if first s' == 10 then drop 1 s' else s'

skip_lf-LineEnd :
    (s : Bytes)
    → (e : Bytes) × (b'\r' ∷ s ≡ e ++ (if first s == 10 then drop 1 s else s))
      × LineEnd e (if first s == 10 then drop 1 s else s)
skip_lf-LineEnd s = elim (Bool-cases (first s == 10)) [
  | inl h ↦ rw h (b'\r' ∷ b'\n' ∷ [], ap (◌∷◌ b'\r') (head_is s h), cr_lf)
  | inr h ↦ rw h (b'\r' ∷ [], refl, cr (ground arith))
]
  where
    head_is : (s : Bytes) → (first s == 10) ≡ true → s ≡ b'\n' ∷ drop 1 s
    head_is [] h = absurd (ground arith)
    head_is (x ∷ s) h = ap (λ c. c ∷ s) (==→eq x 10 h)

skip_end-LineEnd :
    (s : Bytes)
    → (first s ≡ 0) ⊎ (in_line (first s) ≡ false)
    → (e : Bytes) × (s ≡ e ++ skip_end s) × LineEnd e (skip_end s)
unfolding skip_end
skip_end-LineEnd [] h = ([], refl, at_end refl)
skip_end-LineEnd (x ∷ s) h = elim (Bool-cases (x == 13)) [
  | inl r ↦ rw (==→eq x 13 r) (skip_lf-LineEnd s)
  | inr r ↦ elim (Bool-cases (x == 10)) [
    | inl n ↦ rw (r, n) (b'\n' ∷ [], ap (λ c. c ∷ s) (==→eq x 10 n), lf)
    | inr n ↦ rw (r, n) ([], refl, at_end (ground arith))
  ]
]

skip_char-ord : (c : ℕ) (p : Parse) → (skip_char c p).ord ≡ p.ord
unfolding skip_char
skip_char-ord c p = elim (Bool-cases (here p == c)) [ inl h ↦ rw h | inr h ↦ rw h ]

ahead-skip_char :
    (c : ℕ) (p : Parse)
    → ahead (skip_char c p) ≡ (if first (ahead p) == c then drop 1 (ahead p) else ahead p)
unfolding skip_char here
ahead-skip_char c p = elim (Bool-cases (first (ahead p) == c)) [
  | inl h ↦ rw h (drop-add p.the_ptr 1 p.the_str)
  | inr h ↦ rw h
]

-- The state of getline before the line's end is skipped.
abbrev taken : Parse → Parse
taken p = let n = span in_line (ahead p) in set_ord p.the_ptr (p.the_ptr + n - p.the_ptr) (move n p)

getline-taken : (p : Parse) → getline p ≡ skip_char 10 (skip_char 13 (taken p))
unfolding getline
getline-taken p = refl

getline-take : (p : Parse) → (getline p).ord ≡ take (span in_line (ahead p)) (ahead p)
getline-take p =
    let n = span in_line (ahead p) in
    ap (λ (q : Parse). q.ord) (getline-taken p)
    ∙ skip_char-ord 10 (skip_char 13 (taken p))
    ∙ skip_char-ord 13 (taken p)
    ∙ set_ord-take p.the_ptr (p.the_ptr + n - p.the_ptr) (move n p)
    ∙ ap (λ k. take k (ahead p)) (omega arith)

ahead-getline : (p : Parse) → ahead (getline p) ≡ skip_end (drop (span in_line (ahead p)) (ahead p))
unfolding skip_end
ahead-getline p = rw (
  getline-taken p,
  ahead-skip_char 10 (skip_char 13 (taken p)),
  ahead-skip_char 13 (taken p),
  drop-add p.the_ptr (span in_line (ahead p)) p.the_str,
)

-- getline takes the text up to the next CR, LF or zero byte, moves behind the line's end, CR LF
-- counting as one, and loses no byte: the text was the line, its end, and what is ahead then.
pub getline-LineEnd :
    (p : Parse)
    → let p' = getline p in
      (e : Bytes) × (ahead p ≡ p'.ord ++ (e ++ ahead p'))
      × LineEnd e (ahead p')
      × All (Passes in_line) p'.ord
getline-LineEnd p =
    let s = ahead p in
    let (e, whole, is) = skip_end-LineEnd (drop (span in_line s) s) (span_stops in_line s) in
    (
      e,
      rw (getline-take p, ahead-getline p, ← whole) (sym (take-drop (span in_line s) s)),
      rw (ahead-getline p) is,
      rw (getline-take p) (span-Passes in_line s),
    )

word_span-span :
    (p : Parse) (sep : ℕ → Bool) (s : Bytes)
    → p.nospace ≡ false
    → p.quote ≡ false
    → p.breakchar ≡ 0
    → word_span p sep outside false s ≡ span (λ c. not (sep c)) s
unfolding word_span span disabled_after in_word is_open
word_span-span p sep [] n q b = refl
word_span-span p sep (c ∷ s) n q b = rw (q, n, b) (ground (arith, word_span-span p sep s n q b))

plain_test :
    (p : Parse) (s : Bytes)
    → p.breakchar ≡ 0
    → span (λ c. not (is_space p c) && (not (c == p.breakchar) || p.breakchar == 0)) s
      ≡ span (λ c. not (is_space p c)) s
unfolding span
plain_test p [] b = refl
plain_test p (c ∷ s) b = ground (arith, plain_test p s b)

word_spaced-take :
    (p : Parse)
    → p.nospace ≡ false
    → p.quote ≡ false
    → p.breakchar ≡ 0
    → let s = drop (span (is_space p) (ahead p)) (ahead p) in
      (word_spaced p).ord ≡ take (span (λ c. not (is_space p c)) s) s
unfolding word_spaced
word_spaced-take p n q b =
    let k = span (is_space p) (ahead p) in
    let w = word_span p (is_space p) outside false (drop (p.the_ptr + k) p.the_str) in
    let s = drop (p.the_ptr + k) p.the_str in
    set_ord-take (p.the_ptr + k) (p.the_ptr + k + (w + 1) - (p.the_ptr + k) - 1)
      (move (w + 1) (move k p))
    ∙ ap (λ m. take m s) (omega arith ∙ word_span-span p (is_space p) s n q b)
    ∙ rw (drop-add p.the_ptr k p.the_str)

wordlen_spaced-span :
    (p : Parse)
    → p.breakchar ≡ 0
    → wordlen_spaced p
      ≡ span (λ c. not (is_space p c)) (drop (span (is_space p) (ahead p)) (ahead p))
unfolding wordlen_spaced at_break
wordlen_spaced-span p b =
    let k = span (is_space p) (ahead p) in
    let s = drop (p.the_ptr + k) p.the_str in
    let plain = plain_test p s b in
    let e = drop-add p.the_ptr k p.the_str in
    ground (arith, plain, ap (span (λ c. not (is_space p c))) e)

no_break : (p : Parse) → p.breakchar ≡ 0 → at_break p ≡ false
unfolding at_break
no_break p b = ground arith

getword-spaced :
    (p : Parse) → p.nospace ≡ false → p.breakchar ≡ 0 → (getword p).ord ≡ (word_spaced p).ord
unfolding getword
getword-spaced p n b = ground (arith, no_break p b)

-- Where pa_nospace is not set and there is no break character and no quoting, getwordlen is the
-- length of the word that getword takes next, and the word is free of spaces, separators and
-- zero bytes.
pub getwordlen-getword :
    (p : Parse)
    → p.nospace ≡ false
    → p.quote ≡ false
    → p.breakchar ≡ 0
    → (length (getword p).ord ≡ getwordlen p)
      × All (Passes (λ c. not (is_space p c))) (getword p).ord
unfolding getwordlen
getwordlen-getword p n q b =
    let s = drop (span (is_space p) (ahead p)) (ahead p) in
    let f : ℕ → Bool = λ c. not (is_space p c) in
    let word = getword-spaced p n b ∙ word_spaced-take p n q b in
    let len : getwordlen p ≡ span f s = ground (arith, no_break p b, wordlen_spaced-span p b) in
    (
      ap length word ∙ length-take (span f s) s (span-length f s) ∙ sym len,
      subst (All (Passes f)) (sym word) (span-Passes f s),
    )

strlen_lem : (s : Bytes) → All (λ c. c ≢ 0) s → span (λ _. true) s ≡ length s
unfolding span
strlen_lem [] v = refl
strlen_lem (c ∷ s) v = ground (arith, strlen_lem s v.1)

All-drop : (n : ℕ) (s : Bytes) → All (λ c. c ≢ 0) s → All (λ c. c ≢ 0) (drop n s)
All-drop zero s v = v
All-drop (suc n) [] v = tt
All-drop (suc n) (c ∷ s) v = All-drop n s v.1

-- For a text with no zero byte, getrestlen is the length of what getrest gives, and getrest leaves
-- that ahead.
pub getrestlen-getrest :
    (p : Parse)
    → All (λ c. c ≢ 0) p.the_str
    → ((getrest p).1 ≡ ahead (getrest p).0) × (getrestlen p ≡ length (getrest p).1)
unfolding getrest getrestlen strlen
getrestlen-getrest p v =
    let q = move (span (is_blank p) (ahead p)) p in
    let len = strlen_lem (ahead q) (All-drop q.the_ptr p.the_str v) in
    elim (Bool-cases (ltb q.the_ptr (length p.the_str))) [
      | inl h ↦ rw h (refl, len)
      | inr h ↦
          let e = drop_past q.the_ptr p.the_str (ltb_false→le _ _ h) in
          rw h (sym e, len ∙ ap length e)
    ]

word_spaced_moves :
    (p : Parse)
    → ((word_spaced p).the_str ≡ p.the_str)
      × ((word_spaced p).nospace ≡ p.nospace)
      × ((word_spaced p).breakchar ≡ p.breakchar)
      × (p.the_ptr < (word_spaced p).the_ptr)
      × (0 < length (word_spaced p).ord → p.the_ptr < length p.the_str)
unfolding word_spaced
word_spaced_moves p = (refl, refl, refl, omega arith, λ h. ground arith)

-- Every call moves on, and a word is taken inside the text only.
pub getword_moves :
    (p : Parse)
    → p.nospace ≡ false
    → p.breakchar ≡ 0
    → ((getword p).the_str ≡ p.the_str)
      × ((getword p).nospace ≡ false)
      × ((getword p).breakchar ≡ 0)
      × (p.the_ptr < (getword p).the_ptr)
      × (0 < length (getword p).ord → p.the_ptr < length p.the_str)
getword_moves p n b =
    let e : getword p ≡ word_spaced p = unfold getword in ground (arith, no_break p b) in
    let (s, n', b', m, w) = word_spaced_moves p in rw e (s, n' ∙ n, b' ∙ b, m, w)
