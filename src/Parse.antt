-- ===== src/Parse.antt =====
-- src/Parse.cpp: a text and a position in it, which every call moves on. A char is its byte; a
-- zero byte ends every loop, as the end of the text does.
pub mod Spans
pub mod Words
use cpp_sockets_library.Prelude.{
  ℕ, zero, suc, ◌+◌, ◌-◌, Bool, true, false, not, ◌&&◌, ◌||◌, List, [], ◌∷◌, ◌++◌, ltb, leb, ◌==◌,
  if◌then◌else◌, Bytes, length, take, drop,
}

pub record Parse : Type 0 where
  pub the_str : Bytes
  pub splits : Bytes
  pub ord : Bytes
  pub the_ptr : ℕ
  pub breakchar : ℕ
  pub enable : ℕ
  pub disable : ℕ
  pub nospace : Bool
  pub quote : Bool

-- The constructors: Parse(s, sp) and Parse(s, sp, nospace).
unfoldable pub new_parse : Bytes → Bytes → Bool → Parse
new_parse s sp nospace = record {
  the_str = s;
  splits = sp;
  ord = [];
  the_ptr = 0;
  breakchar = 0;
  enable = 0;
  disable = 0;
  nospace = nospace;
  quote = false;
}

-- The text from the position on.
abbrev pub ahead : Parse → Bytes
ahead p = drop p.the_ptr p.the_str

abbrev pub first : Bytes → ℕ
first [] = 0
first (c ∷ s) = c

-- The macro C
unfoldable pub here : Parse → ℕ
here p = first (ahead p)

unfoldable pub any_eq : ℕ → Bytes → Bool
any_eq c [] = false
any_eq c (x ∷ s) = x == c || any_eq c s

unfoldable pub issplit : Parse → ℕ → Bool
unfolding any_eq
issplit p c = any_eq c p.splits

-- `C == ' ' || C == 9 || C == 13 || C == 10 || issplit(C)`
unfoldable pub is_space : Parse → ℕ → Bool
is_space p c = c == 32 || c == 9 || c == 13 || c == 10 || issplit p c

-- How far `while (C && f(C)) pa_the_ptr++;` goes.
unfoldable pub span : (ℕ → Bool) → Bytes → ℕ
span f [] = 0
span f (c ∷ s) = let more = span f s in if not (c == 0) && f c then suc more else 0

abbrev pub move : ℕ → Parse → Parse
move n p = record p { the_ptr = p.the_ptr + n }

-- `pa_ord = (x < pa_the_str.size()) ? pa_the_str.substr(x, n) : "";`
abbrev pub set_ord : ℕ → ℕ → Parse → Parse
set_ord x n p = record p {
  ord = (if ltb x (length p.the_str) then take n (drop x p.the_str) else []);
}

pub getsplit : Parse → Parse
getsplit p =
    if here p == b'='
    then set_ord p.the_ptr 1 (move 1 p)
    else (let p1 = move (span (issplit p) (ahead p)) p in
        let p2 = move (span (λ c. not (issplit p c) && not (c == b'=')) (ahead p1)) p1 in
        let p3 = (if p1.the_ptr == p2.the_ptr && here p2 == b'=' then move 1 p2 else p2) in
        set_ord p1.the_ptr (p3.the_ptr - p1.the_ptr) p3)

-- Where the inner loop of getword is: outside a quoted part, inside one, or, where `pa_nospace`
-- is set, behind a char at which a quote is passed over.
pub data Mode : Type 0 where
  outside inside passing : Mode

-- `pa_breakchar && C == pa_disable` and `pa_breakchar && C == pa_enable`
unfoldable pub disabled_after : Parse → Bool → ℕ → Bool
disabled_after p disabled c =
    if not (p.breakchar == 0) && c == p.enable
    then false
    else if not (p.breakchar == 0) && c == p.disable
    then true
    else disabled

-- `C != pa_breakchar || !pa_breakchar || disabled`
unfoldable pub is_open : Parse → Bool → ℕ → Bool
is_open p disabled c = not (c == p.breakchar) || p.breakchar == 0 || disabled

-- The condition of the inner loop, with the separators `sep`.
unfoldable pub in_word : Parse → (ℕ → Bool) → Bool → ℕ → Bool
in_word p sep disabled c = not (c == 0) && not (sep c) && is_open p disabled c

unfoldable pub word_span : Parse → (ℕ → Bool) → Mode → Bool → Bytes → ℕ
word_span p sep mode disabled [] = 0
word_span p sep inside disabled (c ∷ s) =
    let on = word_span p sep inside disabled s in
    let out = word_span p sep outside disabled s in
    if c == 0 then 0 else if c == b'"' then suc out else suc on
word_span p sep outside disabled (c ∷ s) =
    let disabled' = disabled_after p disabled c in
    let quoted = word_span p sep inside disabled' s in
    let on = word_span p sep (if p.nospace then passing else outside) disabled' s in
    if not (in_word p sep disabled c)
    then 0
    else if p.quote && c == b'"'
    then suc quoted
    else suc on
word_span p sep passing disabled (c ∷ s) =
    let disabled' = disabled_after p disabled c in
    let passed = word_span p sep outside disabled s in
    let on = word_span p sep passing disabled' s in
    if p.quote && c == b'"'
    then suc passed
    else if not (in_word p sep disabled c)
    then 0
    else suc on

-- The branches of getword.
pub word_nospace : Parse → Parse
word_nospace p =
    let p1 = move (span (issplit p) (ahead p)) p in
    let p2 = move (word_span p (issplit p) outside false (ahead p1)) p1 in
    set_ord p1.the_ptr (p2.the_ptr - p1.the_ptr) p2

unfoldable pub word_spaced : Parse → Parse
word_spaced p =
    let p1 = move (span (is_space p) (ahead p)) p in
    let p2 = move (word_span p (is_space p) outside false (ahead p1) + 1) p1 in
    set_ord p1.the_ptr (p2.the_ptr - p1.the_ptr - 1) p2

-- `C == pa_breakchar && pa_breakchar`
unfoldable pub at_break : Parse → Bool
at_break p = here p == p.breakchar && not (p.breakchar == 0)

unfoldable pub getword : Parse → Parse
getword p =
    if p.nospace
    then word_nospace p
    else if at_break p
    then set_ord p.the_ptr (p.the_ptr + 1 - p.the_ptr - 1) (move 1 p)
    else word_spaced p

-- getword(s, fill, l), which ends where `fill` is not empty; on fuel.
pub pad : ℕ → Bytes → Bytes → ℕ → Bytes → Bytes
pad zero s fill l w = s
pad (suc fuel) s fill l w =
    let more = pad fuel (s ++ fill) fill l w in if ltb (length s + length w) l then more else s ++ w

pub getword_filled : Parse → Bytes → ℕ → Parse × Bytes
getword_filled p fill l = let p' = getword p in (p', pad (l + 1) [] fill l p'.ord)

-- `C == ' ' || C == 9 || issplit(C)`
pub is_blank : Parse → ℕ → Bool
is_blank p c = c == 32 || c == 9 || issplit p c

pub getrest : Parse → Parse × Bytes
getrest p =
    let p' = move (span (is_blank p) (ahead p)) p in
    (p', if ltb p'.the_ptr (length p'.the_str) then ahead p' else [])

pub setbreak : ℕ → Parse → Parse
setbreak c p = record p { breakchar = c }

pub wordlen_spaced : Parse → ℕ
wordlen_spaced p =
    let p1 = move (span (is_space p) (ahead p)) p in
    let n =
      span (λ c. not (is_space p c) && (not (c == p.breakchar) || p.breakchar == 0)) (ahead p1) in
    if n == 0 && at_break p1 then 1 else n

-- The position is put back at the end.
pub getwordlen : Parse → ℕ
getwordlen p = if at_break p then 1 else wordlen_spaced p

-- strlen
pub strlen : Bytes → ℕ
strlen s = span (λ _. true) s

pub getrestlen : Parse → ℕ
getrestlen p = strlen (ahead (move (span (is_blank p) (ahead p)) p))

-- `if (C == c) pa_the_ptr++;`
pub skip_char : ℕ → Parse → Parse
skip_char c p = if here p == c then move 1 p else p

pub getline : Parse → Parse
getline p =
    let p1 = move (span (λ c. not (c == 13) && not (c == 10)) (ahead p)) p in
    skip_char 10 (skip_char 13 (set_ord p.the_ptr (p1.the_ptr - p.the_ptr) p1))
