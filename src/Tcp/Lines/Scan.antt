-- ===== src/Tcp/Lines/Scan.antt =====
-- Lines of a text, and the scanner of OnRead on each kind of byte.
use cpp_sockets_library.Prelude.{
  ℕ, ◌+◌, ◌<◌, ◌≤◌, ◌≡◌, ◌≢◌, refl, Bool, true, false, not, ◌&&◌, List, [], ◌∷◌, ◌++◌, ◌==◌, arith,
  if◌then◌else◌, Bytes, length, append-nil, All, Bool-cases, inl, inr,
}
use cpp_sockets_library.Tcp.Lines.{
  tcp_bufsize_read, Reader, start, is_crlf, c_string, add_bytes, flush, end_line, scan, on_read,
}

unfoldable pub flatten : List Bytes → Bytes
flatten [] = []
flatten (x ∷ xs) = x ++ flatten xs

-- The lines that end in `t`, after `acc`, and what is left behind the last one.
unfoldable pub split : ℕ → Bytes → Bytes → List Bytes × Bytes
split t acc [] = ([], acc)
split t acc (x ∷ xs) =
    let here = split t [] xs in
    let later = split t (acc ++ x ∷ []) xs in if x == t then (acc ∷ here.0, here.1) else later

-- A byte of a text: not zero, and CR or LF only as the end of a line.
abbrev pub IsText : ℕ → ℕ → Type 0
IsText t x = (x ≢ 0) × (is_crlf x ≡ true → x ≡ t)

-- No line gets longer than the limit; `k` bytes of the first are there.
abbrev pub Fits : ℕ → ℕ → ℕ → Bytes → Type 0
Fits t max k [] = k < max
Fits t max k (x ∷ xs) = if x == t then (k < max) × Fits t max 0 xs else Fits t max (k + 1) xs

-- After each chunk: in line protocol, with the bytes of the unfinished line at hand.
pub record IsReading (t : ℕ) (s : Reader) : Type 0 where
  pub on : s.line_protocol ≡ true
  pub skips : s.skip_c ≡ true → s.c ≡ t
  pub open_ : s.closing ≡ false

pub c_string_text : (t : ℕ) (s : Bytes) → All (IsText t) s → c_string s ≡ s
unfolding c_string
c_string_text t [] v = refl
c_string_text t (x ∷ s) v = ground (arith, c_string_text t s v.1)

pub add_bytes_fits :
    (max : ℕ) (bs : Bytes) (s : Reader)
    → length s.line + length bs < max
    → add_bytes max bs s ≡ record s { line = s.line ++ bs }
unfolding add_bytes
add_bytes_fits max [] s h = ground (arith, append-nil s.line)
add_bytes_fits max (b ∷ bs) s h = ground arith

pub ==-refl : (n : ℕ) → (n == n) ≡ true
==-refl n = ground arith

pub start-IsReading : (t c : ℕ) → IsReading t (start c)
unfolding start
start-IsReading t c = record { on = refl; skips = λ e. cc; open_ = refl }

pub All-parts {ℓ κ} :
    {A : Type ℓ} (P : A → Type κ) (xs ys : List A) → All P (xs ++ ys) → All P xs × All P ys
All-parts P [] ys h = (tt, h)
All-parts P (x ∷ xs) ys h = let (a, b) = All-parts P xs ys h.1 in ((h.0, a), b)

-- A chunk that OnRead does not pass over.
abbrev pub IsRead : Bytes → Type 0
IsRead chunk = length chunk ≤ tcp_bufsize_read

module _ (max : ℕ) (keeps : List Bytes → Bool) (s : Reader) where
  pub scan-end :
      (seg : Bytes) (b c : ℕ) (rest : Bytes)
      → is_crlf b ≡ true
      → (is_crlf c && not (c == b)) ≡ false
      → (end_line max keeps s seg b).line_protocol ≡ true
      → scan max keeps s seg (b ∷ c ∷ rest)
        ≡ scan max keeps (end_line max keeps s seg b) [] (c ∷ rest)
  unfolding scan
  scan-end seg b c rest e f g = rw (e, f, g)

  pub scan-plain :
      (seg : Bytes) (b c : ℕ) (rest : Bytes)
      → is_crlf b ≡ false
      → scan max keeps s seg (b ∷ c ∷ rest) ≡ scan max keeps s (seg ++ b ∷ []) (c ∷ rest)
  unfolding scan
  scan-plain seg b c rest e = rw e

  pub scan-last :
      (seg : Bytes) (b : ℕ)
      → scan max keeps s seg (b ∷ [])
        ≡ (if is_crlf b then end_line max keeps s seg b else flush max s (seg ++ b ∷ []))
  unfolding scan
  scan-last seg b = refl

  pub scan-nil : (seg : Bytes) → scan max keeps s seg [] ≡ flush max s seg
  unfolding scan
  scan-nil seg = refl

  pub on_read-scan :
      (b : ℕ) (rest : Bytes)
      → IsRead (b ∷ rest)
      → s.line_protocol ≡ true
      → (s.skip_c && is_crlf b && not (b == s.c)) ≡ false
      → on_read max keeps s (b ∷ rest) ≡ scan max keeps s [] (b ∷ rest)
  unfolding on_read
  on_read-scan b rest h e f = ground arith

-- What reading has done: lines delivered, and the unfinished one.
pub record Outcome (t : ℕ) (s s' : Reader) (r : List Bytes × Bytes) : Type 0 where
  pub lines : s'.lines ≡ s.lines ++ r.0
  pub line : s'.line ≡ r.1
  pub raw : s'.raw ≡ s.raw
  pub reading : IsReading t s'

pub Fits-now : (t max k : ℕ) (xs : Bytes) → Fits t max k xs → k < max
Fits-now t max k [] h = h
Fits-now t max k (x ∷ xs) h = elim (Bool-cases (x == t)) [
  | inl e ↦ (rw e at h).0
  | inr e ↦ let later = Fits-now t max (k + 1) xs (rw e at h) in omega arith
]
