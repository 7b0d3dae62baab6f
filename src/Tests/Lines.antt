-- ===== src/Tests/Lines.antt =====
-- Two lines in three chunks, and a pair of line ends that is cut.
use cpp_sockets_library.Prelude.{ℕ, ◌≡◌, ◌≢◌, refl, true, false, List, [], ◌∷◌, Bytes, All, arith}
use cpp_sockets_library.Tcp.Lines.{Reader, start, read_all, is_crlf}
use cpp_sockets_library.Tcp.Lines.Scan.{flatten, split, IsText, Fits}
use cpp_sockets_library.Tcp.Lines.Chunks.{unsplit, read_all-lines}
use cpp_sockets_library.Tcp.Lines.Pairs.{IsWord, read_all_loses_end}

abbrev chunks : List Bytes
chunks = (b'a' ∷ b'b' ∷ []) ∷ (b'\n' ∷ b'c' ∷ []) ∷ (b'\n' ∷ b'd' ∷ []) ∷ []

abbrev stream_bytes : Bytes
stream_bytes = b'a' ∷ b'b' ∷ b'\n' ∷ b'c' ∷ b'\n' ∷ b'd' ∷ []

is_text : (x : ℕ) → x ≢ 0 → x ≢ b'\r' → IsText b'\n' x
unfolding is_crlf
is_text x z r = (z, λ h. ground arith)

stream-IsText : All (IsText b'\n') (flatten chunks)
unfolding flatten
stream-IsText = (
  is_text b'a' (omega arith) (omega arith),
  (
    is_text b'b' (omega arith) (omega arith),
    (
      is_text b'\n' (omega arith) (omega arith),
      (
        is_text b'c' (omega arith) (omega arith),
        (is_text b'\n' (omega arith) (omega arith), (is_text b'd' (omega arith) (omega arith), tt)),
      ),
    ),
  ),
)

stream-Fits : Fits b'\n' 100 0 (flatten chunks)
unfolding flatten
stream-Fits = (omega arith, (omega arith, omega arith))

lf_ends : is_crlf b'\n' ≡ true
lf_ends = unfold is_crlf in refl

read_all-lines_example :
    let s = read_all 100 (λ _. true) (start 0) chunks in
    (s.lines ≡ (split b'\n' [] (flatten chunks)).0)
    × (s.line ≡ (split b'\n' [] (flatten chunks)).1)
    × (unsplit b'\n' s.lines s.line ≡ flatten chunks)
    × (s.closing ≡ false)
read_all-lines_example =
    read_all-lines b'\n' 100 0 (λ _. true) chunks (λ _. refl) lf_ends
      (omega arith, (omega arith, (omega arith, tt))) stream-IsText stream-Fits

-- After a line that ended in CR at the end of a chunk.
abbrev cut : Reader
cut = record {
  skip_c = true;
  c = b'\r';
  line = [];
  line_protocol = true;
  closing = false;
  lines = [];
  raw = [];
}

is_word : (x : ℕ) → x ≢ 0 → x ≢ b'\r' → x ≢ b'\n' → IsWord x
unfolding is_crlf
is_word x z r n = (z, ground arith)

read_all_loses_end_example :
    let s' = read_all 100 (λ _. true) cut ((b'a' ∷ b'b' ∷ []) ∷ (b'\n' ∷ []) ∷ []) in
    (s'.lines ≡ []) × (s'.line ≡ b'a' ∷ b'b' ∷ [])
read_all_loses_end_example =
    read_all_loses_end 100 (λ _. true) cut b'a' (b'b' ∷ []) b'\n' (omega arith) refl refl lf_ends
      (omega arith)
      (
        is_word b'a' (omega arith) (omega arith) (omega arith),
        (is_word b'b' (omega arith) (omega arith) (omega arith), tt),
      )
      (omega arith)
