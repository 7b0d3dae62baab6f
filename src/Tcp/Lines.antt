-- ===== src/Tcp/Lines.antt =====
-- The line protocol of src/TcpSocket.cpp, OnRead(char *, size_t): bytes come in chunks, and
-- OnLine is called for each line. A line ends at CR or LF, and a pair of the two counts once.
-- `keeps` says, of the lines delivered so far, whether the last OnLine left the socket in line
-- protocol. A chunk of more than TCP_BUFSIZE_READ bytes is passed over.
pub mod Scan
pub mod Chunks
pub mod Pairs
use cpp_sockets_library.Prelude.{
  ℕ, ◌+◌, Bool, true, false, not, ◌&&◌, ◌||◌, List, [], ◌∷◌, ◌++◌, ltb, ◌==◌, if◌then◌else◌, Bytes,
  length,
}

-- TCP_BUFSIZE_READ
abbrev pub tcp_bufsize_read : ℕ
tcp_bufsize_read = 16400

pub record Reader : Type 0 where
  pub skip_c : Bool
  pub c : ℕ
  pub line : Bytes
  pub line_protocol : Bool
  pub closing : Bool
  pub lines : List Bytes
  pub raw : List Bytes

-- The state of a new socket after SetLineProtocol(true); `m_c` is not initialised.
pub start : ℕ → Reader
start c = record {
  skip_c = false;
  c = c;
  line = [];
  line_protocol = true;
  closing = false;
  lines = [];
  raw = [];
}

unfoldable pub is_crlf : ℕ → Bool
is_crlf b = b == 13 || b == 10

-- strlen stops at the first zero byte.
pub c_string : Bytes → Bytes
c_string [] = []
c_string (x ∷ s) = let rest = c_string s in if x == 0 then [] else x ∷ rest

-- `if (buf[x])`: the bytes since `x` are added to the line, if it stays below the limit.
pub add_bytes : ℕ → Bytes → Reader → Reader
add_bytes max [] s = s
add_bytes max (b ∷ bs) s =
    if ltb (length s.line + length (b ∷ bs)) max
    then record s { line = s.line ++ b ∷ bs }
    else record s { closing = true }

pub flush : ℕ → Reader → Bytes → Reader
unfolding add_bytes c_string
flush max s seg = add_bytes max (c_string seg) s

module _ (max : ℕ) (keeps : List Bytes → Bool) where
  -- The body of the inner loop up to the test of the byte behind the end of line `b`.
  pub end_line : Reader → Bytes → ℕ → Reader
  unfolding flush
  end_line s seg b =
      let s' = flush max s seg in
      let lines' = s'.lines ++ s'.line ∷ [] in
      record s' { lines = lines'; line_protocol = keeps lines'; skip_c = true; c = b; line = [] }

  -- `if (i < n) OnRawData(buf + i, n - i);`
  pub hand_over : Reader → Bytes → Reader
  hand_over s [] = s
  hand_over s (b ∷ rest) = record s { raw = s.raw ++ (b ∷ rest) ∷ [] }

  -- The outer loop: `seg` is buf[x] to buf[i - 1], and the last argument is buf[i] to buf[n - 1].
  pub scan : Reader → Bytes → Bytes → Reader
  scan s seg [] = flush max s seg
  scan s seg (b ∷ []) = if is_crlf b then end_line s seg b else flush max s (seg ++ b ∷ [])
  scan s seg (b ∷ c ∷ rest) =
      let plain = scan s (seg ++ b ∷ []) (c ∷ rest) in
      let ended = end_line s seg b in
      let paired = record ended { skip_c = false } in
      let on_pair = scan paired [] rest in
      let on_single = scan ended [] (c ∷ rest) in
      if not (is_crlf b)
      then plain
      else if is_crlf c && not (c == b)
      then (if ended.line_protocol then on_pair else hand_over paired rest)
      else (if ended.line_protocol then on_single else hand_over ended (c ∷ rest))

  pub on_read : Reader → Bytes → Reader
  on_read s [] = s
  on_read s (b ∷ rest) =
      if ltb tcp_bufsize_read (length (b ∷ rest))
      then s
      else if not s.line_protocol
      then hand_over s (b ∷ rest)
      else if s.skip_c && is_crlf b && not (b == s.c)
      then scan (record s { skip_c = false }) [] rest
      else scan s [] (b ∷ rest)

  pub read_all : Reader → List Bytes → Reader
  read_all s [] = s
  read_all s (chunk ∷ chunks) = read_all (on_read s chunk) chunks
