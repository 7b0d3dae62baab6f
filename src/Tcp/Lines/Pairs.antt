-- ===== src/Tcp/Lines/Pairs.antt =====
-- The second byte of a pair of line ends, when the pair is cut by a chunk's border.
use cpp_sockets_library.Prelude.{
  ℕ, ◌+◌, ◌<◌, ◌≡◌, ◌≢◌, refl, ◌∙◌, sym, ap, Bool, true, false, List, [], ◌∷◌, ◌++◌, arith, Bytes,
  length, append-nil, append_assoc, All,
}
use cpp_sockets_library.Tcp.Lines.{
  Reader, is_crlf, c_string, add_bytes, flush, scan, on_read, read_all,
}
use cpp_sockets_library.Tcp.Lines.Scan.{
  add_bytes_fits, scan-plain, scan-last, scan-nil, on_read-scan, IsRead,
}

-- Text with no end of line.
abbrev pub IsWord : ℕ → Type 0
IsWord x = (x ≢ 0) × (is_crlf x ≡ false)

module _ (max : ℕ) (keeps : List Bytes → Bool) where
  scan-word :
      (w seg : Bytes) (s : Reader) → All IsWord w → scan max keeps s seg w ≡ flush max s (seg ++ w)
  scan-word [] seg s v = scan-nil max keeps s seg ∙ ap (flush max s) (sym (append-nil seg))
  scan-word (b ∷ []) seg s v = rw (scan-last max keeps s seg b, v.0.1)
  scan-word (b ∷ c ∷ w) seg s v =
      scan-plain max keeps s seg b c w v.0.1
      ∙ scan-word (c ∷ w) (seg ++ b ∷ []) s v.1
      ∙ rw append_assoc

  c_string-word : (w : Bytes) → All IsWord w → c_string w ≡ w
  unfolding c_string
  c_string-word [] v = refl
  c_string-word (x ∷ w) v = ground (arith, c_string-word w v.1)

  on_read-word :
      (s : Reader) (x : ℕ) (w : Bytes)
      → IsRead (x ∷ w)
      → s.line_protocol ≡ true
      → All IsWord (x ∷ w)
      → length s.line + length (x ∷ w) < max
      → on_read max keeps s (x ∷ w) ≡ record s { line = s.line ++ x ∷ w }
  unfolding flush
  on_read-word s x w r on v h =
      on_read-scan max keeps s x w r on (ground (arith, v.0.1))
      ∙ scan-word (x ∷ w) [] s v
      ∙ rw (c_string-word (x ∷ w) v) (add_bytes_fits max (x ∷ w) s h)

  skipped :
      (s : Reader) (b : ℕ)
      → s.line_protocol ≡ true
      → s.skip_c ≡ true
      → is_crlf b ≡ true
      → b ≢ s.c
      → on_read max keeps s (b ∷ []) ≡ record s { skip_c = false }
  unfolding on_read flush c_string add_bytes
  skipped s b on skips e ne = ground (arith, scan-nil max keeps (record s { skip_c = false }) [])

  -- The flag that skips the second byte of a pair outlives the text between. In line protocol,
  -- when the last chunk ended in one end of line, the next is a text with no end of line and no
  -- zero byte that stays below the limit and is no longer than TCP_BUFSIZE_READ, and the one after is the other end of line, that end
  -- is dropped: no line is delivered, and the text still waits for its end.
  pub read_all_loses_end :
      (s : Reader) (x : ℕ) (w : Bytes) (b : ℕ)
      → IsRead (x ∷ w)
      → s.line_protocol ≡ true
      → s.skip_c ≡ true
      → is_crlf b ≡ true
      → b ≢ s.c
      → All IsWord (x ∷ w)
      → length s.line + length (x ∷ w) < max
      → let s' = read_all max keeps s ((x ∷ w) ∷ (b ∷ []) ∷ []) in
        (s'.lines ≡ s.lines) × (s'.line ≡ s.line ++ x ∷ w)
  unfolding read_all
  read_all_loses_end s x w b r on skips e ne v h =
      rw
        (on_read-word s x w r on v h, skipped (record s { line = s.line ++ x ∷ w }) b on skips e ne)
        (refl, refl)
