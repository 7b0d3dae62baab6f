-- ===== src/Tcp/Lines/Chunks.antt =====
-- A stream whose lines all end in the same byte is split the same however it is cut into chunks.
use cpp_sockets_library.Prelude.{
  ℕ, ◌+◌, ◌<◌, ◌≡◌, refl, ◌∙◌, sym, ap, subst, Bool, true, false, not, ◌&&◌, List, [], ◌∷◌, ◌++◌,
  ◌==◌, arith, Bytes, length, length-append, append-nil, append_assoc, All, All-append, Bool-cases,
  inl, inr, ==→eq,
}
use cpp_sockets_library.Tcp.Lines.{Reader, start, is_crlf, flush, end_line, scan, on_read, read_all}
use cpp_sockets_library.Tcp.Lines.Scan.{
  flatten, split, IsText, Fits, IsReading, c_string_text, add_bytes_fits, ==-refl, start-IsReading,
  All-parts, scan-end, scan-plain, scan-last, scan-nil, on_read-scan, Outcome, Fits-now, IsRead,
}

module _ (t max : ℕ) (keeps : List Bytes → Bool) (stays : (ls : List Bytes) → keeps ls ≡ true)
    (ends : is_crlf t ≡ true) where
  flush_text :
      (s : Reader) (seg : Bytes)
      → All (IsText t) seg
      → length s.line + length seg < max
      → flush max s seg ≡ record s { line = s.line ++ seg }
  unfolding flush
  flush_text s seg v h = rw (c_string_text t seg v) (add_bytes_fits max seg s h)

  abbrev ended : Reader → Bytes → Reader
  ended s seg = record s {
    lines = s.lines ++ (s.line ++ seg) ∷ [];
    line_protocol = keeps (s.lines ++ (s.line ++ seg) ∷ []);
    skip_c = true;
    c = t;
    line = [];
  }

  end_line_text :
      (s : Reader) (seg : Bytes)
      → All (IsText t) seg
      → length s.line + length seg < max
      → end_line max keeps s seg t ≡ ended s seg
  unfolding end_line
  end_line_text s seg v h = rw (flush_text s seg v h)

  ended-IsReading : (s : Reader) (seg : Bytes) → IsReading t s → IsReading t (ended s seg)
  ended-IsReading s seg r = record { on = stays _; skips = λ _. refl; open_ = r.open_ }

  not_skipped :
      (s : Reader) (b : ℕ)
      → IsReading t s
      → IsText t b
      → (s.skip_c && is_crlf b && not (b == s.c)) ≡ false
  not_skipped s b r x = ground (arith, x.1, r.skips)

  nothing :
      (s : Reader) (seg : Bytes) → IsReading t s → Outcome t (ended s seg) (ended s seg) ([], [])
  nothing s seg r = record {
    lines = sym (append-nil (ended s seg).lines);
    line = refl;
    raw = refl;
    reading = ended-IsReading s seg r;
  }

  plain_byte : (b : ℕ) → (b == t) ≡ false → IsText t b → is_crlf b ≡ false
  plain_byte b e x = ground (arith, x.1)

  -- Where every end of line is `t`, no two make a pair.
  same_end : (c : ℕ) → IsText t c → (is_crlf c && not (c == t)) ≡ false
  same_end c x = ground (arith, x.1)

  at_count : (xs : Bytes) (k k' : ℕ) → k ≡ k' → Fits t max k xs → Fits t max k' xs
  at_count xs k k' e h = subst (λ n. Fits t max n xs) e h

  abbrev Reads : Reader → Bytes → Bytes → Type 0
  Reads s seg rest = Outcome t s (scan max keeps s seg rest) (split t (s.line ++ seg) rest)

  stop_here :
      (s : Reader) (seg : Bytes)
      → IsReading t s
      → All (IsText t) seg
      → length s.line + length seg < max
      → Outcome t s (flush max s seg) ([], s.line ++ seg)
  stop_here s seg r v h = rw (flush_text s seg v h) (record {
    lines = sym (append-nil s.lines);
    line = refl;
    raw = refl;
    reading = record { on = r.on; skips = r.skips; open_ = r.open_ };
  })

  -- A line ends, and the rest is read from the state after it.
  then_rest :
      (s s' : Reader) (seg : Bytes) (r : List Bytes × Bytes)
      → Outcome t (ended s seg) s' r
      → Outcome t s s' ((s.line ++ seg) ∷ r.0, r.1)
  then_rest s s' seg r o = record {
    lines = o.lines ∙ append_assoc s.lines ((s.line ++ seg) ∷ []) r.0;
    line = o.line;
    raw = o.raw;
    reading = o.reading;
  }

  scan-split :
      (rest seg : Bytes) (s : Reader)
      → IsReading t s
      → All (IsText t) seg
      → All (IsText t) rest
      → Fits t max (length s.line + length seg) rest
      → Reads s seg rest
  unfolding split
  scan-split [] seg s r v w f = rw (scan-nil max keeps s seg) (stop_here s seg r v f)
  scan-split (b ∷ []) seg s r v w f = elim (Bool-cases (b == t)) [
    | inl e ↦
        let h = (rw e at f).0 in
        rw (==→eq b t e) (
          rw (scan-last max keeps s seg t, ends, ==-refl t, end_line_text s seg v h)
            (then_rest s _ seg ([], []) (nothing s seg r)))
    | inr e ↦
        let v' = All-append (IsText t) seg (b ∷ []) v w in
        let h : length s.line + length (seg ++ b ∷ []) < max =
          omega (arith, rw e at f, length-append seg (b ∷ [])) in
        rw (scan-last max keeps s seg b, e, plain_byte b e w.0, append_assoc)
          (stop_here s (seg ++ b ∷ []) r v' h)
  ]
  scan-split (b ∷ c ∷ rest) seg s r v w f =
      let line' = ended s seg in
      elim (Bool-cases (b == t)) [
        | inl e ↦
            let h = (rw e at f).0 in
            let later =
              scan-split (c ∷ rest) [] line' (ended-IsReading s seg r) tt w.1
                (at_count (c ∷ rest) _ _ (omega arith) (rw e at f).1) in
            rw (==→eq b t e) (
              rw
                (
                  scan-end max keeps s seg t c rest ends (same_end c w.1.0)
                      (ap (λ (x : Reader). x.line_protocol) (end_line_text s seg v h) ∙ stays _),
                  end_line_text s seg v h,
                  ==-refl t,
                )
                (then_rest s _ seg _ later))
        | inr e ↦
            let v' = All-append (IsText t) seg (b ∷ []) v (w.0, tt) in
            let later =
              scan-split (c ∷ rest) (seg ++ b ∷ []) s r v' w.1
                (at_count (c ∷ rest) _ _ (omega (arith, length-append seg (b ∷ []))) (rw e at f)) in
            rw (scan-plain max keeps s seg b c rest (plain_byte b e w.0), e, append_assoc) later
      ]

  on_read-split :
      (chunk : Bytes) (s : Reader)
      → IsRead chunk
      → IsReading t s
      → All (IsText t) chunk
      → Fits t max (length s.line) chunk
      → Outcome t s (on_read max keeps s chunk) (split t s.line chunk)
  unfolding split
  on_read-split [] s h r w f =
      unfold on_read in
      record { lines = sym (append-nil s.lines); line = refl; raw = refl; reading = r }
  on_read-split (b ∷ rest) s h r w f =
      let read = scan-split (b ∷ rest) [] s r tt w (at_count (b ∷ rest) _ _ (omega arith) f) in
      rw (on_read-scan max keeps s b rest h r.on (not_skipped s b r w.0)) (
        subst (λ l. Outcome t s (scan max keeps s [] (b ∷ rest)) (split t l (b ∷ rest)))
          (append-nil s.line) read)

  split-append :
      (xs ys acc : Bytes)
      → split t acc (xs ++ ys) ≡ (
        (split t acc xs).0 ++ (split t (split t acc xs).1 ys).0,
        (split t (split t acc xs).1 ys).1,
      )
  unfolding split
  split-append [] ys acc = refl
  split-append (x ∷ xs) ys acc =
      ground (arith, split-append xs ys [], split-append xs ys (acc ++ x ∷ []))

  Fits-append :
      (xs ys : Bytes) (acc : Bytes)
      → Fits t max (length acc) (xs ++ ys)
      → Fits t max (length acc) xs × Fits t max (length (split t acc xs).1) ys
  unfolding split
  Fits-append [] ys acc h = (Fits-now t max _ ys h, h)
  Fits-append (x ∷ xs) ys acc h = elim (Bool-cases (x == t)) [
    | inl e ↦ let (a, b) = rw e at h in let (f, g) = Fits-append xs ys [] b in rw e ((a, f), g)
    | inr e ↦
        let n : length acc + 1 ≡ length (acc ++ x ∷ []) =
          omega (arith, length-append acc (x ∷ [])) in
        let (f, g) = Fits-append xs ys (acc ++ x ∷ []) (at_count (xs ++ ys) _ _ n (rw e at h)) in
        rw e (at_count xs _ _ (sym n) f, g)
  ]

  Outcome-trans :
      (a b c : Reader) (xs ys : Bytes)
      → Outcome t a b (split t a.line xs)
      → Outcome t b c (split t b.line ys)
      → Outcome t a c (split t a.line (xs ++ ys))
  Outcome-trans a b c xs ys o p = rw split-append (record {
    lines = p.lines ∙ rw (o.lines, o.line, append_assoc);
    line = p.line ∙ ap (λ acc. (split t acc ys).1) o.line;
    raw = p.raw ∙ o.raw;
    reading = p.reading;
  })

  read_all-split :
      (chunks : List Bytes) (s : Reader)
      → All IsRead chunks
      → IsReading t s
      → All (IsText t) (flatten chunks)
      → Fits t max (length s.line) (flatten chunks)
      → Outcome t s (read_all max keeps s chunks) (split t s.line (flatten chunks))
  unfolding read_all flatten on_read
  read_all-split [] s hs r w f = on_read-split [] s (omega arith) r tt f
  read_all-split (chunk ∷ chunks) s hs r w f =
      let (w1, w2) = All-parts (IsText t) chunk (flatten chunks) w in
      let (f1, f2) = Fits-append chunk (flatten chunks) s.line f in
      let o = on_read-split chunk s hs.0 r w1 f1 in
      let n = ap length (sym o.line) in
      let p =
        read_all-split chunks (on_read max keeps s chunk) hs.1 o.reading w2
          (at_count (flatten chunks) _ _ n f2) in
      Outcome-trans s _ _ chunk (flatten chunks) o p

-- Joining the lines of a stream again gives the stream.
pub unsplit : ℕ → List Bytes → Bytes → Bytes
unsplit t [] left = left
unsplit t (l ∷ ls) left = l ++ (t ∷ unsplit t ls left)

-- Nothing is lost: the lines with their ends, and the rest, are the stream.
unsplit-split :
    (t : ℕ) (xs acc : Bytes) → unsplit t (split t acc xs).0 (split t acc xs).1 ≡ acc ++ xs
unfolding split unsplit
unsplit-split t [] acc = sym (append-nil acc)
unsplit-split t (x ∷ xs) acc = elim (Bool-cases (x == t)) [
  | inl e ↦ rw (e, unsplit-split t xs [], ==→eq x t e)
  | inr e ↦ rw (e, unsplit-split t xs (acc ++ x ∷ []), append_assoc)
]

-- For a new socket in line protocol that every OnLine leaves in it: when every line of the stream ends
-- in the same single byte `t`, only CR or only LF, the stream has no zero byte and no other CR or LF,
-- no line reaches the limit `max`, and no chunk is longer than TCP_BUFSIZE_READ, OnLine is called for
-- exactly the lines of the stream, in order, and the unfinished line has the rest, however the stream
-- is cut into such chunks; these joined again are the stream, and the connection is not closed.
pub read_all-lines :
    (t max c : ℕ) (keeps : List Bytes → Bool) (chunks : List Bytes)
    → ((ls : List Bytes) → keeps ls ≡ true)
    → is_crlf t ≡ true
    → All IsRead chunks
    → All (IsText t) (flatten chunks)
    → Fits t max 0 (flatten chunks)
    → let s = read_all max keeps (start c) chunks in
      (s.lines ≡ (split t [] (flatten chunks)).0)
      × (s.line ≡ (split t [] (flatten chunks)).1)
      × (unsplit t s.lines s.line ≡ flatten chunks)
      × (s.closing ≡ false)
unfolding start
read_all-lines t max c keeps chunks stays ends hs w f =
    let o = read_all-split t max keeps stays ends chunks (start c) hs (start-IsReading t c) w f in
    (o.lines, o.line, rw (o.lines, o.line) (unsplit-split t (flatten chunks) []), o.reading.open_)
