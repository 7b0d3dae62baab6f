-- ===== src/Http/Chunked.antt =====
-- Chunked bodies in src/HTTPSocket.cpp.
use cpp_sockets_library.Prelude.{
  ℕ, suc, ◌-◌, ◌<◌, ◌≡◌, ◌≢◌, refl, ap, ◌∙◌, true, false, List, [], ◌∷◌, ◌++◌, ltb, ◌==◌,
  if◌then◌else◌, length, take, Bytes, All, All-append, arith, append_assoc, append-nil,
  length-append, take-append, drop-append,
}
use cpp_sockets_library.Http.{
  Act, on_data, HttpSocket, ends_line, take_line, size_of_line, size_round, data_round, chunk_round,
  chunk_loop,
}

abbrev pub NoReturn : Bytes → Type 0
NoReturn s = All (λ c. c ≢ 13) s

-- Only the last two chars decide whether a line is at its end.
ends_line-NoReturn : (s : Bytes) → NoReturn s → ends_line s ≡ false
unfolding ends_line
ends_line-NoReturn [] v = refl
ends_line-NoReturn (x ∷ []) v = refl
ends_line-NoReturn (x ∷ y ∷ []) v = ground (arith, v.0)
ends_line-NoReturn (x ∷ y ∷ z ∷ s) v = ends_line-NoReturn (y ∷ z ∷ s) v.1

ends_line-return : (s : Bytes) → NoReturn s → ends_line (s ++ 13 ∷ []) ≡ false
unfolding ends_line
ends_line-return [] v = refl
ends_line-return (x ∷ []) v = ground (arith, v.0)
ends_line-return (x ∷ y ∷ []) v = ground (arith, v.1.0)
ends_line-return (x ∷ y ∷ z ∷ s) v = ends_line-return (y ∷ z ∷ s) v.1

ends_line-both : (s : Bytes) → ends_line (s ++ 13 ∷ 10 ∷ []) ≡ true
unfolding ends_line
ends_line-both [] = refl
ends_line-both (x ∷ []) = refl
ends_line-both (x ∷ y ∷ []) = refl
ends_line-both (x ∷ y ∷ z ∷ s) = ends_line-both (y ∷ z ∷ s)

take_line-step :
    (line : Bytes) (b : ℕ) (bs : Bytes)
    → ends_line line ≡ false
    → take_line line (b ∷ bs) ≡ take_line (line ++ b ∷ []) bs
unfolding take_line
take_line-step line b bs h = rw (take_line, h) refl

pub take_line-done : (line bs : Bytes) → ends_line line ≡ true → take_line line bs ≡ (line, bs)
unfolding take_line
take_line-done line [] h = refl
take_line-done line (b ∷ bs) h = rw (take_line, h) refl

-- A line of a text without CR, up to its end.
pub take_line-text :
    (line text rest : Bytes)
    → NoReturn line
    → NoReturn text
    → take_line line (text ++ 13 ∷ 10 ∷ rest) ≡ ((line ++ text) ++ 13 ∷ 10 ∷ [], rest)
take_line-text line [] rest v w =
    take_line-step line 13 (10 ∷ rest) (ends_line-NoReturn line v)
    ∙ take_line-step (line ++ 13 ∷ []) 10 rest (ends_line-return line v)
    ∙ rw (append_assoc line (13 ∷ []) (10 ∷ []), append-nil line)
        (take_line-done (line ++ 13 ∷ 10 ∷ []) rest (ends_line-both line))
take_line-text line (c ∷ text) rest v w =
    take_line-step line c (text ++ 13 ∷ 10 ∷ rest) (ends_line-NoReturn line v)
    ∙ take_line-text (line ++ c ∷ []) text rest (All-append _ line (c ∷ []) v (w.0, tt)) w.1
    ∙ rw (append_assoc line (c ∷ []) text) refl

-- A chunk: the text of its size line, which may have an extension, and its bytes.
pub record Chunk : Type 0 where
  pub size_text : Bytes
  pub bytes : Bytes

pub record IsChunk (k : Chunk) : Type 0 where
  pub one_line : NoReturn k.size_text
  pub size : size_of_line k.size_text ≡ length k.bytes
  pub some_bytes : 0 < length k.bytes

-- A chunk as it is sent, with what follows it.
unfoldable pub sent : Chunk → Bytes → Bytes
sent k more = k.size_text ++ 13 ∷ 10 ∷ (k.bytes ++ 13 ∷ 10 ∷ more)

pub loop-round :
    (f : ℕ) (buf : Bytes) (s : HttpSocket)
    → 0 < length buf
    → chunk_loop (suc f) buf s ≡ chunk_loop f (chunk_round buf s).1 (chunk_round buf s).0
unfolding chunk_loop
loop-round f [] s h = absurd (omega arith)
loop-round f (b ∷ bs) s h = refl

take-line_end :
    (text : Bytes) → take (length (text ++ 13 ∷ 10 ∷ []) - 2) (text ++ 13 ∷ 10 ∷ []) ≡ text
take-line_end text =
    let len : length (text ++ 13 ∷ 10 ∷ []) - 2 ≡ length text =
      omega (arith, length-append text (13 ∷ 10 ∷ [])) in
    rw len (take-append text (13 ∷ 10 ∷ []))

-- The line of a size, at its start.
size_round-text :
    (text rest : Bytes) (s : HttpSocket)
    → NoReturn text
    → s.chunk_line ≡ []
    → size_round (text ++ 13 ∷ 10 ∷ rest) s ≡ (
      record s {
        chunk_line = [];
        chunk_size = size_of_line text;
        chunk_state = if size_of_line text == 0 then 4 else 1;
      },
      rest,
    )
unfolding size_round
size_round-text text rest s v empty =
    rw
      (size_round, empty, take_line-text [] text rest tt v, ends_line-both text, take-line_end text)
      refl

-- The socket `s` inside a chunked body.
abbrev pub inside : HttpSocket → ℕ → ℕ → Bytes → List Act → HttpSocket
inside s size state line log = record s {
  chunk_size = size;
  chunk_state = state;
  chunk_line = line;
  log = log;
}

pub chunk_round-size :
    (s : HttpSocket) (n : ℕ) (log : List Act) (text rest : Bytes)
    → NoReturn text
    → chunk_round (text ++ 13 ∷ 10 ∷ rest) (inside s n 0 [] log)
      ≡ (inside s (size_of_line text) (if size_of_line text == 0 then 4 else 1) [] log, rest)
unfolding chunk_round
chunk_round-size s n log text rest v = size_round-text text rest (inside s n 0 [] log) v refl

chunk_round-data :
    (s : HttpSocket) (log : List Act) (n : ℕ) (bytes : Bytes) (b : ℕ) (rest : Bytes)
    → n ≡ length bytes
    → chunk_round (bytes ++ b ∷ rest) (inside s n 1 [] log)
      ≡ (inside s 0 2 [] (on_data bytes ∷ log), b ∷ rest)
unfolding chunk_round data_round
chunk_round-data s log n bytes b rest e =
    let whole : ltb n (length (bytes ++ b ∷ rest)) ≡ true =
      ground (arith, length-append bytes (b ∷ rest)) in
    let none_left : n - n ≡ 0 = omega arith in
    rw (data_round, whole, none_left)
      (rw (e, take-append bytes (b ∷ rest), drop-append bytes (b ∷ rest)) refl)

loop-chunk :
    (f : ℕ) (s : HttpSocket) (n : ℕ) (log : List Act) (k : Chunk) (more : Bytes)
    → IsChunk k
    → chunk_loop (suc (suc (suc (suc f)))) (sent k more) (inside s n 0 [] log)
      ≡ chunk_loop f more (inside s 0 0 [] (on_data k.bytes ∷ log))
unfolding sent chunk_loop chunk_round
loop-chunk f s n log k more v =
    let size = size_of_line k.size_text in
    let rest = k.bytes ++ 13 ∷ 10 ∷ more in
    let not_last : (size == 0) ≡ false = ground (arith, v.size, v.some_bytes) in
    loop-round (suc (suc (suc f))) (k.size_text ++ 13 ∷ 10 ∷ rest) (inside s n 0 [] log)
      (omega (arith, length-append k.size_text (13 ∷ 10 ∷ rest)))
    ∙ ap (λ r. chunk_loop (suc (suc (suc f))) r.1 r.0)
        (chunk_round-size s n log k.size_text rest v.one_line)
    ∙ ap (λ t. chunk_loop (suc (suc (suc f))) rest (inside s size (if t then 4 else 1) [] log))
        not_last
    ∙ loop-round (suc (suc f)) rest (inside s size 1 [] log)
        (omega (arith, length-append k.bytes (13 ∷ 10 ∷ more)))
    ∙ ap (λ r. chunk_loop (suc (suc f)) r.1 r.0)
        (chunk_round-data s log size k.bytes 13 (10 ∷ more) v.size)

unfoldable pub sent_all : List Chunk → Bytes → Bytes
sent_all [] more = more
sent_all (k ∷ ks) more = sent k (sent_all ks more)

pub heard : List Chunk → List Act → List Act
heard [] log = log
heard (k ∷ ks) log = heard ks (on_data k.bytes ∷ log)

abbrev pub AllChunks : List Chunk → Type 0
AllChunks [] = Unit {0}
AllChunks (k ∷ ks) = IsChunk k × AllChunks ks

-- The rounds that the chunks need.
unfoldable pub rounds : List Chunk → ℕ → ℕ
rounds [] f = f
rounds (k ∷ ks) f = suc (suc (suc (suc (rounds ks f))))

pub loop-chunks :
    (ks : List Chunk) (f : ℕ) (s : HttpSocket) (n : ℕ) (log : List Act) (more : Bytes)
    → AllChunks ks
    → (n' : ℕ) × (chunk_loop (rounds ks f) (sent_all ks more) (inside s n 0 [] log)
        ≡ chunk_loop f more (inside s n' 0 [] (heard ks log)))
unfolding rounds sent_all heard
loop-chunks [] f s n log more v = (n, refl)
loop-chunks (k ∷ ks) f s n log more v =
    let (n', rest) = loop-chunks ks f s 0 (on_data k.bytes ∷ log) more v.1 in
    (n', loop-chunk (rounds ks f) s n log k (sent_all ks more) v.0 ∙ rest)
