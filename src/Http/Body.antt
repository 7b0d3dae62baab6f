-- ===== src/Http/Body.antt =====
-- Whole chunked messages in src/HTTPSocket.cpp.
use cpp_sockets_library.Prelude.{
  ℕ, suc, ◌+◌, ◌-◌, ◌<◌, ◌≤◌, ◌≡◌, refl, ap, ◌∙◌, true, false, some, leb, ◌||◌, Bool, List, [], ◌∷◌,
  ◌++◌, ◌==◌, if◌then◌else◌, length, Bytes, arith, length-append,
}
use cpp_sockets_library.Tcp.Lines.{tcp_bufsize_read}
use cpp_sockets_library.Http.{
  Act, on_data_complete, on_read, HttpSocket, next_message, size_of_line, end_round, chunk_round,
  ends_line, chunk_loop, on_raw_data,
}
use cpp_sockets_library.Http.Chunked.{
  NoReturn, Chunk, AllChunks, sent, sent_all, heard, inside, rounds, loop-chunks, loop-round,
  chunk_round-size, take_line-text,
}

abbrev crlf : Bytes
crlf = 13 ∷ 10 ∷ []

-- OnRead for the bytes behind a body, if there are any.
abbrev pub then_read : Bytes → List Act → List Act
then_read rest log = elim rest [ [] ↦ log | b ∷ bs ↦ on_read (b ∷ bs) ∷ log ]

-- Whether a copy of these bytes, with the zero behind them, is too long for `tmp`.
abbrev pub is_over : Bool → Bytes → Bool
is_over before rest = elim rest [
  | [] ↦ before
  | b ∷ bs ↦ before || leb tcp_bufsize_read (length (b ∷ bs))
]

-- The socket `s` after a chunked body that the bytes `rest` follow: it waits for the first line of a
-- message.
abbrev pub finished : HttpSocket → Bytes → List Act → HttpSocket
finished s rest log = record s {
  header = true;
  first = true;
  line_protocol = true;
  body_size_left = 0;
  chunked = false;
  chunk_size = 0;
  chunk_state = 4;
  chunk_line = crlf;
  overflow = is_over s.overflow rest;
  log = then_read rest (on_data_complete ∷ log);
}

next_message-finished :
    (s : HttpSocket) (rest : Bytes) (log : List Act)
    → next_message rest (record (inside s 0 4 crlf (on_data_complete ∷ log)) { chunked = false })
      ≡ finished s rest log
unfolding next_message
next_message-finished s [] log = refl
next_message-finished s (b ∷ bs) log = refl

chunk_round-end :
    (s : HttpSocket) (log : List Act) (rest : Bytes)
    → chunk_round (13 ∷ 10 ∷ rest) (inside s 0 4 [] log) ≡ (finished s rest log, [])
unfolding chunk_round end_round
chunk_round-end s log rest =
    rw (take_line-text [] [] rest tt tt)
      (unfold ends_line in ap (λ (r : HttpSocket). (r, [])) (next_message-finished s rest log))

loop-last :
    (f : ℕ) (s : HttpSocket) (n : ℕ) (log : List Act) (text rest : Bytes)
    → NoReturn text
    → size_of_line text ≡ 0
    → chunk_loop (suc (suc (suc f))) (text ++ 13 ∷ 10 ∷ 13 ∷ 10 ∷ rest) (inside s n 0 [] log)
      ≡ some (finished s rest log)
unfolding chunk_loop
loop-last f s n log text rest v last =
    let size = size_of_line text in
    loop-round (suc (suc f)) (text ++ 13 ∷ 10 ∷ 13 ∷ 10 ∷ rest) (inside s n 0 [] log)
      (omega (arith, length-append text (13 ∷ 10 ∷ 13 ∷ 10 ∷ rest)))
    ∙ ap (λ r. chunk_loop (suc (suc f)) r.1 r.0) (chunk_round-size s n log text (13 ∷ 10 ∷ rest) v)
    ∙ ap
        (λ k.
          chunk_loop (suc (suc f)) (13 ∷ 10 ∷ rest) (inside s k (if k == 0 then 4 else 1) [] log))
        last
    ∙ ap (λ r. chunk_loop (suc f) r.1 r.0) (chunk_round-end s log rest)

enough_rounds :
    (ks : List Chunk) (more : Bytes) (fuel : ℕ)
    → 3 ≤ length more
    → length (sent_all ks more) < fuel
    → (f : ℕ) × (fuel ≡ rounds ks (suc (suc (suc f))))
unfolding rounds sent_all sent
enough_rounds [] more fuel h lt = (fuel - 3, omega arith)
enough_rounds (k ∷ ks) more fuel h lt =
    let rest = sent_all ks more in
    let len1 = length-append k.size_text (13 ∷ 10 ∷ (k.bytes ++ 13 ∷ 10 ∷ rest)) in
    let len2 = length-append k.bytes (13 ∷ 10 ∷ rest) in
    let (f, e) = enough_rounds ks more (fuel - 4) h (omega (arith, len1, len2)) in
    let four : fuel ≡ suc (suc (suc (suc (fuel - 4)))) = omega (arith, len1, len2) in
    (f, four ∙ ap (λ x. suc (suc (suc (suc x)))) e)

-- The socket `s` before a chunked body.
abbrev pub in_body : HttpSocket → HttpSocket
in_body s = record s { header = false; chunked = true; chunk_state = 0; chunk_line = [] }

-- A chunked body that comes in one read: chunks of which the size line, with or without an extension,
-- gives a size that is the number of bytes in the chunk, a last line that gives the size zero, and an
-- empty line. OnData is called with the bytes of each chunk, in order, then OnDataComplete, and then
-- OnRead once with all the bytes that follow, if there are any, where the socket is back in line
-- protocol and waits for the first line of a message. The copy of those bytes that OnRead gets overflows `tmp` where
-- they are TCP_BUFSIZE_READ or more.
pub on_raw_data-chunks :
    (s : HttpSocket) (ks : List Chunk) (text rest : Bytes)
    → AllChunks ks
    → NoReturn text
    → size_of_line text ≡ 0
    → on_raw_data (sent_all ks (text ++ 13 ∷ 10 ∷ 13 ∷ 10 ∷ rest)) (in_body s)
      ≡ some (finished (in_body s) rest (heard ks s.log))
unfolding on_raw_data
on_raw_data-chunks s ks text rest v w last =
    let end = text ++ 13 ∷ 10 ∷ 13 ∷ 10 ∷ rest in
    let len = length-append text (13 ∷ 10 ∷ 13 ∷ 10 ∷ rest) in
    let (f, e) =
      enough_rounds ks end (length (sent_all ks end) + 1) (omega (arith, len)) (omega arith) in
    let (n, chunks) = loop-chunks ks (suc (suc (suc f))) (in_body s) s.chunk_size s.log end v in
    ap (λ fuel. chunk_loop fuel (sent_all ks end) (in_body s)) e
    ∙ chunks
    ∙ loop-last f (in_body s) n (heard ks s.log) text rest w last
