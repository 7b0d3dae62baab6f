-- ===== src/Http/Plain.antt =====
-- Bodies of a known length in src/HTTPSocket.cpp.
use cpp_sockets_library.Prelude.{
  ℕ, ◌+◌, ◌-◌, ◌<◌, ◌≡◌, refl, sym, ap, ◌∙◌, true, false, Option, none, some, List, [], ◌∷◌, ◌++◌,
  append-nil, ltb, ◌==◌, if◌then◌else◌, length, take, Bytes, arith, length-append, take-append,
  drop-append,
}
use cpp_sockets_library.Http.{
  Act, on_data, on_data_complete, HttpSocket, next_message, plain_data, on_raw_data,
}
use cpp_sockets_library.Http.Body.{then_read, is_over}

-- Several reads, one after the other.
pub raw_reads : List Bytes → HttpSocket → Option HttpSocket
raw_reads [] s = some s
raw_reads (b ∷ bs) s = elim (on_raw_data b s) [ none ↦ none | some s1 ↦ raw_reads bs s1 ]

abbrev then_reads : List Bytes → Option HttpSocket → Option HttpSocket
then_reads bs r = elim r [ none ↦ none | some s1 ↦ raw_reads bs s1 ]

pub total : List Bytes → ℕ
total [] = 0
total (b ∷ bs) = length b + total bs

pub pieces_heard : List Bytes → List Act → List Act
pieces_heard [] log = log
pieces_heard (b ∷ bs) log = pieces_heard bs (on_data b ∷ log)

-- The socket `s` in the body of an HTTP/1.1 message with keep-alive, `left` bytes before its end.
abbrev pub plain : HttpSocket → ℕ → List Act → HttpSocket
plain s left log = record s {
  header = false;
  chunked = false;
  http_1_1 = true;
  keepalive = true;
  body_size_left = left;
  log = log;
}

plain_data-within :
    (s : HttpSocket) (left : ℕ) (log : List Act) (b : Bytes)
    → length b < left
    → on_raw_data b (plain s left log) ≡ some (plain s (left - length b) (on_data b ∷ log))
unfolding on_raw_data plain_data
plain_data-within s left log b h =
    let all_of_it : ltb left (length b) ≡ false = ground arith in
    let more : (left - length b == 0) ≡ false = ground arith in
    let whole : take (length b) b ≡ b =
      ap (take (length b)) (sym (append-nil b)) ∙ take-append b [] in
    rw (plain_data, all_of_it, more, whole) refl

-- The socket after the body, with `rest` behind it: it waits for the first line of a message.
abbrev pub ready_again : HttpSocket → Bytes → List Act → HttpSocket
ready_again s rest log = record (plain s 0 (then_read rest (on_data_complete ∷ log))) {
  header = true;
  first = true;
  line_protocol = true;
  overflow = is_over s.overflow rest;
}

next_message-ready_again :
    (s : HttpSocket) (rest : Bytes) (log : List Act)
    → next_message rest (plain s 0 (on_data_complete ∷ log)) ≡ ready_again s rest log
unfolding next_message
next_message-ready_again s [] log = refl
next_message-ready_again s (b ∷ bs) log = refl

plain_data-last :
    (s : HttpSocket) (left : ℕ) (log : List Act) (b rest : Bytes)
    → length b ≡ left
    → on_raw_data (b ++ rest) (plain s left log) ≡ some (ready_again s rest (on_data b ∷ log))
unfolding on_raw_data plain_data
plain_data-last s left log b rest e =
    let len = length-append b rest in
    let size : (if ltb left (length (b ++ rest)) then left else length (b ++ rest)) ≡ length b =
      ground (arith, len) in
    let none_left : left - length b ≡ 0 = omega arith in
    rw (plain_data, size, none_left, take-append b rest, drop-append b rest)
      (ap (λ (r : HttpSocket). some r) (next_message-ready_again s rest (on_data b ∷ log)))

-- The body of an HTTP/1.1 message with keep-alive, in any reads, with `rest` behind it in the last
-- one: OnData is called with the bytes of each read as far as the body goes, OnDataComplete once, at
-- its end, and then OnRead once with `rest`, if it is not empty, where the socket is back in line
-- protocol and waits for the first line of a message. The copy that OnRead gets overflows `tmp` where
-- `rest` has TCP_BUFSIZE_READ bytes or more.
pub raw_reads-body :
    (s : HttpSocket) (bs : List Bytes) (last rest : Bytes) (log : List Act)
    → 0 < length last
    → raw_reads (bs ++ (last ++ rest) ∷ []) (plain s (total bs + length last) log)
      ≡ some (ready_again s rest (on_data last ∷ pieces_heard bs log))
unfolding raw_reads total pieces_heard
raw_reads-body s [] last rest log h =
    ap (then_reads []) (plain_data-last s (0 + length last) log last rest (omega arith))
raw_reads-body s (b ∷ bs) last rest log h =
    let left : length b + total bs + length last - length b ≡ total bs + length last =
      omega arith in
    let tail = bs ++ (last ++ rest) ∷ [] in
    ap (then_reads tail)
      (plain_data-within s (length b + total bs + length last) log b (omega arith))
    ∙ ap (λ n. raw_reads tail (plain s n (on_data b ∷ log))) left
    ∙ raw_reads-body s bs last rest (on_data b ∷ log) h
