-- ===== src/Http.antt =====
-- src/HTTPSocket.cpp with src/HTTPSocket.h: the lines and the body of an HTTP message,
-- as it is configured: without the pool of connections.
pub mod Chunked
pub mod Body
pub mod Again
pub mod Plain
use cpp_sockets_library.Prelude.{
  ℕ, leb, zero, suc, ◌+◌, ◌-◌, ◌^◌, ◌%◌, Bool, true, false, not, ◌&&◌, ◌||◌, Option, none, some,
  List, [], ◌∷◌, ◌++◌, ltb, ◌==◌, if◌then◌else◌, length, take, drop, Bytes,
}
use cpp_sockets_library.Prelude.Text.{codes}
use cpp_sockets_library.Parse.{new_parse, getword, getrest}
use cpp_sockets_library.Utility.Letters.{to_lower}
use cpp_sockets_library.Utility.Numbers.{hex2unsigned}
use cpp_sockets_library.Utility.Uri.{cut, same}
use cpp_sockets_library.Tcp.Lines.{tcp_bufsize_read}

-- What the socket does: the calls of its virtual functions, the log, and OnRead for the bytes that
-- follow a body.
pub data Act : Type 0 where
  on_first on_header_complete on_data_complete header_count_exceeded : Act
  on_header : Bytes → Bytes → Act
  on_data on_read : Bytes → Act

-- `log` is what the socket did, the newest first; `overflow` is set where it wrote behind the end of
-- `tmp`.
pub record HttpSocket : Type 0 where
  pub first : Bool
  pub header : Bool
  pub method : Bytes
  pub url : Bytes
  pub uri : Bytes
  pub query_string : Bytes
  pub http_version : Bytes
  pub status : Bytes
  pub status_text : Bytes
  pub request : Bool
  pub response : Bool
  pub body_size_left : ℕ
  pub http_1_1 : Bool
  pub keepalive : Bool
  pub chunked : Bool
  pub chunk_size : ℕ
  pub chunk_state : ℕ
  pub chunk_line : Bytes
  pub header_count : ℕ
  pub max_header_count : ℕ
  pub line_protocol : Bool
  pub closing : Bool
  pub overflow : Bool
  pub log : List Act

abbrev pub act : Act → HttpSocket → HttpSocket
act a s = record s { log = a ∷ s.log }

-- The text ends in CR LF.
pub ends_line : Bytes → Bool
ends_line [] = false
ends_line (x ∷ []) = false
ends_line (x ∷ y ∷ []) = x == 13 && y == 10
ends_line (x ∷ y ∷ z ∷ s) = ends_line (y ∷ z ∷ s)

-- The loop that moves bytes to `m_chunk_line`, up to the end of the line; and the other bytes.
pub take_line : Bytes → Bytes → Bytes × Bytes
take_line line [] = (line, [])
take_line line (b ∷ bs) =
    let rest = take_line (line ++ b ∷ []) bs in if ends_line line then (line, b ∷ bs) else rest

-- `// prepare for next request(or response)`; the bytes `rest` are left. They are copied with a zero
-- behind them to `tmp`, which has TCP_BUFSIZE_READ bytes.
pub next_message : Bytes → HttpSocket → HttpSocket
next_message rest s =
    let s1 = record s { line_protocol = true; first = true; header = true; body_size_left = 0 } in
    elim rest [
      | [] ↦ s1
      | b ∷ bs ↦ record (act (on_read (b ∷ bs)) s1) {
        overflow = s1.overflow || leb tcp_bufsize_read (length (b ∷ bs));
      }
    ]

unfoldable pub size_of_line : Bytes → ℕ
size_of_line line = hex2unsigned (getword (new_parse line (b';' ∷ []) false)).ord

-- `case 4`: the line behind the last chunk.
pub end_round : Bytes → HttpSocket → HttpSocket × Bytes
end_round buf s =
    let (line, rest) = take_line s.chunk_line buf in
    let s1 = record s { chunk_line = line } in
    if ends_line line
    then (next_message rest (record (act on_data_complete s1) { chunked = false }), [])
    else (s1, rest)

-- `case 0`: the line with the size.
pub size_round : Bytes → HttpSocket → HttpSocket × Bytes
size_round buf s =
    let (line, rest) = take_line s.chunk_line buf in
    if ends_line line
    then (let size = size_of_line (take (length line - 2) line) in
        (
          record s { chunk_line = []; chunk_size = size; chunk_state = if size == 0 then 4 else 1 },
          rest,
        ))
    else (record s { chunk_line = line }, rest)

-- `case 1`: bytes of the chunk.
pub data_round : Bytes → HttpSocket → HttpSocket × Bytes
data_round buf s =
    let sz = if ltb s.chunk_size (length buf) then s.chunk_size else length buf in
    let left = s.chunk_size - sz in
    (
      record (act (on_data (take sz buf)) s) {
        chunk_size = left;
        chunk_state = if left == 0 then 2 else s.chunk_state;
      },
      drop sz buf,
    )

pub chunk_round : Bytes → HttpSocket → HttpSocket × Bytes
chunk_round buf s =
    if s.chunk_state == 4
    then end_round buf s
    else if s.chunk_state == 0
    then size_round buf s
    else if s.chunk_state == 1
    then data_round buf s
    else if s.chunk_state == 2
    then (record s { chunk_state = 3 }, drop 1 buf)
    else if s.chunk_state == 3
    then (record s { chunk_state = 0 }, drop 1 buf)
    else (s, buf)

pub chunk_loop : ℕ → Bytes → HttpSocket → Option HttpSocket
chunk_loop zero buf s = none
chunk_loop (suc fuel) [] s = some s
chunk_loop (suc fuel) (b ∷ bs) s = let r = chunk_round (b ∷ bs) s in chunk_loop fuel r.1 r.0

-- The body of a message of known length, or up to the end of the connection.
pub plain_data : Bytes → HttpSocket → HttpSocket
plain_data buf s =
    if not s.http_1_1 || not s.keepalive
    then (let left = (s.body_size_left + 2 ^ 64 - length buf) % 2 ^ 64 in
        let s1 = record (act (on_data buf) s) { body_size_left = left } in
        if left == 0 then act on_data_complete s1 else s1)
    else (let sz = if ltb s.body_size_left (length buf) then s.body_size_left else length buf in
        let left = s.body_size_left - sz in
        let s1 = record (act (on_data (take sz buf)) s) { body_size_left = left } in
        if left == 0 then next_message (drop sz buf) (act on_data_complete s1) else s1)

pub on_raw_data : Bytes → HttpSocket → Option HttpSocket
on_raw_data buf s =
    if s.header
    then some s
    else if s.chunked
    then chunk_loop (length buf + 1) buf s
    else some (plain_data buf s)

-- The first line of a message.
pub first_line : Bytes → HttpSocket → HttpSocket
first_line line s =
    let p1 = getword (new_parse line [] false) in
    let p2 = getword p1 in
    if ltb 4 (length p1.ord) && same (to_lower (take 5 p1.ord)) (codes "http/")
    then act on_first (record s {
      http_version = p1.ord;
      status = p2.ord;
      status_text = (getrest p2).1;
      response = true;
      first = false;
    })
    else (let p3 = getword p2 in
        let parts : Bytes × Bytes = elim (cut b'?' p2.ord) [ none ↦ (p2.ord, []) | some r ↦ r ] in
        let is_1_1 = ltb 4 (length p3.ord) && same (drop 4 p3.ord) (codes "/1.1") in
        act on_first (record s {
          method = p1.ord;
          url = p2.ord;
          uri = parts.0;
          query_string = parts.1;
          http_version = p3.ord;
          http_1_1 = is_1_1;
          keepalive = is_1_1;
          request = true;
          first = false;
        }))

-- The empty line that ends the header.
pub end_header : HttpSocket → HttpSocket
end_header s =
    let no_size = s.body_size_left == 0 in
    let s1 =
      if not no_size || not s.http_1_1 || not s.keepalive || s.chunked
      then record s { line_protocol = false; header = false }
      else s in
    let s2 = act on_header_complete s1 in
    if no_size && not s.chunked then act on_data_complete s2 else s2

-- `atol` is the function of the C library, its result as a size_t.
module _ (atol : Bytes → ℕ) where
  pub header_line : Bytes → HttpSocket → HttpSocket
  header_line line s =
      let p = getword (new_parse line (b':' ∷ []) false) in
      let key = to_lower p.ord in
      let value = (getrest p).1 in
      let s1 = act (on_header p.ord value) s in
      let s2 =
        if same key (codes "content-length")
        then record s1 { body_size_left = atol value }
        else s1 in
      let s3 =
        if s2.http_1_1 && same key (codes "connection")
        then record s2 { keepalive = not (same (to_lower value) (codes "close")) }
        else s2 in
      let s4 =
        if same key (codes "transfer-encoding") && same (to_lower value) (codes "chunked")
        then record s3 { chunked = true }
        else s3 in
      let s5 = record s4 { header_count = s4.header_count + 1 } in
      if ltb s4.max_header_count s4.header_count
      then act header_count_exceeded (record s5 { closing = true })
      else s5

  pub on_line : Bytes → HttpSocket → HttpSocket
  on_line line s =
      if s.first
      then first_line line s
      else elim line [ [] ↦ end_header s | c ∷ t ↦ header_line (c ∷ t) s ]

-- SendResponse: the text that it sends, for the header lines in the order of the map and of the list.
pub header_texts : List (Bytes × Bytes) → Bytes
header_texts [] = []
header_texts (h ∷ hs) = h.0 ++ codes ": " ++ h.1 ++ 13 ∷ 10 ∷ header_texts hs

pub response_text : List (Bytes × Bytes) → List (Bytes × Bytes) → HttpSocket → Bytes
response_text headers appended s =
    s.http_version
    ++ codes " "
    ++ s.status
    ++ codes " "
    ++ s.status_text
    ++ 13 ∷ 10 ∷ []
    ++ header_texts headers
    ++ header_texts appended
    ++ 13 ∷ 10 ∷ []
