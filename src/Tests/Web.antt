-- ===== src/Tests/Web.antt =====
-- HTTP bodies.
use cpp_sockets_library.Prelude.{
  ◌+◌, ◌≡◌, refl, true, false, some, List, [], ◌∷◌, ◌++◌, length, Bytes, arith,
}
use cpp_sockets_library.Prelude.Text.{codes}
use cpp_sockets_library.Parse.{
  getword, new_parse, word_spaced, at_break, word_span, span, is_space, issplit, any_eq, in_word,
  is_open, disabled_after, here,
}
use cpp_sockets_library.Utility.Letters.{}
use cpp_sockets_library.Utility.Uri.{}
use cpp_sockets_library.Utility.Numbers.{hex2unsigned, hex_loop, char_word, letter_offset}
use cpp_sockets_library.Http.{HttpSocket, on_data, on_raw_data, size_of_line}
use cpp_sockets_library.Http.Chunked.{Chunk, IsChunk, sent_all, heard}
use cpp_sockets_library.Http.Body.{in_body, finished, on_raw_data-chunks}
use cpp_sockets_library.Http.Again.{on_lines}
use cpp_sockets_library.Http.Plain.{
  raw_reads, total, pieces_heard, plain, ready_again, raw_reads-body,
}

abbrev server : HttpSocket
server = record {
  first = true;
  header = true;
  method = [];
  url = [];
  uri = [];
  query_string = [];
  http_version = codes "HTTP/1.0";
  status = [];
  status_text = [];
  request = false;
  response = false;
  body_size_left = 0;
  http_1_1 = false;
  keepalive = false;
  chunked = false;
  chunk_size = 0;
  chunk_state = 0;
  chunk_line = [];
  header_count = 0;
  max_header_count = 2000;
  line_protocol = true;
  closing = false;
  overflow = false;
  log = [];
}

abbrev pieces : List Bytes
pieces = codes "ab" ∷ codes "c" ∷ []

raw_reads-body_example :
    raw_reads
      (pieces ++ (codes "de" ++ codes "GET") ∷ [])
      (plain server (total pieces + length (codes "de")) [])
    ≡ some (ready_again server (codes "GET") (on_data (codes "de") ∷ pieces_heard pieces []))
raw_reads-body_example = raw_reads-body server pieces (codes "de") (codes "GET") [] (omega arith)

abbrev three : Chunk
three = record { size_text = codes "3"; bytes = codes "xyz" }

three-IsChunk : IsChunk three
unfolding size_of_line getword new_parse word_spaced at_break word_span span is_space issplit any_eq
    in_word is_open disabled_after here hex2unsigned hex_loop char_word letter_offset
three-IsChunk = record { one_line = (omega arith, tt); size = refl; some_bytes = omega arith }

zero_line : size_of_line (codes "0") ≡ 0
unfolding size_of_line getword new_parse word_spaced at_break word_span span is_space issplit any_eq
    in_word is_open disabled_after here hex2unsigned hex_loop char_word letter_offset
zero_line = refl

on_raw_data-chunks_example :
    on_raw_data
      (sent_all (three ∷ three ∷ []) (codes "0" ++ 13 ∷ 10 ∷ 13 ∷ 10 ∷ codes "PUT"))
      (in_body server)
    ≡ some (finished (in_body server) (codes "PUT") (heard (three ∷ three ∷ []) []))
on_raw_data-chunks_example =
    on_raw_data-chunks server (three ∷ three ∷ []) (codes "0") (codes "PUT")
      (three-IsChunk, (three-IsChunk, tt)) (omega arith, tt) zero_line

abbrev post : List Bytes
post = codes "POST / HTTP/1.1" ∷ codes "Transfer-Encoding: chunked" ∷ [] ∷ []

-- The second chunked message of a connection, at its body.
abbrev second : HttpSocket
second = record (on_lines (λ t. 0) post (finished server [] [])) { header = false; chunked = true }
