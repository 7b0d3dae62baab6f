-- ===== src/Tests/Packets.antt =====
-- AJP13 packets.
use cpp_sockets_library.Prelude.{◌≢◌, ◌≡◌, refl, none, some, List, [], ◌∷◌, Bytes, All, arith}
use cpp_sockets_library.Prelude.Mem.{Mem, blit}
use cpp_sockets_library.Ajp.{header, packet, AjpBaseSocket, put_string, get_string, on_raw_data}
use cpp_sockets_library.Ajp.Values.{put_string-get_string}
use cpp_sockets_library.Ajp.Bytewise.{IsOpen, push, pushes}
use cpp_sockets_library.Ajp.Cuts.{join, reads, reads-join}
use cpp_sockets_library.Ajp.Packets.{Packet, IsShort, stream, calls_for, reads-stream}
use cpp_sockets_library.Ajp.Faults.{on_raw_data-outside}

abbrev blank : Mem
blank = record { size = 8192; cells = λ i. 0 }

abbrev word : Bytes
word = b'G' ∷ b'E' ∷ b'T' ∷ []

word-NonZero : All (λ c. c ≢ 0) word
word-NonZero = (omega arith, (omega arith, (omega arith, tt)))

put_string-get_string_example :
    (m' : Mem) × (put_string blank 10 word ≡ some (m', 16)) × (get_string m' 10 ≡ some (word, 16))
put_string-get_string_example =
    put_string-get_string blank 10 word word-NonZero (omega arith) (omega arith)

abbrev waiting : AjpBaseSocket
waiting = record { state = header; length = 4; ptr = 0; message = blank }

waiting-IsOpen : IsOpen waiting
waiting-IsOpen = record { whole = refl; unfinished = omega arith; fits = omega arith }

abbrev sent : List Packet
sent = record { id = 4660; body = word } ∷ record { id = 7; body = [] } ∷ []

sent-IsShort : All IsShort sent
sent-IsShort = (omega arith, (omega arith, tt))

-- The first read ends inside the header.
abbrev pieces : List Bytes
pieces = (0x12 ∷ 0x34 ∷ 0 ∷ []) ∷ (3 ∷ b'G' ∷ b'E' ∷ []) ∷ (b'T' ∷ 0 ∷ 7 ∷ 0 ∷ 0 ∷ []) ∷ []

pieces-stream : join pieces ≡ stream sent
unfolding join stream
pieces-stream = refl

reads-stream_example :
    (s : AjpBaseSocket) × (reads waiting pieces ≡ some (s, calls_for sent))
    × (s.state ≡ header)
    × (s.length ≡ 4)
    × (s.ptr ≡ 0)
reads-stream_example = reads-stream blank sent pieces refl sent-IsShort pieces-stream

abbrev two_in : AjpBaseSocket
two_in = record {
  state = header;
  length = 4;
  ptr = 2;
  message = record blank { cells = blit (blit blank.cells 0 (0x12 ∷ [])) 1 (0x34 ∷ []) };
}

two_in-pushes : pushes waiting (0x12 ∷ 0x34 ∷ []) ≡ some (two_in, [])
unfolding pushes push
two_in-pushes = refl

reads-join_example : reads waiting ((0x12 ∷ []) ∷ (0x34 ∷ []) ∷ []) ≡ some (two_in, [])
reads-join_example =
    reads-join waiting ((0x12 ∷ []) ∷ (0x34 ∷ []) ∷ []) two_in [] waiting-IsOpen
      (unfold join in two_in-pushes)

abbrev nearly_full : AjpBaseSocket
nearly_full = record { state = packet; length = 9000; ptr = 8190; message = blank }

on_raw_data-outside_example : on_raw_data nearly_full word ≡ none
on_raw_data-outside_example =
    on_raw_data-outside nearly_full word refl (omega arith) (omega arith) (omega arith)
