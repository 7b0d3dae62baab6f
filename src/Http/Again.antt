-- ===== src/Http/Again.antt =====
-- The message behind a chunked one in src/HTTPSocket.cpp.
use cpp_sockets_library.Prelude.{ℕ, ◌≡◌, true, false, some, List, [], ◌∷◌, Bytes}
use cpp_sockets_library.Http.{on_data_complete, HttpSocket, act, next_message, on_raw_data, on_line}

pub on_lines : (Bytes → ℕ) → List Bytes → HttpSocket → HttpSocket
on_lines atol [] s = s
on_lines atol (l ∷ ls) s = on_lines atol ls (on_line atol l s)

-- The chunk state and the chunk line of `t` are those of `s`.
abbrev Keeps : HttpSocket → HttpSocket → Type 0
Keeps s t = (t.chunk_state ≡ s.chunk_state) × (t.chunk_line ≡ s.chunk_line)

-- A socket in the state that a chunked body leaves, at the first bytes of another one.
abbrev stale : HttpSocket → HttpSocket
stale s = record s { header = false; chunked = true; chunk_state = 4; chunk_line = 13 ∷ 10 ∷ [] }

abbrev EndsAtOnce : ℕ → Bytes → HttpSocket → Type 0
EndsAtOnce b bs s =
    on_raw_data (b ∷ bs) s
    ≡ some (next_message (b ∷ bs) (record (act on_data_complete s) { chunked = false }))
