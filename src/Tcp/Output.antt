-- ===== src/Tcp/Output.antt =====
-- The output queue of src/TcpSocket.cpp: OUTPUT, Buffer, TryWrite, SendFromOutputBuffer and
-- SendBuf, for a connection without SSL. The socket calls and the virtual callbacks are recorded
-- as events; the callbacks are the library's own, which do nothing to the socket.
pub mod Rounds
pub mod Sending
pub mod Queueing
use cpp_sockets_library.Prelude.{
  ◌>>=◌, ℕ, zero, suc, ◌+◌, ◌-◌, ◌*◌, ◌%◌, ◌^◌, ◌≡◌, ◌≤◌, ◌<◌, Bool, true, false, not, ◌&&◌, ◌||◌,
  Option, none, some, List, [], ◌∷◌, ◌++◌, ltb, leb, ◌==◌, if◌then◌else◌, Bytes, length, take, drop,
}
use cpp_sockets_library.Prelude.Mem.{Mem, copy_in, slice}

-- TCP_OUTPUT_CAPACITY of src/TcpSocket.h
abbrev pub capacity : ℕ
capacity = 1024000

-- struct OUTPUT. The constructor leaves `_buf` as it is; no byte of it is read before it is written.
pub record Block : Type 0 where
  pub b : ℕ
  pub t : ℕ
  pub q : ℕ
  pub buf : Mem

pub new_block : Block
new_block = record { b = 0; t = 0; q = 0; buf = record { size = capacity; cells = λ _. 0 } }

pub block_space : Block → ℕ
block_space p = capacity - p.t

pub add : Block → Bytes → Option Block
add p s = do
  buf' ← copy_in p.buf p.t s
  some (record { b = p.b; t = p.t + length s; q = p.q + length s; buf = buf' })

-- Remove(len); its result is the new `_q`.
pub remove : Block → ℕ → Block
remove p n = record p { b = p.b + n; q = p.q - n }

-- The `Len()` bytes at `Buf()`.
pub data_of : Block → Bytes
data_of p = slice p.buf.cells p.b p.q

pub data Event : Type 0 where
  log_not_ready log_no_socket log_connecting log_closing log_not_connected log_empty : Event
  on_disconnect on_write_complete on_transfer_limit handler_set_close : Event
  log_send : ℕ → Event
  on_disconnect_with : ℕ → ℕ → Event
  monitor_for : Bool → Bool → Event

-- The fields that sending reads and writes. `m_obuf_top` is NULL or the last block of `m_obuf`:
-- `top` says which. `wire` is what `send` has accepted, in order, which is also what the traffic
-- monitor is given.
pub record Out : Type 0 where
  pub obuf : List Block
  pub top : Bool
  pub output_length : ℕ
  pub bytes_sent : ℕ
  pub wire : Bytes
  pub transfer_limit : ℕ
  pub socket_valid : Bool
  pub connecting : Bool
  pub connected : Bool
  pub disable_read : Bool
  pub close_and_delete : Bool
  pub flush_before_close : Bool
  pub lost : Bool
  pub events : List Event

abbrev pub emit : Event → Out → Out
emit e o = record o { events = o.events ++ (e ∷ []) }

-- SetCloseAndDelete(x) of src/Socket.cpp
pub set_close_and_delete : Bool → Out → Out
set_close_and_delete true o =
    if o.close_and_delete then o else emit handler_set_close (record o { close_and_delete = true })
set_close_and_delete false o = record o { close_and_delete = false }

-- StreamSocket::Ready
unfoldable pub is_ready : Out → Bool
is_ready o = o.socket_valid && not o.connecting && not o.close_and_delete

-- The bytes that wait in the output buffer.
unfoldable pub pending : List Block → Bytes
pending [] = []
pending (p ∷ ps) = data_of p ++ pending ps

pub last_space : List Block → ℕ
last_space [] = 0
last_space (p ∷ []) = block_space p
last_space (p ∷ p' ∷ ps) = last_space (p' ∷ ps)

pub add_last : List Block → Bytes → Option (List Block)
add_last [] s = none
add_last (p ∷ []) s = do p' ← add p s; some (p' ∷ [])
add_last (p ∷ p' ∷ ps) s = do ps' ← add_last (p' ∷ ps) s; some (p ∷ ps')

-- One round of the loop of Buffer, on the bytes that are left.
pub buffer_step : Out → Bytes → Option (Out × Bytes)
buffer_step o s =
    let space = (if o.top then last_space o.obuf else 0) in
    if ltb 0 space
    then (do
      let sz = (if leb (length s) space then length s else space)
      obuf' ← add_last o.obuf (take sz s)
      some (record o { obuf = obuf' }, drop sz s))
    else some (record o { obuf = o.obuf ++ (new_block ∷ []); top = true }, s)

-- `none` is a fault, or the end of the fuel.
pub buffer_loop : ℕ → Out → Bytes → Option Out
buffer_loop zero o s = none
buffer_loop (suc fuel) o [] = some o
buffer_loop (suc fuel) o (x ∷ s) = do (o', rest) ← buffer_step o (x ∷ s); buffer_loop fuel o' rest

-- A round copies a byte at least or opens a block that has room.
pub buffer : Out → Bytes → Option Out
buffer o s =
    buffer_loop (2 * length s + 2) (record o { output_length = o.output_length + length s }) s

-- What send() answers: a count of bytes, EWOULDBLOCK, or another error number.
pub data Sent : Type 0 where
  accepted : ℕ → Sent
  would_block : Sent
  failed : ℕ → Sent

-- The operating system's side of a connection.
pub record Kernel : Type 1 where
  pub State : Type 0
  pub send : State → Bytes → Sent × State
  pub accepts_at_most : (k : State) (s : Bytes) (n : ℕ) → (send k s).0 ≡ accepted n → n ≤ length s

-- The socket calls of TryWrite after an answer of send(); the result is its return value.
pub wrote : Sent → Bytes → Out → Out × ℕ
unfolding set_close_and_delete
wrote (accepted n) s o =
    if ltb 0 n
    then (record o { bytes_sent = (o.bytes_sent + n) % 2 ^ 64; wire = o.wire ++ take n s }, n)
    else (o, n)
wrote would_block s o = (o, 0)
wrote (failed e) s o =
    let o' = emit (on_disconnect_with 3 e) (emit on_disconnect (emit (log_send e) o)) in
    (record (set_close_and_delete true o') { flush_before_close = false; lost = true }, 0)

-- `if (m_obuf.size()) ISocketHandler_Mod(this, br, true); else …(this, br, false);`
pub update_monitor : Out → Out
update_monitor o = elim o.obuf [
  | [] ↦ emit (monitor_for (not o.disable_read) false) o
  | _ ∷ _ ↦ emit (monitor_for (not o.disable_read) true) o
]

-- The first block is sent and erased; the Boolean is `repeat`.
pub erase_first : List Block → Out → Out × Bool
erase_first [] o = (emit on_write_complete (record o { obuf = []; top = false }), false)
erase_first (p ∷ ps) o = (record o { obuf = p ∷ ps }, true)

-- One round of the loop of SendFromOutputBuffer, after TryWrite on the first block has
-- returned `n`.
pub after_write : Block → List Block → Out → ℕ → Out × Bool
unfolding erase_first remove
after_write p ps o n =
    let counted : Out = record o { output_length = o.output_length - n } in
    if ltb 0 n
    then (if (remove p n).q == 0
        then erase_first ps counted
        else (record counted { obuf = remove p n ∷ ps }, false))
    else (o, false)

-- `if (n >= 0 && n < (int)len) Buffer(buf + n, len - n);`
pub buffer_rest : Out → Bytes → ℕ → Option Out
unfolding buffer
buffer_rest o s n = if ltb n (length s) then buffer o (drop n s) else some o

-- The log calls of SendBuf on a socket that is neither ready nor connecting.
pub log_refusal : Out → Out
log_refusal o =
    let o1 = emit log_not_ready o in
    let o2 = (if o.socket_valid then o1 else emit log_no_socket o1) in
    let o3 = (if o.connecting then emit log_connecting o2 else o2) in
    if o.close_and_delete then emit log_closing o3 else o3

module _ (K : Kernel) where
  pub try_write : K.State → Out → Bytes → K.State × Out × ℕ
  unfolding wrote
  try_write k o s = let (answer, k') = K.send k s in let (o', n) = wrote answer s o in (k', o', n)

  -- The do-while loop of SendFromOutputBuffer on the blocks of `m_obuf`.
  pub send_blocks : List Block → K.State → Out → K.State × Out
  unfolding try_write after_write
  send_blocks [] k o = (k, emit log_empty o)
  send_blocks (p ∷ ps) k o =
      let r = try_write k o (data_of p) in
      let next = after_write p ps r.1 r.2 in
      let again = send_blocks ps r.0 next.0 in if next.1 then again else (r.0, next.0)

  pub send_from_output_buffer : K.State → Out → K.State × Out
  unfolding send_blocks update_monitor
  send_from_output_buffer k o =
      let sz = (if ltb 0 o.transfer_limit then o.output_length else 0) in
      let (k', o') = send_blocks o.obuf k o in
      let crossed =
        ltb 0 o'.transfer_limit
        && ltb o'.transfer_limit sz
        && ltb o'.output_length o'.transfer_limit in
      (k', update_monitor (if crossed then emit on_transfer_limit o' else o'))

  pub send_buf : K.State → Out → Bytes → Option (K.State × Out)
  send_buf k o s =
      if not (is_ready o) && not o.connecting
      then some (k, log_refusal o)
      else if not o.connected
      then (do o' ← buffer (emit log_not_connected o) s; some (k, o'))
      else if o.top
      then (do o' ← buffer o s; some (k, o'))
      else (do let r = try_write k o s; o' ← buffer_rest r.1 s r.2; some (r.0, update_monitor o'))
