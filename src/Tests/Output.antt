-- ===== src/Tests/Output.antt =====
-- A connection whose kernel takes two bytes of each call of send.
use cpp_sockets_library.Prelude.{
  ℕ, ◌+◌, ◌≤◌, ◌≡◌, refl, true, false, ◌||◌, some, [], ◌∷◌, ◌++◌, Bytes, length, arith, leb,
  if◌then◌else◌,
}
use cpp_sockets_library.Tcp.Output.{
  Out, accepted, Kernel, pending, buffer, send_buf, send_from_output_buffer, is_ready,
}
use cpp_sockets_library.Tcp.Output.Queueing.{IsValid, buffer-append}
use cpp_sockets_library.Tcp.Output.Rounds.{stream}
use cpp_sockets_library.Tcp.Output.Sending.{send_buf-stream, send_from_output_buffer-stream}

abbrev word : Bytes
word = b'a' ∷ b'b' ∷ b'c' ∷ []

two_at_most :
    (s : Bytes) (n : ℕ)
    → accepted (if leb (length s) 2 then length s else 2) ≡ accepted n
    → n ≤ length s
two_at_most s n e = ground arith

-- The state counts the calls.
abbrev kernel : Kernel
kernel = record {
  State = ℕ;
  send = λ k s. (accepted (if leb (length s) 2 then length s else 2), k + 1);
  accepts_at_most = λ k. two_at_most;
}

abbrev out : Out
out = record {
  obuf = [];
  top = false;
  output_length = 0;
  bytes_sent = 0;
  wire = [];
  transfer_limit = 0;
  socket_valid = true;
  connecting = false;
  connected = true;
  disable_read = false;
  close_and_delete = false;
  flush_before_close = true;
  lost = false;
  events = [];
}

out-IsValid : IsValid out
out-IsValid = record { blocks = tt; top_is = refl; counted = unfold pending in refl }

buffer-append_example :
    (d : Out) × (buffer out word ≡ some d)
    × (pending d.obuf ≡ pending out.obuf ++ word)
    × IsValid d
    × (d ≡ record out { obuf = d.obuf; top = d.top; output_length = 3 })
buffer-append_example = buffer-append out word out-IsValid

send_from_output_buffer-stream_example :
    let o' = (send_from_output_buffer kernel 0 out).1 in (stream o' ≡ stream out) × IsValid o'
send_from_output_buffer-stream_example = send_from_output_buffer-stream kernel 0 out out-IsValid

out-ready : (is_ready out || out.connecting) ≡ true
out-ready = unfold is_ready in refl

send_buf-stream_example :
    (k' : ℕ) × (o' : Out) × (send_buf kernel 0 out word ≡ some (k', o'))
    × (stream o' ≡ stream out ++ word)
    × IsValid o'
send_buf-stream_example = send_buf-stream kernel 0 out word out-IsValid out-ready

abbrev closed : Out
closed = record out { close_and_delete = true }

closed-refused : (is_ready closed || closed.connecting) ≡ false
closed-refused = unfold is_ready in refl
