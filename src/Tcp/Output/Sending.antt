-- ===== src/Tcp/Output/Sending.antt =====
-- Sending keeps the stream: what the kernel has accepted, followed by what waits, grows only by
-- the bytes that the caller sends, in their order.
use cpp_sockets_library.Prelude.{
  ◌≡◌, refl, ◌≤◌, Bool, true, false, not, ◌&&◌, ◌||◌, some, List, [], ◌∷◌, ◌++◌, ◌||◌, inl, inr,
  ◌∙◌, sym, ap, arith, append-nil, append_assoc, Bytes, take, drop, length, take-drop, ltb,
  Bool-cases, ltb_false→le, if◌then◌else◌,
}
use cpp_sockets_library.Prelude.Mem.{}
use cpp_sockets_library.Tcp.Output.{
  Block, data_of, pending, Out, buffer, on_transfer_limit, log_not_connected, after_write, Kernel,
  try_write, send_blocks, send_from_output_buffer, update_monitor, emit, send_buf, buffer_rest,
  is_ready, log_refusal,
}
use cpp_sockets_library.Tcp.Output.Queueing.{IsValid, nonempty, buffer-append}
use cpp_sockets_library.Tcp.Output.Rounds.{
  stream, wrote-wire, Kept, take_all, after_write-Kept, after_write-repeat,
}

none_pending : (bs : List Block) → nonempty bs ≡ false → pending bs ≡ []
unfolding pending
none_pending [] h = refl
none_pending (p ∷ ps) h = cc

-- Two states with the same queue and wire.
record Alike (o o' : Out) : Type 0 where
  obuf : o'.obuf ≡ o.obuf
  wire : o'.wire ≡ o.wire
  top : o'.top ≡ o.top
  len : o'.output_length ≡ o.output_length

Alike-Kept : (o o' : Out) → Alike o o' → IsValid o → Kept o o'
Alike-Kept o o' a v = (
  rw (a.wire, a.obuf),
  record {
    blocks = rw a.obuf v.blocks;
    top_is = a.top ∙ v.top_is ∙ ap nonempty (sym a.obuf);
    counted = a.len ∙ v.counted ∙ ap (λ bs. length (pending bs)) (sym a.obuf);
  },
)

update_monitor-Alike : (o : Out) → Alike o (update_monitor o)
unfolding update_monitor
update_monitor-Alike o = ground arith

log_refusal-Alike : (o : Out) → Alike o (log_refusal o)
unfolding log_refusal
log_refusal-Alike o = ground arith

limit-Alike : (b : Bool) (o : Out) → Alike o (if b then emit on_transfer_limit o else o)
limit-Alike b o = ground arith

Kept-Alike : (a b c : Out) → Kept a b → Alike b c → Kept a c
Kept-Alike a b c x y = let (s, v) = Alike-Kept b c y x.1 in (s ∙ x.0, v)

buffer-stream :
    (o : Out) (s : Bytes)
    → IsValid o
    → (d : Out) × (buffer o s ≡ some d) × (stream d ≡ stream o ++ s) × IsValid d
buffer-stream o s v =
    let (d, e, p, v', same) = buffer-append o s v in
    (d, e, rw (ap (λ (r : Out). r.wire) same, p) (sym (append_assoc o.wire (pending o.obuf) s)), v')

module _ (K : Kernel) where
  open K use {State}

  try_write-wire :
      (k : State) (o : Out) (s : Bytes)
      → let (k', o', n) = try_write K k o s in
        (o'.wire ≡ o.wire ++ take n s)
        × (n ≤ length s)
        × (o'.obuf ≡ o.obuf)
        × (o'.top ≡ o.top)
        × (o'.output_length ≡ o.output_length)
  unfolding try_write
  try_write-wire k o s = wrote-wire (K.send k s).0 s o (λ n e. K.accepts_at_most k s n e)

  send_blocks-Kept :
      (ps : List Block) (k : State) (o : Out)
      → o.obuf ≡ ps
      → IsValid o
      → Kept o (send_blocks K ps k o).1
  unfolding send_blocks
  send_blocks-Kept [] k o e v =
      (refl, record { blocks = v.blocks; top_is = v.top_is; counted = v.counted })
  send_blocks-Kept (p ∷ ps) k o e v =
      let r = try_write K k o (data_of p) in
      let (w, small, obuf, top, len) = try_write-wire k o (data_of p) in
      let kept = after_write-Kept p ps o r.1 r.2 e v w small obuf top len in
      let next = after_write p ps r.1 r.2 in
      elim (Bool-cases next.1) [
        | inl again ↦
            let at = after_write-repeat p ps o r.1 r.2 e v w small obuf top len again in
            let later = send_blocks-Kept ps r.0 next.0 at kept.1 in
            rw again (later.0 ∙ kept.0, later.1)
        | inr done ↦ rw done kept
      ]

  -- On a valid queue SendFromOutputBuffer only moves bytes from the front of the output buffer
  -- to the wire: the stream of bytes stays the same, whatever send() answers, and the queue
  -- stays valid.
  pub send_from_output_buffer-stream :
      (k : State) (o : Out)
      → IsValid o
      → let o' = (send_from_output_buffer K k o).1 in (stream o' ≡ stream o) × IsValid o'
  unfolding send_from_output_buffer
  send_from_output_buffer-stream k o v =
      let blocks = send_blocks-Kept o.obuf k o refl v in
      let sent = (send_blocks K o.obuf k o).1 in
      let limited = Kept-Alike o sent _ blocks (limit-Alike _ sent) in
      Kept-Alike o _ _ limited (update_monitor-Alike _)

  -- The path that writes at once: nothing waits, so the bytes that send() leaves are next.
  direct :
      (k : State) (o : Out) (s : Bytes)
      → IsValid o
      → o.top ≡ false
      → let r = try_write K k o s in
        (d : Out) × (buffer_rest r.1 s r.2 ≡ some d) × (stream d ≡ stream o ++ s) × IsValid d
  unfolding buffer_rest
  direct k o s v none_waits =
      let r = try_write K k o s in
      let (w, small, obuf, top, len) = try_write-wire k o s in
      let v1 : IsValid r.1 = record {
        blocks = rw obuf v.blocks;
        top_is = top ∙ v.top_is ∙ ap nonempty (sym obuf);
        counted = len ∙ v.counted ∙ ap (λ bs. length (pending bs)) (sym obuf);
      } in
      let empty : pending o.obuf ≡ [] = none_pending o.obuf (sym v.top_is ∙ none_waits) in
      let empty1 : pending r.1.obuf ≡ [] = ap pending obuf ∙ empty in
      elim (Bool-cases (ltb r.2 (length s))) [
        | inl some_left ↦
            let (d, e, st, v') = buffer-stream r.1 (drop r.2 s) v1 in
            (
              d,
              rw some_left e,
              st ∙ rw (w, empty1, empty, append-nil, append-nil, append_assoc, take-drop),
              v',
            )
        | inr all ↦
            let whole = take_all r.2 s (ltb_false→le _ _ all) in
            (r.1, rw all, rw (w, empty1, empty, whole, append-nil, append-nil), v1)
      ]

  -- SendBuf on a socket with a valid queue that is ready or connecting ends without a fault, and
  -- adds exactly the bytes given at the end of the stream: some are accepted by send() and the
  -- rest wait, none is lost, doubled or moved, also when send() fails. The queue is valid again.
  pub send_buf-stream :
      (k : State) (o : Out) (s : Bytes)
      → IsValid o
      → (is_ready o || o.connecting) ≡ true
      → (k' : State) × (o' : Out) × (send_buf K k o s ≡ some (k', o'))
        × (stream o' ≡ stream o ++ s)
        × IsValid o'
  unfolding send_buf
  send_buf-stream k o s v h =
      let allowed : (not (is_ready o) && not o.connecting) ≡ false = ground arith in
      elim (Bool-cases o.connected) [
        | inr c ↦
            let o1 = emit log_not_connected o in
            let (d, e, st, v') =
              buffer-stream o1 s
                (Alike-Kept o o1 (record { obuf = refl; wire = refl; top = refl; len = refl })
                  v).1 in
            (k, d, ground (arith, e, allowed), st, v')
        | inl c ↦ elim (Bool-cases o.top) [
          | inl t ↦
              let (d, e, st, v') = buffer-stream o s v in (k, d, ground (arith, e, allowed), st, v')
          | inr t ↦
              let (d, e, st, v') = direct k o s v t in
              let kept = Alike-Kept d (update_monitor d) (update_monitor-Alike d) v' in
              (
                (try_write K k o s).0,
                update_monitor d,
                ground (arith, e, allowed),
                kept.0 ∙ st,
                kept.1,
              )
        ]
      ]

  -- On a socket that is neither ready nor connecting SendBuf only logs: nothing is sent and
  -- nothing waits more than before.
  pub send_buf_refused :
      (k : State) (o : Out) (s : Bytes)
      → (is_ready o || o.connecting) ≡ false
      → (o' : Out) × (send_buf K k o s ≡ some (k, o'))
        × (o'.wire ≡ o.wire)
        × (o'.obuf ≡ o.obuf)
        × (o'.output_length ≡ o.output_length)
  unfolding send_buf
  send_buf_refused k o s h =
      let refused : (not (is_ready o) && not o.connecting) ≡ true = ground arith in
      let a = log_refusal-Alike o in (log_refusal o, rw refused, a.wire, a.obuf, a.len)
