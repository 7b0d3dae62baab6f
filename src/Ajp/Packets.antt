-- ===== src/Ajp/Packets.antt =====
-- OnRawData of src/AjpBaseSocket.cpp on whole packets.
use cpp_sockets_library.Prelude.{
  ℕ, suc, ◌+◌, ◌/◌, ◌%◌, ◌≤◌, ◌≡◌, refl, sym, ap, ◌∙◌, true, false, Option, none, some, List, [],
  ◌∷◌, ◌++◌, leb, ◌==◌, if◌then◌else◌, length, Bytes, All, arith, Bool-cases, inl, inr, append-nil,
}
use cpp_sockets_library.Prelude.Mem.{Mem, blit, slice, slice-blit, slice-four, slice-zero, blit-suc}
use cpp_sockets_library.Ajp.{
  State, header, packet, finish, AjpBaseSocket, Callback, on_header, on_packet,
}
use cpp_sockets_library.Ajp.Bytewise.{IsOpen, deliver, pushes, push-more, push-last}
use cpp_sockets_library.Ajp.Rounds.{
  at, copied, then_calls, then_calls-nil, short_at, finish-header, finish-packet,
}
use cpp_sockets_library.Ajp.Cuts.{goes_on, goes_on-append, join, pushes-append, reads, reads-join}

copied-suc :
    (m : Mem) (p x : ℕ) (xs : Bytes) → copied (copied m p (x ∷ [])) (p + 1) xs ≡ copied m p (x ∷ xs)
unfolding copied
copied-suc m p x xs = ap (λ c. record m { cells = c }) (blit-suc m.cells p x xs)

-- The bytes that complete a header or a packet.
pushes-full :
    (st : State) (l p : ℕ) (m : Mem) (x : ℕ) (xs : Bytes)
    → p + suc (length xs) ≡ l
    → pushes (at st l p m) (x ∷ xs) ≡ goes_on [] (deliver (at st l l (copied m p (x ∷ xs))))
unfolding pushes
pushes-full st l p m x [] h = rw (pushes, push-last st l p m x (omega arith)) refl
pushes-full st l p m x (y ∷ ys) h =
    rw (pushes, push-more st l p m x (omega arith))
      (sym (then_calls-nil _)
        ∙ pushes-full st l (p + 1) (copied m p (x ∷ [])) y ys (omega arith)
        ∙ ap (λ k. goes_on [] (deliver (at st l l k))) (copied-suc m p x (y ∷ ys)))

goes_on-nil : (r : Option (AjpBaseSocket × List Callback)) → goes_on [] r ≡ r
unfolding pushes
goes_on-nil none = refl
goes_on-nil (some (s, cs)) = ap (λ x. some (s, x)) (append-nil cs)

-- A packet with an id and its bytes, as it is sent.
pub record Packet : Type 0 where
  pub id : ℕ
  pub body : Bytes

abbrev pub header_of : Packet → Bytes
header_of q = q.id / 256 ∷ q.id % 256 ∷ length q.body / 256 ∷ length q.body % 256 ∷ []

unfoldable pub stream : List Packet → Bytes
stream [] = []
stream (q ∷ qs) = header_of q ++ (q.body ++ stream qs)

-- What is to be called for the packets.
pub calls_for : List Packet → List Callback
calls_for [] = []
calls_for (q ∷ qs) = on_header q.id (length q.body) ∷ on_packet q.body ∷ calls_for qs

abbrev pub IsShort : Packet → Type 0
IsShort q = length q.body ≤ 8192

short_at-header :
    (m : Mem) (q : Packet)
    → (short_at (copied m 0 (header_of q)) 0 ≡ q.id)
      × (short_at (copied m 0 (header_of q)) 2 ≡ length q.body)
unfolding copied
short_at-header m q =
    let c = blit m.cells 0 (header_of q) in
    let cells : c 0 ∷ c 1 ∷ c 2 ∷ c 3 ∷ [] ≡ header_of q =
      sym (slice-four c) ∙ slice-blit m.cells 0 (header_of q) in
    let c0 : c 0 ≡ q.id / 256 = cc in
    let c1 : c 1 ≡ q.id % 256 = cc in
    let c2 : c 2 ≡ length q.body / 256 = cc in
    let c3 : c 3 ≡ length q.body % 256 = cc in
    (rw (c0, c1) (omega arith), rw (c2, c3) (omega arith))

abbrev fresh : Mem → AjpBaseSocket
fresh m = at header 4 0 m

deliver-length :
    (n l id : ℕ) (m : Mem)
    → m.size ≡ 8192
    → n ≤ 8192
    → short_at m 0 ≡ id
    → short_at m 2 ≡ n
    → deliver (at header 4 4 m) ≡ (
        if n == 0
        then some (fresh m, on_header id n ∷ on_packet [] ∷ [])
        else some (at packet n 0 m, on_header id n ∷ []))
unfolding deliver
deliver-length n l id m w short e0 e2 =
    let done : finish (at header 4 4 m) ≡ some (at packet n 0 m, on_header id n) =
      rw⁻¹ (e0, e2) (finish-header 4 4 m (omega arith)) in
    rw (deliver, done)
      (elim (Bool-cases (n == 0)) [
        | inl b ↦
            let none_there : slice m.cells 0 0 ≡ [] = slice-zero m.cells 0 in
            rw (b, finish-packet n 0 m (omega arith), none_there) refl
        | inr b ↦ let small : leb n 8192 ≡ true = ground arith in rw (b, small) refl
      ])

-- The bytes of a packet, from its header on.
delivered :
    (m : Mem) (q : Packet)
    → m.size ≡ 8192
    → IsShort q
    → pushes (fresh m) (header_of q) ≡ (
        let m1 = copied m 0 (header_of q) in
        let n = length q.body in
        if n == 0
        then some (fresh m1, on_header q.id n ∷ on_packet [] ∷ [])
        else some (at packet n 0 m1, on_header q.id n ∷ []))
delivered m q w short =
    let (id, len) = short_at-header m q in
    pushes-full header 4 0 m _ _ (omega arith)
    ∙ goes_on-nil _
    ∙ deliver-length (length q.body) 4 q.id (copied m 0 (header_of q)) (unfold copied in w) short id
        len

abbrev Done : Mem → Packet → Type 0
Done m q =
    (m' : Mem) × (m'.size ≡ 8192)
    × (goes_on q.body (pushes (fresh m) (header_of q))
        ≡ some (fresh m', on_header q.id (length q.body) ∷ on_packet q.body ∷ []))

deliver-body :
    (m : Mem) (xs : Bytes)
    → m.size ≡ 8192
    → length xs ≤ 8192
    → deliver (at packet (length xs) (length xs) (copied m 0 xs))
      ≡ some (fresh (copied m 0 xs), on_packet xs ∷ [])
unfolding deliver copied
deliver-body m xs w short =
    let room : length xs ≤ (copied m 0 xs).size = omega arith in
    rw
      (deliver, finish-packet (length xs) (length xs) (copied m 0 xs) room, slice-blit m.cells 0 xs)
      refl

pushes-packet :
    (m : Mem) (id : ℕ) (body : Bytes)
    → m.size ≡ 8192
    → length body ≤ 8192
    → Done m (record { id = id; body = body })
pushes-packet m id [] w short =
    let q : Packet = record { id = id; body = [] } in
    (
      copied m 0 (header_of q),
      unfold copied in w,
      ap (goes_on []) (delivered m q w short) ∙ goes_on-nil _,
    )
pushes-packet m id (x ∷ xs) w short =
    let q : Packet = record { id = id; body = x ∷ xs } in
    let m1 = copied m 0 (header_of q) in
    let m2 = copied m1 0 (x ∷ xs) in
    let some_left : (suc (length xs) == 0) ≡ false = ground arith in
    let body_done : pushes (at packet (suc (length xs)) 0 m1) (x ∷ xs)
        ≡ some (fresh m2, on_packet (x ∷ xs) ∷ []) =
      pushes-full packet (suc (length xs)) 0 m1 x xs (omega arith)
      ∙ goes_on-nil _
      ∙ deliver-body m1 (x ∷ xs) (unfold copied in w) short in
    (
      m2,
      unfold copied in w,
      ap (goes_on (x ∷ xs)) (delivered m q w short) ∙ rw (some_left, body_done) refl,
    )

pushes-stream :
    (m : Mem) (qs : List Packet)
    → m.size ≡ 8192
    → All IsShort qs
    → (m' : Mem) × (pushes (fresh m) (stream qs) ≡ some (fresh m', calls_for qs))
unfolding stream calls_for pushes
pushes-stream m [] w v = (m, refl)
pushes-stream m (q ∷ qs) w v =
    let (m1, w1, done) = pushes-packet m q.id q.body w v.0 in
    let (m2, rest) = pushes-stream m1 qs w1 v.1 in
    (
      m2,
      pushes-append (fresh m) (header_of q) (q.body ++ stream qs)
          ∙ goes_on-append q.body (stream qs) (pushes (fresh m) (header_of q))
              (λ s. pushes-append s q.body (stream qs))
          ∙ ap (goes_on (stream qs)) done
          ∙ ap (then_calls (on_header q.id (length q.body) ∷ on_packet q.body ∷ [])) rest,
    )

-- Whatever the cuts between the reads of a stream of packets, each of at most 8192 bytes, OnHeader
-- and OnPacket are called once for each packet, in order and with all of its
-- bytes, and the socket is left waiting for the next header.
pub reads-stream :
    (m : Mem) (qs : List Packet) (bs : List Bytes)
    → m.size ≡ 8192
    → All IsShort qs
    → join bs ≡ stream qs
    → (s : AjpBaseSocket) × (reads (fresh m) bs ≡ some (s, calls_for qs))
      × (s.state ≡ header)
      × (s.length ≡ 4)
      × (s.ptr ≡ 0)
reads-stream m qs bs w short e =
    let (m1, done) = pushes-stream m qs w short in
    let start : IsOpen (fresh m) = record {
      whole = w;
      unfinished = omega arith;
      fits = omega arith;
    } in
    (
      fresh m1,
      reads-join (fresh m) bs (fresh m1) (calls_for qs) start (ap (pushes (fresh m)) e ∙ done),
      refl,
      refl,
      refl,
    )
