-- ===== src/Ajp/Bytewise.antt =====
-- OnRawData of src/AjpBaseSocket.cpp against a reader that takes one byte at a time.
use cpp_sockets_library.Prelude.{
  subst, ℕ, zero, suc, ◌+◌, ◌*◌, ◌<◌, ◌≤◌, ◌≡◌, refl, sym, ap, ◌∙◌, true, false, ◌&&◌, Option, none,
  some, List, [], ◌∷◌, ◌++◌, ltb, leb, ◌==◌, if◌then◌else◌, length, Bytes, arith, Bool-cases, inl,
  inr,
}
use cpp_sockets_library.Prelude.Mem.{Mem, blit, slice, blit-nil}
use cpp_sockets_library.Ajp.Values.{}
use cpp_sockets_library.Ajp.{
  State, header, packet, AjpBaseSocket, Callback, on_header, on_packet, copy_length, read_more,
  finish, loop, on_raw_data,
}
use cpp_sockets_library.Ajp.Rounds.{
  after, at, copied, finish-header, finish-packet, loop-after, loop-empty, loop_last, loop_takes,
  short_at, then_calls, then_calls-append, then_calls-nil,
}

-- A packet with no bytes is delivered with its header.
unfoldable pub deliver : AjpBaseSocket → Option (AjpBaseSocket × List Callback)
deliver s = elim (finish s) [
  | none ↦ none
  | some (s1, c) ↦
      if s1.length == 0
      then elim (finish s1) [ none ↦ none | some (s2, c2) ↦ some (s2, c ∷ c2 ∷ []) ]
      else if leb s1.length 8192
      then some (s1, c ∷ [])
      else none
]

-- Take the byte `b`. A packet that is longer than the buffer is refused at its header.
unfoldable pub push : AjpBaseSocket → ℕ → Option (AjpBaseSocket × List Callback)
push s b =
    let s1 : AjpBaseSocket = record s {
      message = record s.message { cells = blit s.message.cells s.ptr (b ∷ []) };
      ptr = s.ptr + 1;
    } in
    if s.ptr + 1 == s.length then deliver s1 else some (s1, [])

unfoldable pub pushes : AjpBaseSocket → Bytes → Option (AjpBaseSocket × List Callback)
pushes s [] = some (s, [])
pushes s (b ∷ bs) = elim (push s b) [
  | none ↦ none
  | some (s1, cs) ↦ elim (pushes s1 bs) [ none ↦ none | some (s2, ds) ↦ some (s2, cs ++ ds) ]
]

-- Between two reads.
pub record IsOpen (s : AjpBaseSocket) : Type 0 where
  pub whole : s.message.size ≡ 8192
  pub unfinished : s.ptr < s.length
  pub fits : s.length ≤ 8192

-- A round that delivers goes on with the state that `deliver` gives; two rounds may be needed.
abbrev Delivers : AjpBaseSocket → Bytes → ℕ → Option (AjpBaseSocket × List Callback) → Type 0
Delivers s bs f none = Unit {0}
Delivers s bs f (some (s2, cs)) =
    IsOpen s2 × ((f' : ℕ) × (f ≤ f') × (after (suc f) s bs ≡ then_calls cs (loop f' s2 bs)))

deliver-packet :
    (f l : ℕ) (m : Mem) (bs : Bytes)
    → m.size ≡ 8192
    → l ≤ 8192
    → Delivers (at packet l l m) bs f (deliver (at packet l l m))
unfolding deliver after read_more
deliver-packet f l m bs w fits =
    let full : (ltb l 32768 && ltb l l) ≡ false = ground arith in
    let done = finish-packet l l m (omega arith) in
    rw (deliver, done)
      (
        record { whole = w; unfinished = omega arith; fits = omega arith },
        (suc f, omega arith, rw (full, done) refl),
      )

deliver-header :
    (f l : ℕ) (m : Mem) (bs : Bytes)
    → m.size ≡ 8192
    → l ≤ 8192
    → Delivers (at header l l m) bs f (deliver (at header l l m))
unfolding deliver after read_more
deliver-header f l m bs w fits =
    let len = short_at m 2 in
    let full : (ltb l 32768 && ltb l l) ≡ false = ground arith in
    let done = finish-header l l m (omega arith) in
    elim (Bool-cases (len == 0)) [
      | inl none_left ↦
          let empty : len ≡ 0 = ground arith in
          let done_too = finish-packet len 0 m (omega arith) in
          rw (deliver, done, none_left, done_too)
            (
              record { whole = w; unfinished = omega arith; fits = omega arith },
              (
                f,
                omega arith,
                rw (full, done)
                    (ap (then_calls (on_header (short_at m 0) len ∷ []))
                        (loop-empty f len m bs w empty)
                      ∙ then_calls-append (on_header (short_at m 0) len ∷ [])
                          (on_packet (slice m.cells 0 0) ∷ []) (loop f (at header 4 0 m) bs)),
              ),
            )
      | inr some_left ↦ elim (Bool-cases (leb len 8192)) [
        | inl small ↦
            rw (deliver, done, some_left, small)
              (
                record { whole = w; unfinished = ground arith; fits = ground arith },
                (suc f, omega arith, rw (full, done) refl),
              )
        | inr large ↦ rw (deliver, done, some_left, large) tt
      ]
    ]

deliver-Delivers :
    (f : ℕ) (st : State) (l : ℕ) (m : Mem) (bs : Bytes)
    → m.size ≡ 8192
    → l ≤ 8192
    → Delivers (at st l l m) bs f (deliver (at st l l m))
deliver-Delivers f header = deliver-header f
deliver-Delivers f packet = deliver-packet f

-- What the reader that takes bytes gives, and whether the socket is ready for the next read.
abbrev Reads : AjpBaseSocket → Bytes → ℕ → Option (AjpBaseSocket × List Callback) → Type 0
Reads s buf fuel none = Unit {0}
Reads s buf fuel (some (s1, cs)) = (loop fuel s buf ≡ some (s1, cs)) × IsOpen s1

pub push-more :
    (st : State) (l p : ℕ) (m : Mem) (b : ℕ)
    → p + 1 < l
    → push (at st l p m) b ≡ some (at st l (p + 1) (copied m p (b ∷ [])), [])
unfolding push copied
push-more st l p m b lt = ground arith

pub push-last :
    (st : State) (l p : ℕ) (m : Mem) (b : ℕ)
    → p + 1 ≡ l
    → push (at st l p m) b ≡ deliver (at st l l (copied m p (b ∷ [])))
unfolding push copied
push-last st l p m b eq = let last : (p + 1 == l) ≡ true = ground arith in rw (push, last, eq) refl

Reads-then :
    (s s1 : AjpBaseSocket) (buf bs : Bytes) (fuel f : ℕ) (cs : List Callback)
    (r : Option (AjpBaseSocket × List Callback))
    → loop fuel s buf ≡ then_calls cs (loop f s1 bs)
    → Reads s1 bs f r
    → Reads s buf fuel (then_calls cs r)
Reads-then s s1 buf bs fuel f cs none e h = tt
Reads-then s s1 buf bs fuel f cs (some (s2, ds)) e h = (e ∙ ap (then_calls cs) h.0, h.1)

loop-nil :
    (f : ℕ) (st : State) (l p : ℕ) (m : Mem)
    → IsOpen (at st l p m)
    → loop (suc f) (at st l p m) [] ≡ some (at st l p m, [])
unfolding copied after read_more
loop-nil f st l p m v =
    let same : copied m p [] ≡ m = ap (λ c. record m { cells = c }) (blit-nil m.cells p) in
    let takes : copy_length (at st l p m) 0 ≡ 0 = unfold copy_length in ground arith in
    let stays : p + 0 ≡ p = omega arith in
    let more : (ltb l 32768 && ltb p l) ≡ true = ground (arith, v.unfinished, v.fits) in
    loop-after f st l p m [] 0 takes (omega (arith, v.unfinished, v.fits, v.whole))
    ∙ rw (same, stays, more) refl

-- What follows the byte that completes a header or a packet.
Delivers-Reads :
    (g : ℕ) (s s1 : AjpBaseSocket) (buf bs : Bytes) (r : Option (AjpBaseSocket × List Callback))
    → loop (suc (suc g)) s buf ≡ after (suc g) s1 bs
    → Delivers s1 bs g r
    → ((s2 : AjpBaseSocket) (f : ℕ) → IsOpen s2 → g ≤ f → Reads s2 bs f (pushes s2 bs))
    → Reads s buf
        (suc (suc g))
        (elim r [ none ↦ none | some (s2, cs) ↦ then_calls cs (pushes s2 bs) ])
Delivers-Reads g s s1 buf bs none e h k = tt
Delivers-Reads g s s1 buf bs (some (s2, cs)) e (ready, (f, more, goes)) k =
    Reads-then s s2 buf bs (suc (suc g)) f cs (pushes s2 bs) (e ∙ goes) (k s2 f ready more)

loop-Reads :
    (fuel : ℕ) (st : State) (l p : ℕ) (m : Mem) (buf : Bytes)
    → IsOpen (at st l p m)
    → 2 * length buf < fuel
    → Reads (at st l p m) buf fuel (pushes (at st l p m) buf)
unfolding pushes
loop-Reads zero st l p m buf v lt = absurd (omega arith)
loop-Reads (suc f) st l p m [] v lt = (loop-nil f st l p m v, v)
loop-Reads (suc zero) st l p m (b ∷ bs) v lt = absurd (omega arith)
loop-Reads (suc (suc g)) st l p m (b ∷ bs) v lt =
    let ReadsOn : Option (AjpBaseSocket × List Callback) → Type 0 = λ r.
      Reads (at st l p m) (b ∷ bs) (suc (suc g))
        (elim r [ none ↦ none | some (s2, cs) ↦ then_calls cs (pushes s2 bs) ]) in
    elim (Bool-cases (p + 1 == l)) [
      | inl last ↦
          let full : p + 1 ≡ l = ground arith in
          let m1 = copied m p (b ∷ []) in
          subst ReadsOn (sym (push-last st l p m b full)) (
            Delivers-Reads g (at st l p m) (at st l l m1) (b ∷ bs) bs (deliver (at st l l m1))
              (loop_last (suc g) st l p m b bs v.whole full v.fits
                ∙ ap (λ k. after (suc g) (at st l k m1) bs) full)
              (deliver-Delivers g st l m1 bs (unfold copied in v.whole) v.fits)
              (λ s2 f ready more.
                loop-Reads f s2.state s2.length s2.ptr s2.message bs ready (omega arith)))
      | inr not_last ↦
          let less : p + 1 < l = ground (arith, v.unfinished) in
          let m1 = copied m p (b ∷ []) in
          subst ReadsOn (sym (push-more st l p m b less)) (
            Reads-then (at st l p m) (at st l (p + 1) m1) (b ∷ bs) bs (suc (suc g)) (suc (suc g)) []
              (pushes (at st l (p + 1) m1) bs)
              (loop_takes (suc g) st l p m b bs v.whole less v.fits ∙ then_calls-nil _)
              (loop-Reads (suc (suc g)) st l (p + 1) m1 bs
                (unfold copied in record { whole = v.whole; unfinished = less; fits = v.fits })
                (omega arith)))
    ]

-- OnRawData is the reader that takes one byte at a time, wherever that reader refuses no packet:
-- between two reads it ends with the state and the callbacks of that reader, and is ready for the
-- next read.
pub on_raw_data-pushes :
    (s : AjpBaseSocket) (buf : Bytes) (s1 : AjpBaseSocket) (cs : List Callback)
    → IsOpen s
    → pushes s buf ≡ some (s1, cs)
    → (on_raw_data s buf ≡ some (s1, cs)) × IsOpen s1
unfolding on_raw_data
on_raw_data-pushes s buf s1 cs v e =
    subst (Reads s buf (2 * length buf + 3)) e
      (loop-Reads (2 * length buf + 3) s.state s.length s.ptr s.message buf v (omega arith))
