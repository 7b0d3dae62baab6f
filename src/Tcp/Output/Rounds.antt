-- ===== src/Tcp/Output/Rounds.antt =====
-- One round of sending: the answer of send(), and what happens to the first block.
use cpp_sockets_library.Prelude.{
  ℕ, zero, suc, ◌+◌, ◌-◌, ◌≡◌, refl, ◌≤◌, true, List, [], ◌∷◌, ◌++◌, inl, inr, ◌∙◌, sym, ap, arith,
  append-nil, append_assoc, Bytes, take, drop, length, length-append, length-take, take-drop, All,
  ltb, ◌==◌, Bool-cases, ltb_false→le, ==→eq,
}
use cpp_sockets_library.Prelude.Mem.{drop-slice, length-slice}
use cpp_sockets_library.Tcp.Output.{
  Block, data_of, remove, pending, Out, Sent, after_write, erase_first, accepted, would_block,
  failed, wrote, set_close_and_delete,
}
use cpp_sockets_library.Tcp.Output.Queueing.{BlockValid, IsValid, nonempty}

-- All bytes of the stream so far: accepted by the kernel, then waiting.
abbrev pub stream : Out → Bytes
stream o = o.wire ++ pending o.obuf

data_of-remove :
    (p : Block) (n : ℕ)
    → BlockValid p
    → n ≤ p.q
    → (data_of (remove p n) ≡ drop n (data_of p)) × BlockValid (remove p n)
unfolding data_of remove
data_of-remove p n v h = (
  sym (drop-slice p.buf.cells p.b p.q n h),
  record { sized = v.sized; t_is = omega (arith, v.t_is); t_in = v.t_in },
)

pub length-data_of : (p : Block) → length (data_of p) ≡ p.q
unfolding data_of
length-data_of p = length-slice p.buf.cells p.b p.q

-- An answer of send() about the bytes `s` moves the reported count of them to the wire.
pub wrote-wire :
    (answer : Sent) (s : Bytes) (o : Out)
    → ((n : ℕ) → answer ≡ accepted n → n ≤ length s)
    → let (o', n) = wrote answer s o in
      (o'.wire ≡ o.wire ++ take n s)
      × (n ≤ length s)
      × (o'.obuf ≡ o.obuf)
      × (o'.top ≡ o.top)
      × (o'.output_length ≡ o.output_length)
unfolding wrote set_close_and_delete
wrote-wire (accepted n) s o law = ground (arith, law n refl, append-nil o.wire)
wrote-wire would_block s o law = ground (arith, append-nil o.wire)
wrote-wire (failed e) s o law = ground (arith, append-nil o.wire)

-- What a call may do to the stream: nothing but move bytes to the wire.
abbrev pub Kept : Out → Out → Type 0
Kept o o' = (stream o' ≡ stream o) × IsValid o'

pending-cons : (p : Block) (ps : List Block) → pending (p ∷ ps) ≡ data_of p ++ pending ps
unfolding pending
pending-cons p ps = refl

pub take_all {ℓ} : {A : Type ℓ} (n : ℕ) (xs : List A) → length xs ≤ n → take n xs ≡ xs
take_all zero [] h = refl
take_all zero (x ∷ xs) h = absurd (omega arith)
take_all (suc n) [] h = refl
take_all (suc n) (x ∷ xs) h = ap (◌∷◌ x) (take_all n xs (omega arith))

Kept-from :
    (o o' : Out) (w : Bytes)
    → IsValid o
    → o'.wire ≡ o.wire ++ w
    → pending o.obuf ≡ w ++ pending o'.obuf
    → All BlockValid o'.obuf
    → o'.top ≡ nonempty o'.obuf
    → o'.output_length ≡ o.output_length - length w
    → Kept o o'
Kept-from o o' w v wire p bs top len = (
  rw (wire, p, append_assoc),
  record {
    blocks = bs;
    top_is = top;
    counted = omega (arith, v.counted, ap length p, length-append w (pending o'.obuf));
  },
)

erase_first-shape :
    (ps : List Block) (o : Out)
    → o.top ≡ true
    → let o' = (erase_first ps o).0 in
      (o'.obuf ≡ ps)
      × (o'.wire ≡ o.wire)
      × (o'.top ≡ nonempty ps)
      × (o'.output_length ≡ o.output_length)
unfolding erase_first
erase_first-shape [] o h = (refl, refl, refl, refl)
erase_first-shape (p ∷ ps) o h = (refl, refl, h, refl)

erase_first-repeat :
    (ps : List Block) (o : Out) → (erase_first ps o).1 ≡ true → (erase_first ps o).0.obuf ≡ ps
unfolding erase_first
erase_first-repeat [] o h = cc
erase_first-repeat (p ∷ ps) o h = refl

module _ (p : Block) (ps : List Block) (o o1 : Out) (n : ℕ) (e : o.obuf ≡ p ∷ ps) (v : IsValid o)
    (wire : o1.wire ≡ o.wire ++ take n (data_of p)) (small : n ≤ length (data_of p))
    (obuf : o1.obuf ≡ o.obuf) (top : o1.top ≡ o.top)
    (len : o1.output_length ≡ o.output_length) where
  first-BlockValid : BlockValid p
  first-BlockValid = (rw e at v.blocks).0

  rest-BlockValid : All BlockValid ps
  rest-BlockValid = (rw e at v.blocks).1

  pending_is : pending o.obuf ≡ data_of p ++ pending ps
  unfolding pending
  pending_is = rw e

  length_is : o.output_length ≡ length (data_of p) + length (pending ps)
  length_is = v.counted ∙ ap length pending_is ∙ length-append (data_of p) (pending ps)

  abbrev counted : Out
  counted = record o1 { output_length = o1.output_length - n }

  erase_first-Kept : p.q ≤ n → Kept o (erase_first ps counted).0
  erase_first-Kept h =
      let all = take_all n (data_of p) (omega (arith, length-data_of p)) in
      let (b, w, t, l) = erase_first-shape ps counted (top ∙ v.top_is ∙ ap nonempty e) in
      Kept-from o (erase_first ps counted).0 (data_of p) v (w ∙ wire ∙ ap (◌++◌ o.wire) all)
        (pending_is ∙ ap (λ bs. data_of p ++ pending bs) (sym b)) (rw b rest-BlockValid)
        (t ∙ ap nonempty (sym b)) (omega (arith, l, len, length-data_of p))

  abbrev cut : Out
  cut = record counted { obuf = remove p n ∷ ps }

  cut-Kept : n ≤ p.q → Kept o cut
  cut-Kept h =
      let (d, v') = data_of-remove p n first-BlockValid h in
      Kept-from o cut (take n (data_of p)) v wire
        (pending_is ∙ rw (pending-cons, d, ← append_assoc, take-drop)) (v', rest-BlockValid)
        (top ∙ v.top_is ∙ ap nonempty e) (omega (arith, len, length-take n (data_of p) small))

  same-Kept : n ≡ 0 → Kept o o1
  same-Kept z =
      Kept-from o o1 [] v (wire ∙ ap (λ k. o.wire ++ take k (data_of p)) z) (ap pending (sym obuf))
        (rw obuf v.blocks) (top ∙ v.top_is ∙ ap nonempty (sym obuf)) (omega (arith, len))

  gone : ((remove p n).q == 0) ≡ true → p.q ≤ n
  unfolding remove
  gone z = omega (arith, ==→eq _ _ z)

  pub after_write-Kept : Kept o (after_write p ps o1 n).0
  unfolding after_write
  after_write-Kept = elim (Bool-cases (ltb 0 n)) [
    | inl pos ↦ elim (Bool-cases ((remove p n).q == 0)) [
      | inl z ↦ rw (pos, z) (erase_first-Kept (gone z))
      | inr z ↦ rw (pos, z) (cut-Kept (omega (arith, length-data_of p, small)))
    ]
    | inr z ↦ rw z (same-Kept (omega (arith, ltb_false→le 0 n z)))
  ]

  pub after_write-repeat : (after_write p ps o1 n).1 ≡ true → (after_write p ps o1 n).0.obuf ≡ ps
  unfolding after_write
  after_write-repeat h = elim (Bool-cases (ltb 0 n)) [
    | inl pos ↦ elim (Bool-cases ((remove p n).q == 0)) [
      | inl z ↦ rw (pos, z) (erase_first-repeat ps counted (rw (pos, z) at h))
      | inr z ↦ cc (rw (pos, z) at h)
    ]
    | inr z ↦ cc (rw z at h)
  ]
