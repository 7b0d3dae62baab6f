-- ===== src/Tcp/Output/Queueing.antt =====
-- Buffer appends to what waits in the output buffer.
use cpp_sockets_library.Prelude.{
  ℕ, zero, suc, ◌+◌, ◌*◌, ◌≡◌, refl, ◌≤◌, ◌<◌, Bool, true, false, some, List, [], ◌∷◌, ◌++◌, inl,
  inr, ◌∙◌, sym, ap, arith, append-nil, append_assoc, Bytes, take, drop, length, length-append,
  length-take, length-drop, take-drop, All, All-append, ltb, leb, Bool-cases, ltb→lt, if◌then◌else◌,
}
use cpp_sockets_library.Prelude.Mem.{
  copy_in-eq, slice, blit, slice-blit, slice-blit_apart, slice-add, slice-zero,
}
use cpp_sockets_library.Tcp.Output.{
  Block, capacity, new_block, block_space, add, data_of, pending, Out, last_space, add_last,
  buffer_step, buffer_loop, buffer,
}

pub record BlockValid (p : Block) : Type 0 where
  pub sized : p.buf.size ≡ capacity
  pub t_is : p.t ≡ p.b + p.q
  pub t_in : p.t ≤ capacity

abbrev pub nonempty : List Block → Bool
nonempty [] = false
nonempty (_ ∷ _) = true

pub record IsValid (o : Out) : Type 0 where
  pub blocks : All BlockValid o.obuf
  pub top_is : o.top ≡ nonempty o.obuf
  pub counted : o.output_length ≡ length (pending o.obuf)

add_lem :
    (p : Block) (s : Bytes)
    → BlockValid p
    → length s ≤ block_space p
    → (p' : Block) × (add p s ≡ some p') × (data_of p' ≡ data_of p ++ s) × BlockValid p'
unfolding add block_space data_of
add_lem p s v h =
    let m = p.buf.cells in
    let kept = slice-blit_apart m p.t s p.b p.q (inl (omega (arith, v.t_is))) in
    let new : slice (blit m p.t s) (p.b + p.q) (length s) ≡ s =
      rw (← v.t_is) (slice-blit m p.t s) in
    (
      record {
        b = p.b;
        t = p.t + length s;
        q = p.q + length s;
        buf = record { size = p.buf.size; cells = blit m p.t s };
      },
      rw (copy_in-eq p.buf p.t s (omega (arith, v.sized, v.t_in))),
      rw (slice-add (blit m p.t s) p.b p.q (length s), kept, new),
      record { sized = v.sized; t_is = omega (arith, v.t_is); t_in = omega (arith, v.t_in) },
    )

abbrev Added : List Block → Bytes → Type 0
Added ps s =
    (ps' : List Block) × (add_last ps s ≡ some ps')
    × (pending ps' ≡ pending ps ++ s)
    × All BlockValid ps'
    × (nonempty ps' ≡ true)

add_last_lem :
    (ps : List Block) (s : Bytes)
    → All BlockValid ps
    → 0 < last_space ps
    → length s ≤ last_space ps
    → Added ps s
unfolding add_last pending last_space
add_last_lem [] s v pos h = absurd (omega arith)
add_last_lem (p ∷ []) s v pos h =
    let (p', e, d, v') = add_lem p s v.0 h in (p' ∷ [], rw e, simp (append-nil) d, (v', tt), refl)
add_last_lem (p ∷ p2 ∷ ps) s v pos h =
    let (ps', e, d, v', ne) = add_last_lem (p2 ∷ ps) s v.1 pos h in
    (p ∷ ps', rw e, rw d (sym (append_assoc (data_of p) (pending (p2 ∷ ps)) s)), (v.0, v'), refl)

pending-append : (ps qs : List Block) → pending (ps ++ qs) ≡ pending ps ++ pending qs
unfolding pending
pending-append [] qs = refl
pending-append (p ∷ ps) qs = simp (pending-append ps qs, append_assoc)

last_space-new : (ps : List Block) → last_space (ps ++ (new_block ∷ [])) ≡ capacity
unfolding last_space new_block block_space
last_space-new [] = refl
last_space-new (p ∷ []) = refl
last_space-new (p ∷ p2 ∷ ps) = last_space-new (p2 ∷ ps)

abbrev room : Out → ℕ
room o = if o.top then last_space o.obuf else 0

abbrev IsQueue : Out → Type 0
IsQueue o = All BlockValid o.obuf × (o.top ≡ nonempty o.obuf)

new_block-BlockValid : BlockValid new_block
unfolding new_block
new_block-BlockValid = record { sized = refl; t_is = omega arith; t_in = omega arith }

pending-new : pending (new_block ∷ []) ≡ []
unfolding new_block pending data_of
pending-new = rw slice-zero

nonempty-append : (ps : List Block) → nonempty (ps ++ (new_block ∷ [])) ≡ true
nonempty-append [] = refl
nonempty-append (p ∷ ps) = refl

-- The rounds that are left: two for each byte, and one if a block must be opened first.
abbrev rounds : Out → Bytes → ℕ
rounds o s = 2 * length s + (if ltb 0 (room o) then 0 else 1)

-- Only the blocks and the pointer change.
abbrev Others : Out → Out → Type 0
Others o d = d ≡ record o { obuf = d.obuf; top = d.top }

abbrev Stepped : Out → Bytes → Type 0
Stepped o s =
    (d : Out) × (rest : Bytes) × (buffer_step o s ≡ some (d, rest))
    × (pending d.obuf ++ rest ≡ pending o.obuf ++ s)
    × All BlockValid d.obuf
    × (d.top ≡ nonempty d.obuf)
    × Others o d
    × (rounds d rest < rounds o s)

step_copies :
    (o : Out) (s : Bytes) (sz : ℕ)
    → All BlockValid o.obuf
    → o.top ≡ true
    → ltb 0 (last_space o.obuf) ≡ true
    → sz ≡ (if leb (length s) (last_space o.obuf) then length s else last_space o.obuf)
    → 0 < length s
    → Stepped o s
unfolding buffer_step
step_copies o s sz v top pos is some_left =
    let small : sz ≤ last_space o.obuf = ground arith in
    let small' : sz ≤ length s = ground arith in
    let pos' = ltb→lt _ _ pos in
    let (ps', e, d, v', ne) =
      add_last_lem o.obuf (take sz s) v pos' (omega (arith, length-take sz s small')) in
    (
      record o { obuf = ps' },
      drop sz s,
      ground (arith, e),
      rw (d, append_assoc, take-drop sz s),
      v',
      top ∙ sym ne,
      refl,
      ground (arith, length-drop sz s, ltb→lt 0 (last_space o.obuf) pos),
    )

step_opens : (o : Out) (s : Bytes) → IsQueue o → room o ≡ 0 → Stepped o s
unfolding buffer_step
step_opens o s v e = (
  record o { obuf = o.obuf ++ (new_block ∷ []); top = true },
  s,
  ground arith,
  rw (pending-append o.obuf (new_block ∷ []), pending-new, append-nil),
  All-append BlockValid o.obuf (new_block ∷ []) v.0 (new_block-BlockValid, tt),
  sym (nonempty-append o.obuf),
  refl,
  ground (arith, last_space-new o.obuf),
)

step_lem : (o : Out) (s : Bytes) → IsQueue o → 0 < length s → Stepped o s
step_lem o s v pos = elim (Bool-cases o.top) [
  | inl t ↦ elim (Bool-cases (ltb 0 (last_space o.obuf))) [
    | inl h ↦ step_copies o s _ v.0 t h refl pos
    | inr h ↦ step_opens o s v (ground arith)
  ]
  | inr t ↦ step_opens o s v (ground arith)
]

abbrev Buffered : ℕ → Out → Bytes → Type 0
Buffered fuel o s =
    (d : Out) × (buffer_loop fuel o s ≡ some d)
    × (pending d.obuf ≡ pending o.obuf ++ s)
    × IsQueue d
    × Others o d

loop_lem : (fuel : ℕ) (o : Out) (s : Bytes) → IsQueue o → rounds o s < fuel → Buffered fuel o s
unfolding buffer_loop
loop_lem zero o s v h = absurd (omega arith)
loop_lem (suc fuel) o [] v h = (o, refl, sym (append-nil _), v, refl)
loop_lem (suc fuel) o (x ∷ s) v h =
    let (d, rest, e, p, bv, tv, others, less) = step_lem o (x ∷ s) v (omega arith) in
    let (d', e', p', v', others') = loop_lem fuel d rest (bv, tv) (omega arith) in
    (
      d',
      rw (e, e'),
      p' ∙ p,
      v',
      others' ∙ ap (λ (r : Out). record r { obuf = d'.obuf; top = d'.top }) others,
    )

-- On a valid queue Buffer ends, reaches no byte outside a block, appends the bytes to those that
-- wait, keeps the queue valid, and changes no field but the queue, its top and its length.
pub buffer-append :
    (o : Out) (s : Bytes)
    → IsValid o
    → (d : Out) × (buffer o s ≡ some d)
      × (pending d.obuf ≡ pending o.obuf ++ s)
      × IsValid d
      × (d ≡ record o { obuf = d.obuf; top = d.top; output_length = o.output_length + length s })
unfolding buffer
buffer-append o s v =
    let o' = record o { output_length = o.output_length + length s } in
    let (d, e, p, q, others) =
      loop_lem (2 * length s + 2) o' s (v.blocks, v.top_is) (ground arith) in
    (
      d,
      e,
      p,
      record {
        blocks = q.0;
        top_is = q.1;
        counted = omega (
          arith,
          ap (λ (r : Out). r.output_length) others,
          ap length p,
          length-append (pending o.obuf) s,
          v.counted,
        );
      },
      others,
    )
