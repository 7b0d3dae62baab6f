-- ===== src/Tcp/Ring/Queue.antt =====
-- The input ring as a bounded queue of bytes: any sequence of calls.
use cpp_sockets_library.Prelude.{
  ◌>>=◌, ℕ, ◌+◌, ◌-◌, ◌≡◌, refl, ◌≤◌, ◌<◌, Bool, true, false, Option, some, List, [], ◌∷◌, ◌++◌,
  inl, inr, ◌∙◌, sym, ap, arith, Bytes, take, drop, length, ltb, Bool-cases, ltb→lt, ltb_false→le,
  ==→eq, ◌==◌, zero, suc, if◌then◌else◌,
}
use cpp_sockets_library.Prelude.Mem.{length-slice, slice-zero, slice-suc, slice, slice_ext}
use cpp_sockets_library.Tcp.Ring.{Ring, IsValid, contents, read, write, init, get_start, get_length}
use cpp_sockets_library.Tcp.Ring.Write.{write-append, write_overflow}
use cpp_sockets_library.Tcp.Ring.Read.{read-take, read_short}

pub data Call : Type 0 where
  writes : Bytes → Call
  reads : ℕ → Call

-- What a caller sees: the bytes copied to it and the result.
abbrev pub Reply : Type 0
Reply = Bytes × Bool

pub step : Ring → Call → Option (Ring × Reply)
step c (writes s) = do (d, done) ← write c s; some (d, ([], done))
step c (reads l) = do (d, s, done) ← read c l; some (d, (s, done))

pub run : Ring → List Call → Option (List Reply)
unfolding step
run c [] = some []
run c (call ∷ calls) = do (d, reply) ← step c call; replies ← run d calls; some (reply ∷ replies)

-- The specification: a queue of at most `cap` bytes.
pub queue_step : ℕ → Bytes → Call → Bytes × Reply
queue_step cap held (writes s) =
    if ltb cap (length held + length s) then (held, ([], false)) else (held ++ s, ([], true))
queue_step cap held (reads l) =
    if ltb (length held) l then (held, ([], false)) else (drop l held, (take l held, true))

pub queue_run : ℕ → Bytes → List Call → List Reply
unfolding queue_step
queue_run cap held [] = []
queue_run cap held (call ∷ calls) =
    (queue_step cap held call).1 ∷ queue_run cap (queue_step cap held call).0 calls

length-contents : (c : Ring) → length (contents c) ≡ c.q
unfolding contents
length-contents c = length-slice c.buf.cells c.b c.q

step-queue_step :
    (c : Ring) (call : Call)
    → IsValid c
    → (d : Ring) × (step c call ≡ some (d, (queue_step c.max (contents c) call).1))
      × (contents d ≡ (queue_step c.max (contents c) call).0)
      × IsValid d
      × (d.max ≡ c.max)
unfolding step queue_step
step-queue_step c (writes s) v = elim (Bool-cases (ltb c.max (c.q + length s))) [
  | inl h ↦ (
    c,
    rw (write_overflow c s (ltb→lt _ _ h), length-contents c, h),
    rw (length-contents c, h),
    v,
    refl,
  )
  | inr h ↦
      let (d, e, held, v', m, _, _) = write-append c s v (ltb_false→le _ _ h) in
      (d, rw (e, length-contents c, h), rw (length-contents c, h) held, v', m)
]
step-queue_step c (reads l) v = elim (Bool-cases (ltb c.q l)) [
  | inl h ↦ (
    c,
    rw (read_short c l (ltb→lt _ _ h), length-contents c, h),
    rw (length-contents c, h),
    v,
    refl,
  )
  | inr h ↦
      let (d, e, held, v', m, _) = read-take c l v (ltb_false→le _ _ h) in
      (d, rw (e, length-contents c, h), rw (length-contents c, h) held, v', m)
]

run_from :
    (c : Ring) (calls : List Call)
    → IsValid c
    → run c calls ≡ some (queue_run c.max (contents c) calls)
unfolding run queue_run
run_from c [] v = refl
run_from c (call ∷ calls) v =
    let (d, e, held, v', m) = step-queue_step c call v in rw (e, run_from d calls v', held, m)

pub init-IsValid : (size : ℕ) (cells : ℕ → ℕ) → 0 < size → IsValid (init size cells)
unfolding init
init-IsValid size cells h = record {
  sized = refl;
  b_in = h;
  q_in = omega arith;
  t_below = λ _. omega arith;
  t_above = λ k. absurd (omega arith);
  mirror = λ i lo hi. absurd (omega arith);
}

-- A new input buffer of a positive size answers every sequence of Write and Read calls as a
-- bounded first-in first-out queue of bytes does, and never reaches outside its array.
pub run-queue_run :
    (size : ℕ) (cells : ℕ → ℕ) (calls : List Call)
    → 0 < size
    → run (init size cells) calls ≡ some (queue_run size [] calls)
unfolding init contents
run-queue_run size cells calls h =
    run_from (init size cells) calls (init-IsValid size cells h) ∙ rw slice-zero

-- The ring read byte by byte with indices that wrap.
pub wrapping : (ℕ → ℕ) → ℕ → ℕ → ℕ → Bytes
wrapping m max b zero = []
wrapping m max b (suc n) = m b ∷ wrapping m max (if b + 1 == max then 0 else b + 1) n

wrapping-slice :
    (m : ℕ → ℕ) (max b n : ℕ)
    → 0 < max
    → b < max
    → n ≤ max
    → ((i : ℕ) → max ≤ i → i < b + n → m i ≡ m (i - max))
    → wrapping m max b n ≡ slice m b n
unfolding wrapping
wrapping-slice m max b zero pos h k mirror = sym (slice-zero m b)
wrapping-slice m max b (suc n) pos h k mirror = elim (Bool-cases (b + 1 == max)) [
  | inl e ↦
      let last : b + 1 ≡ max = ==→eq _ _ e in
      let low = wrapping-slice m max 0 n pos pos (omega arith) (λ i lo hi. absurd (omega arith)) in
      let high : slice m 0 n ≡ slice m (b + 1) n =
        slice_ext m m 0 (b + 1) n
          (λ i lt. sym (mirror (b + 1 + i) (omega arith) (omega arith) ∙ ap m (omega arith))) in
      rw (e, low, high, ← slice-suc m b n)
  | inr e ↦
      let rest =
        wrapping-slice m max (b + 1) n pos (ground arith) (omega arith)
          (λ i lo hi. mirror i lo (omega arith)) in
      rw (e, rest, ← slice-suc m b n)
]

-- In a valid ring the bytes from GetStart() on, read in one piece, are the ring's bytes in
-- wrapping order: the doubled array lets a reader ignore the border.
pub get_start-wrapping :
    (c : Ring)
    → IsValid c
    → slice c.buf.cells (get_start c) (get_length c) ≡ wrapping c.buf.cells c.max c.b c.q
unfolding get_start get_length
get_start-wrapping c v =
    sym (wrapping-slice c.buf.cells c.max c.b c.q (omega (arith, v.b_in)) v.b_in v.q_in v.mirror)
