-- ===== src/Ajp/Rounds.antt =====
-- The rounds of the loop of OnRawData of src/AjpBaseSocket.cpp.
use cpp_sockets_library.Prelude.{
  ◌⊎◌, length-take, subst, ℕ, suc, ◌+◌, ◌-◌, ◌*◌, ◌<◌, ◌≤◌, ◌≡◌, refl, sym, ap, ◌∙◌, false, ◌&&◌,
  Option, none, some, List, [], ◌∷◌, ◌++◌, ltb, if◌then◌else◌, length, take, drop, Bytes, arith,
  Bool-cases, inl, inr, append_assoc,
}
use cpp_sockets_library.Prelude.Mem.{
  Mem, blit, copy_in-eq, copy_out-eq, slice, slice-suc, slice-zero, blit-suc, blit-nil,
}
use cpp_sockets_library.Ajp.Values.{get_integer-slice}
use cpp_sockets_library.Ajp.{
  get_integer, State, header, packet, AjpBaseSocket, Callback, on_header, on_packet, reset,
  copy_length, read_more, finish, loop,
}

abbrev pub at : State → ℕ → ℕ → Mem → AjpBaseSocket
at st l p m = record { state = st; length = l; ptr = p; message = m }

-- A round of the loop once its bytes are in the buffer.
unfoldable pub after : ℕ → AjpBaseSocket → Bytes → Option (AjpBaseSocket × List Callback)
after f s rest = if read_more s then some (s, []) else elim (finish s) [
  | none ↦ none
  | some (s2, c) ↦ elim (loop f s2 rest) [ none ↦ none | some (s3, cs) ↦ some (s3, c ∷ cs) ]
]

unfoldable pub copied : Mem → ℕ → Bytes → Mem
copied m p s = record m { cells = blit m.cells p s }

abbrev pub GoesOn : ℕ → AjpBaseSocket → Bytes → ℕ → Type 0
GoesOn f s buf n =
    s.ptr + length (take n buf) ≤ s.message.size
    → loop (suc f) s buf
      ≡ after f (record s { ptr = s.ptr + n; message = copied s.message s.ptr (take n buf) })
          (drop n buf)

pub loop-GoesOn :
    (f : ℕ) (s : AjpBaseSocket) (buf : Bytes) → GoesOn f s buf (copy_length s (length buf))
unfolding loop after copied
loop-GoesOn f s buf h =
    rw (loop, copy_in-eq s.message s.ptr (take (copy_length s (length buf)) buf) h) refl

pub loop-after :
    (f : ℕ) (st : State) (l p : ℕ) (m : Mem) (buf : Bytes) (n : ℕ)
    → copy_length (at st l p m) (length buf) ≡ n
    → p + length (take n buf) ≤ m.size
    → loop (suc f) (at st l p m) buf
      ≡ after f (at st l (p + n) (copied m p (take n buf))) (drop n buf)
loop-after f st l p m buf n e =
    subst (GoesOn f (at st l p m) buf) e (loop-GoesOn f (at st l p m) buf)

-- The bytes that a round of an open socket takes.
pub copy_length-least :
    (st : State) (l p : ℕ) (m : Mem) (left : ℕ)
    → l ≤ 8192
    → (n : ℕ) × (copy_length (at st l p m) left ≡ n)
      × (n ≤ left)
      × (n ≤ l - p)
      × ((n ≡ left) ⊎ (n ≡ l - p))
unfolding copy_length
copy_length-least st l p m left fits = elim (Bool-cases (ltb (l - p) left)) [
  | inl b ↦ (l - p, ground arith, ground arith, omega arith, inr refl)
  | inr b ↦ (left, ground arith, omega arith, ground arith, inl refl)
]

pub loop_takes :
    (f : ℕ) (st : State) (l p : ℕ) (m : Mem) (b : ℕ) (bs : Bytes)
    → m.size ≡ 8192
    → p + 1 < l
    → l ≤ 8192
    → loop (suc f) (at st l p m) (b ∷ bs) ≡ loop (suc f) (at st l (p + 1) (copied m p (b ∷ []))) bs
unfolding copied
loop_takes f st l p m b bs w lt fits =
    let (n, e, n_left, n_missing, which) =
      copy_length-least st l (p + 1) (copied m p (b ∷ [])) (length bs) fits in
    let e1 : copy_length (at st l p m) (suc (length bs)) ≡ suc n =
      unfold copy_length in elim which [ inl x ↦ ground arith | inr x ↦ ground arith ] in
    let len : length (take n bs) ≡ n = length-take n bs n_left in
    let here : p + suc n ≡ p + 1 + n = omega arith in
    loop-after f st l p m (b ∷ bs) (suc n) e1 (omega (arith, len))
    ∙ rw (here, ← blit-suc m.cells p b (take n bs)) refl
    ∙ sym (loop-after f st l (p + 1) (copied m p (b ∷ [])) bs n e (omega (arith, len)))

pub loop_last :
    (f : ℕ) (st : State) (l p : ℕ) (m : Mem) (b : ℕ) (bs : Bytes)
    → m.size ≡ 8192
    → p + 1 ≡ l
    → l ≤ 8192
    → loop (suc f) (at st l p m) (b ∷ bs) ≡ after f (at st l (p + 1) (copied m p (b ∷ []))) bs
loop_last f st l p m b bs w eq fits =
    loop-after f st l p m (b ∷ bs) 1 (unfold copy_length in ground arith) (omega arith)

pub finish-packet :
    (l p : ℕ) (m : Mem)
    → p ≤ m.size
    → finish (at packet l p m) ≡ some (at header 4 0 m, on_packet (slice m.cells 0 p))
unfolding finish reset
finish-packet l p m h = rw (copy_out-eq m 0 p (omega arith)) refl

abbrev pub short_at : Mem → ℕ → ℕ
short_at m a = m.cells a * 256 + m.cells (a + 1)

pub get_integer-at :
    (m : Mem) (a : ℕ) → a + 2 ≤ m.size → get_integer m a ≡ some (short_at m a, a + 2)
get_integer-at m a h =
    get_integer-slice m a (m.cells a) (m.cells (a + 1)) h
      (rw (slice-suc, slice-suc, slice-zero) refl)

pub finish-header :
    (l p : ℕ) (m : Mem)
    → 4 ≤ m.size
    → finish (at header l p m)
      ≡ some (at packet (short_at m 2) 0 m, on_header (short_at m 0) (short_at m 2))
unfolding finish
finish-header l p m h = rw (get_integer-at m 0 (omega arith), get_integer-at m 2 (omega arith)) refl

abbrev pub then_calls :
    List Callback → Option (AjpBaseSocket × List Callback) → Option (AjpBaseSocket × List Callback)
then_calls cs r = elim r [ none ↦ none | some (s2, ds) ↦ some (s2, cs ++ ds) ]

-- A packet with no bytes is delivered in a round of its own.
pub loop-empty :
    (f l : ℕ) (m : Mem) (bs : Bytes)
    → m.size ≡ 8192
    → l ≡ 0
    → loop (suc f) (at packet l 0 m) bs
      ≡ then_calls (on_packet (slice m.cells 0 0) ∷ []) (loop f (at header 4 0 m) bs)
unfolding after read_more copied
loop-empty f l m bs w empty =
    let same : copied m 0 [] ≡ m = ap (λ c. record m { cells = c }) (blit-nil m.cells 0) in
    let takes : copy_length (at packet l 0 m) (length bs) ≡ 0 =
      unfold copy_length in ground arith in
    let full : (ltb l 32768 && ltb 0 l) ≡ false = ground arith in
    loop-after f packet l 0 m bs 0 takes (omega arith)
    ∙ rw (same, full, finish-packet l 0 m (omega arith)) refl

pub then_calls-append :
    (cs ds : List Callback) (r : Option (AjpBaseSocket × List Callback))
    → then_calls cs (then_calls ds r) ≡ then_calls (cs ++ ds) r
then_calls-append cs ds none = refl
then_calls-append cs ds (some (s, es)) = ap (λ x. some (s, x)) (sym (append_assoc cs ds es))

pub then_calls-nil : (r : Option (AjpBaseSocket × List Callback)) → r ≡ then_calls [] r
then_calls-nil none = refl
then_calls-nil (some x) = refl
