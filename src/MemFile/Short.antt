-- ===== src/MemFile/Short.antt =====
-- A file that stays below one block behaves as a text that grows and a position in it.
use cpp_sockets_library.Prelude.{
  ℕ, ◌+◌, ◌-◌, ◌<◌, ◌≤◌, ◌≡◌, refl, ◌∙◌, ap, Bool, true, false, ◌||◌, Option, none, some, List, [],
  ◌∷◌, ◌++◌, ltb, leb, ◌>>=◌, if◌then◌else◌, Bytes, length, take, drop, arith, zero, suc,
  Bool-cases, inl, inr,
}
use cpp_sockets_library.Prelude.Int.{}
use cpp_sockets_library.Prelude.Mem.{
  slice, slice-zero, slice-add, slice-blit, slice-blit_apart, take-slice, drop-slice, length-slice,
  blit, copy_in-eq, copy_out-eq,
}
use cpp_sockets_library.MemFile.{
  block_size, MemFile, new_file, new_node, set_node, put, get, fwrite, available, fread_within,
  fread, eof,
}

zero_left : (n : ℕ) → 0 + n ≡ n
zero_left n = omega arith

zero_right : (n : ℕ) → n + 0 ≡ n
zero_right n = omega arith

or_true : (b : Bool) → (b || true) ≡ true
or_true b = ground arith

or_false : (b : Bool) → (b || false) ≡ b
or_false b = ground arith

-- One block, `r` bytes read and `w` written.
abbrev pub short : (ℕ → ℕ) → ℕ → ℕ → Bool → MemFile
short cells r w met = record {
  heap = record { next = none; data_ = record { size = block_size; cells = cells } } ∷ [];
  base = 0;
  current_read = 0;
  current_write = 0;
  current_write_nr = 0;
  read_ptr = r;
  write_ptr = w;
  read_caused_eof = met;
}

put-short :
    (m : ℕ → ℕ) (r w : ℕ) (met : Bool) (s : Bytes)
    → w + length s < block_size
    → put (short m r w met) w s ≡ some (short (blit m w s) r (w + length s) met)
unfolding put set_node
put-short m r w met s h =
    rw (copy_in-eq (record { size = block_size; cells = m }) w s (omega arith)) refl

fwrite-short :
    (m : ℕ → ℕ) (r w : ℕ) (met : Bool) (s : Bytes)
    → w + length s < block_size
    → fwrite (short m r w met) s ≡ some (short (blit m w s) r (w + length s) met)
unfolding fwrite
fwrite-short m r w met s h = ground (arith, put-short m r w met s h)

get-short :
    (m : ℕ → ℕ) (r w n : ℕ) (met : Bool)
    → r + n < block_size
    → get (short m r w met) r n ≡ some (short m (r + n) w met, slice m r n)
unfolding get
get-short m r w n met h =
    rw (copy_out-eq (record { size = block_size; cells = m }) r n (omega arith)) refl

fread_within-short :
    (m : ℕ → ℕ) (r w k : ℕ) (met : Bool)
    → r + k < block_size
    → fread_within (short m r w met) k ≡ some (short m (r + k) w met, slice m r k)
unfolding fread_within
fread_within-short m r w zero met h = rw (slice-zero m r, zero_right r) refl
fread_within-short m r w (suc k) met h = ground (arith, get-short m r w (suc k) met h)

abbrev least : ℕ → ℕ → ℕ
least a n = if ltb a n then a else n

fread-short :
    (m : ℕ → ℕ) (r w n : ℕ) (met : Bool)
    → r ≤ w
    → w < block_size
    → fread (short m r w met) n
      ≡ some (short m (r + least (w - r) n) w (met || ltb (w - r) n), slice m r (least (w - r) n))
unfolding fread available
fread-short m r w n met le h =
    let there : leb r w ≡ true = ground arith in
    elim (Bool-cases (ltb (w - r) n)) [
      | inl x ↦
          rw (there, x)
            (fread_within-short m r w (w - r) true (omega arith) ∙ rw (or_true met) refl)
      | inr x ↦
          rw (there, x) (fread_within-short m r w n met (ground arith) ∙ rw (or_false met) refl)
    ]

pub data Access : Type 0 where
  appends : Bytes → Access
  fetches : ℕ → Access

-- What a caller sees: the bytes read, and eof().
abbrev pub Reply : Type 0
Reply = Bytes × Bool

unfoldable pub file_step : MemFile → Access → Option (MemFile × Reply)
file_step f (appends s) = do f' ← fwrite f s; some (f', ([], eof f'))
file_step f (fetches n) = do (f', s) ← fread f n; some (f', (s, eof f'))

unfoldable pub file_run : MemFile → List Access → Option (List Reply)
file_run f [] = some []
file_run f (a ∷ calls) = do
  (f', reply) ← file_step f a
  replies ← file_run f' calls
  some (reply ∷ replies)

-- The specification: a text, a position in it, and whether a read has met its end.
pub text_run : Bytes → ℕ → Bool → List Access → List Reply
text_run held at met [] = []
text_run held at met (appends s ∷ calls) = ([], met) ∷ text_run (held ++ s) at met calls
text_run held at met (fetches n ∷ calls) =
    let got = take n (drop at held) in
    let met' = met || ltb (length got) n in (got, met') ∷ text_run held (at + length got) met' calls

-- All bytes that the calls write.
unfoldable pub written : List Access → ℕ
written [] = 0
written (appends s ∷ calls) = length s + written calls
written (fetches n ∷ calls) = written calls

slice-append :
    (m : ℕ → ℕ) (w : ℕ) (s : Bytes) → slice (blit m w s) 0 (w + length s) ≡ slice m 0 w ++ s
slice-append m w s =
    slice-add (blit m w s) 0 w (length s)
    ∙ rw (slice-blit_apart m w s 0 w (inl (omega arith)), zero_left w, slice-blit m w s) refl

take_all : (n : ℕ) (s : Bytes) → length s < n → take n s ≡ s
take_all zero s h = absurd (omega arith)
take_all (suc n) [] h = refl
take_all (suc n) (x ∷ s) h = ap (◌∷◌ x) (take_all n s (omega arith))

got-slice :
    (m : ℕ → ℕ) (r w n : ℕ) → r ≤ w → take n (drop r (slice m 0 w)) ≡ slice m r (least (w - r) n)
got-slice m r w n le = ap (take n) (drop-slice m 0 w r le ∙ rw (zero_left r) refl) ∙ cut
  where
    cut : take n (slice m r (w - r)) ≡ slice m r (least (w - r) n)
    cut = elim (Bool-cases (ltb (w - r) n)) [
      | inl x ↦ rw x (take_all n (slice m r (w - r)) (ground (arith, length-slice m r (w - r))))
      | inr x ↦ rw x (take-slice m r (w - r) n (ground arith))
    ]

file_run-text_run :
    (calls : List Access) (m : ℕ → ℕ) (r w : ℕ) (met : Bool)
    → r ≤ w
    → w + written calls < block_size
    → file_run (short m r w met) calls ≡ some (text_run (slice m 0 w) r met calls)
unfolding file_run file_step text_run written eof
file_run-text_run [] m r w met le h = refl
file_run-text_run (appends s ∷ calls) m r w met le h =
    let step = fwrite-short m r w met s (omega arith) in
    let rest =
      file_run-text_run calls (blit m w s) r (w + length s) met (omega arith) (omega arith) in
    rw (step, rest, slice-append m w s) refl
file_run-text_run (fetches n ∷ calls) m r w met le h =
    let k = least (w - r) n in
    let step = fread-short m r w n met le (omega arith) in
    let got = got-slice m r w n le in
    let len = length-slice m r k in
    let ends : ltb k n ≡ ltb (w - r) n = ground arith in
    let rest =
      file_run-text_run calls m (r + k) w (met || ltb (w - r) n) (ground arith) (omega arith) in
    rw (step, rest, got, len, ends) refl

-- While fewer bytes than a block are written to a new file in all, any sequence of fwrite and
-- fread calls behaves as a text and a position: fread gives the next bytes, and eof is true from
-- the first fread on that asked for more than there was. No access is outside a block.
pub file_run-new_file :
    (calls : List Access)
    → written calls < block_size
    → file_run new_file calls ≡ some (text_run [] 0 false calls)
unfolding new_file new_node
file_run-new_file calls h =
    file_run-text_run calls (λ _. 0) 0 0 false (omega arith) (omega arith)
    ∙ rw (slice-zero (λ _. 0) 0) refl
