-- ===== src/MemFile/Border.antt =====
-- An fread that ends exactly at the end of the last block.
use cpp_sockets_library.Prelude.{
  ℕ, zero, suc, ◌+◌, ◌-◌, ◌<◌, ◌≤◌, ◌≡◌, refl, false, none, some, [], ◌∷◌, ltb, ◌==◌, Bytes, length,
  arith, ◌%◌,
}
use cpp_sockets_library.Prelude.Mem.{slice, blit, copy_in-eq, copy_out-eq}
use cpp_sockets_library.MemFile.{
  block_size, MemFile, new_node, set_node, put, get, fwrite, link_new, available, fread_within,
  fread, next_read, read_rest, eof,
}
use cpp_sockets_library.MemFile.Short.{short, appends, fetches, file_step, file_run}

get-border :
    (m : ℕ → ℕ) (r : ℕ)
    → r < block_size
    → get (short m r block_size false) r (block_size - r)
      ≡ some (short m block_size block_size false, slice m r (block_size - r))
unfolding get
get-border m r h =
    let e : r + (block_size - r) ≡ block_size = omega arith in
    rw (copy_out-eq (record { size = block_size; cells = m }) r (block_size - r) (omega arith), e)
      refl

rest-border :
    (m : ℕ → ℕ) (fuel k : ℕ) (out : Bytes)
    → 0 < fuel
    → read_rest fuel (short m block_size block_size false) k out
      ≡ some (short m block_size block_size false, out)
unfolding read_rest next_read
rest-border m zero k out h = absurd (omega arith)
rest-border m (suc fuel) k out h = refl

within-border :
    (m : ℕ → ℕ) (r : ℕ)
    → r < block_size
    → fread_within (short m r block_size false) (block_size - r)
      ≡ some (short m block_size block_size false, slice m r (block_size - r))
unfolding fread_within
within-border m r h =
    let inside : r % block_size ≡ r = omega arith in
    let left : (block_size - r == 0) ≡ false = ground arith in
    let full : ltb (r + (block_size - r)) block_size ≡ false = ground arith in
    rw (inside, left, full, get-border m r h)
      (rest-border m (block_size - r + 1) (block_size - r - (block_size - r))
        (slice m r (block_size - r)) (omega arith))

fread-border :
    (m : ℕ → ℕ) (r : ℕ)
    → r < block_size
    → fread (short m r block_size false) (block_size - r)
      ≡ some (short m block_size block_size false, slice m r (block_size - r))
unfolding fread available
fread-border m r h = ground (arith, within-border m r h)

-- Two blocks, of which the first is read and the second is written.
abbrev two : (ℕ → ℕ) → (ℕ → ℕ) → ℕ → ℕ → MemFile
two m m' r w = record {
  heap =
      record { next = some 1; data_ = record { size = block_size; cells = m } }
      ∷ record { next = none; data_ = record { size = block_size; cells = m' } }
      ∷ [];
  base = 0;
  current_read = 0;
  current_write = 1;
  current_write_nr = 1;
  read_ptr = r;
  write_ptr = w;
  read_caused_eof = false;
}

link-border :
    (m : ℕ → ℕ)
    → link_new (short m block_size block_size false) ≡ some (two m (λ _. 0) block_size block_size)
unfolding link_new set_node new_node
link-border m = refl

put-two :
    (m : ℕ → ℕ) (s : Bytes)
    → length s ≤ block_size
    → put (two m (λ _. 0) block_size block_size) 0 s
      ≡ some (two m (blit (λ _. 0) 0 s) block_size (block_size + length s))
unfolding put set_node
put-two m s h =
    rw (copy_in-eq (record { size = block_size; cells = λ _. 0 }) 0 s (omega arith)) refl

fwrite-border :
    (m : ℕ → ℕ) (s : Bytes)
    → length s ≤ block_size
    → fwrite (short m block_size block_size false) s
      ≡ some (two m (blit (λ _. 0) 0 s) block_size (block_size + length s))
unfolding fwrite
fwrite-border m s h = rw (link-border m) (ground (arith, put-two m s h))

get-two :
    (m m' : ℕ → ℕ) (w k : ℕ)
    → k < block_size
    → get (two m m' block_size w) 0 k ≡ some (two m m' (block_size + k) w, slice m 0 k)
unfolding get
get-two m m' w k h =
    rw (copy_out-eq (record { size = block_size; cells = m }) 0 k (omega arith)) refl

fread-two :
    (m m' : ℕ → ℕ) (n k : ℕ)
    → 0 < k
    → k ≤ n
    → k < block_size
    → fread (two m m' block_size (block_size + n)) k
      ≡ some (two m m' (block_size + k) (block_size + n), slice m 0 k)
unfolding fread fread_within available
fread-two m m' n k pos le h = ground (arith, get-two m m' (block_size + n) k h)

-- A file of one full block is read to its end; then `s`, at most a block, is written, and some
-- bytes, at most as many as `s` has and fewer than a block, are read. The second fread gives the
-- first bytes of the block that was read before, not those of `s`.
pub fread_stale :
    (m : ℕ → ℕ) (r : ℕ) (s : Bytes) (k : ℕ)
    → r < block_size
    → 0 < k
    → k ≤ length s
    → k < block_size
    → length s ≤ block_size
    → file_run (short m r block_size false) (fetches (block_size - r) ∷ appends s ∷ fetches k ∷ [])
      ≡ some ((slice m r (block_size - r), false) ∷ ([], false) ∷ (slice m 0 k, false) ∷ [])
unfolding file_run file_step eof
fread_stale m r s k h pos le small fits =
    rw
      (
        fread-border m r h,
        fwrite-border m s fits,
        fread-two m (blit (λ _. 0) 0 s) (length s) k pos le small,
      )
      refl
