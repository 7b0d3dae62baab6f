-- ===== src/Tests/Files.antt =====
-- A short file, written, read to its end and past it, and written again; and a full block.
use cpp_sockets_library.Prelude.{ℕ, ◌%◌, ◌<◌, ◌≡◌, false, some, List, [], ◌∷◌, arith}
use cpp_sockets_library.MemFile.{new_file, block_size}
use cpp_sockets_library.MemFile.Border.{fread_stale}
use cpp_sockets_library.Prelude.Mem.{slice}
use cpp_sockets_library.MemFile.Short.{
  short, Access, appends, fetches, file_run, text_run, written, file_run-new_file,
}

abbrev accesses : List Access
accesses = appends (b'a' ∷ b'b' ∷ []) ∷ fetches 1 ∷ fetches 2 ∷ appends (b'c' ∷ []) ∷ fetches 1 ∷ []

accesses_short : written accesses < block_size
accesses_short = unfold written in omega arith

file_run-new_file_example : file_run new_file accesses ≡ some (text_run [] 0 false accesses)
file_run-new_file_example = file_run-new_file accesses accesses_short

abbrev last : List ℕ
last = b'z' ∷ []

fread_stale_example :
    file_run
      (short (λ i. i % 256) 32766 block_size false)
      (fetches 2 ∷ appends last ∷ fetches 1 ∷ [])
    ≡ some (
        (slice (λ i. i % 256) 32766 2, false)
        ∷ ([], false)
        ∷ (slice (λ i. i % 256) 0 1, false)
        ∷ [])
fread_stale_example =
    fread_stale (λ i. i % 256) 32766 last 1 (omega arith) (omega arith) (omega arith) (omega arith)
      (omega arith)
