-- ===== src/Tests/Ring.antt =====
-- A ring of four bytes.
use cpp_sockets_library.Prelude.{
  ◌%◌, ◌≡◌, refl, some, List, [], ◌∷◌, Bytes, arith, ◌==◌, if◌then◌else◌,
}
use cpp_sockets_library.Prelude.Mem.{}
use cpp_sockets_library.Tcp.Ring.{Ring, init, IsValid}
use cpp_sockets_library.Tcp.Ring.Write.{}
use cpp_sockets_library.Tcp.Ring.Read.{}
use cpp_sockets_library.Tcp.Ring.Queue.{
  Call, writes, reads, run, queue_run, init-IsValid, run-queue_run,
}

abbrev word : Bytes
word = b'a' ∷ b'b' ∷ b'c' ∷ []

abbrev ring : Ring
ring = init 4 (λ _. 7)

ring-IsValid : IsValid ring
ring-IsValid = init-IsValid 4 (λ _. 7) (omega arith)

-- Three bytes in, two out, and three in again, across the border.
abbrev filled : Ring
filled = record {
  buf = record { size = 8; cells = λ i. if i % 4 == 0 then b'd' else b'c' };
  max = 4;
  q = 3;
  b = 2;
  t = 1;
  count = 6;
}

filled-IsValid : IsValid filled
filled-IsValid = record {
  sized = refl;
  b_in = omega arith;
  q_in = omega arith;
  t_below = λ h. absurd (omega arith);
  t_above = λ h. refl;
  mirror = λ i lo hi. ground arith;
}

abbrev calls : List Call
calls = writes word ∷ reads 2 ∷ writes word ∷ writes word ∷ reads 4 ∷ reads 1 ∷ []

run-queue_run_example : run (init 4 (λ _. 7)) calls ≡ some (queue_run 4 [] calls)
run-queue_run_example = run-queue_run 4 (λ _. 7) calls (omega arith)
