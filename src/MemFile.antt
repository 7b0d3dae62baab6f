-- ===== src/MemFile.antt =====
-- src/MemFile.cpp: a file in memory, a chain of blocks. The blocks are the nodes of a heap and a
-- pointer is a node's number; a pointer to no node, or a memcpy outside a block, is a fault,
-- `none`. A copy that shares the blocks of another file is not modelled.
pub mod Short
pub mod Border
use cpp_sockets_library.Prelude.{
  ◌>>=◌, ℕ, zero, suc, ◌+◌, ◌-◌, ◌*◌, ◌/◌, ◌%◌, ◌^◌, Bool, true, false, not, ◌&&◌, ◌||◌, Option,
  none, some, List, [], ◌∷◌, ◌++◌, ltb, leb, ◌==◌, if◌then◌else◌, Bytes, length, take, drop,
  get_elem?,
}
use cpp_sockets_library.Prelude.Int.{ℤ, pos, negsuc}
use cpp_sockets_library.Prelude.Mem.{Mem, copy_in, copy_out}

-- BLOCKSIZE
abbrev pub block_size : ℕ
block_size = 32768

pub record Node : Type 0 where
  pub next : Option ℕ
  pub data_ : Mem

-- `new block_t`: no byte of it is read before it is written.
pub new_node : Node
new_node = record { next = none; data_ = record { size = block_size; cells = λ _. 0 } }

pub record MemFile : Type 0 where
  pub heap : List Node
  pub base : ℕ
  pub current_read : ℕ
  pub current_write : ℕ
  pub current_write_nr : ℕ
  pub read_ptr : ℕ
  pub write_ptr : ℕ
  pub read_caused_eof : Bool

pub new_file : MemFile
new_file = record {
  heap = new_node ∷ [];
  base = 0;
  current_read = 0;
  current_write = 0;
  current_write_nr = 0;
  read_ptr = 0;
  write_ptr = 0;
  read_caused_eof = false;
}

pub set_node : List Node → ℕ → Node → List Node
set_node [] i n = []
set_node (m ∷ ms) zero n = n ∷ ms
set_node (m ∷ ms) (suc i) n = m ∷ set_node ms i n

-- `new block_t` linked behind the block that is written, which becomes the one that is written.
pub link_new : MemFile → Option MemFile
link_new f = do
  n ← get_elem? f.heap f.current_write
  let fresh = length f.heap
  some (record f {
    heap = set_node f.heap f.current_write (record n { next = some fresh }) ++ (new_node ∷ []);
    current_write = fresh;
    current_write_nr = f.current_write_nr + 1;
  })

-- `if (m_current_write -> next) … else …`
pub next_write : MemFile → Option MemFile
next_write f = do
  n ← get_elem? f.heap f.current_write
  elim n.next [
    | none ↦ link_new f
    | some i ↦ some (record f { current_write = i; current_write_nr = f.current_write_nr + 1 })
  ]

-- memcpy(m_current_write -> data + p, …), and m_write_ptr moves on.
pub put : MemFile → ℕ → Bytes → Option MemFile
put f p s = do
  n ← get_elem? f.heap f.current_write
  data' ← copy_in n.data_ p s
  some (record f {
    heap = set_node f.heap f.current_write (record n { data_ = data' });
    write_ptr = f.write_ptr + length s;
  })

-- The blocks behind the first one that fwrite fills.
pub write_rest : ℕ → MemFile → Bytes → Option MemFile
write_rest zero f s = none
write_rest (suc fuel) f s = do
  f1 ← next_write f
  (if ltb block_size (length s)
      then (do f2 ← put f1 0 (take block_size s); write_rest fuel f2 (drop block_size s))
      else put f1 0 s)

-- fwrite(ptr, size, nmemb) of the bytes `s`.
pub fwrite : MemFile → Bytes → Option MemFile
fwrite f s = do
  let p = f.write_ptr % block_size
  f1 ← if ltb f.current_write_nr (f.write_ptr / block_size) then link_new f else some f
  (if leb (p + length s) block_size then put f1 p s else (do
    f2 ← put f1 p (take (block_size - p) s)
    write_rest (length s + 1) f2 (drop (block_size - p) s)))

-- memcpy from m_current_read -> data + p, and m_read_ptr moves on.
pub get : MemFile → ℕ → ℕ → Option (MemFile × Bytes)
get f p n = do
  m ← get_elem? f.heap f.current_read
  out ← copy_out m.data_ p n
  some (record f { read_ptr = f.read_ptr + n }, out)

pub next_read : MemFile → Option (Option ℕ)
next_read f = do n ← get_elem? f.heap f.current_read; some n.next

-- The blocks behind the first one that fread empties: `n` is sz2, and `out` what was read.
pub read_rest : ℕ → MemFile → ℕ → Bytes → Option (MemFile × Bytes)
read_rest zero f n out = none
read_rest (suc fuel) f n out = do
  next ← next_read f
  elim next [
    | none ↦ some (f, out)
    | some i ↦
        if ltb block_size n
        then (do
          (f1, more) ← get (record f { current_read = i }) 0 block_size
          read_rest fuel f1 (n - block_size) (out ++ more))
        else (do (f1, more) ← get (record f { current_read = i }) 0 n; some (f1, out ++ more))
  ]

-- `m_write_ptr - m_read_ptr`, unsigned
pub available : MemFile → ℕ
available f =
    if leb f.read_ptr f.write_ptr
    then f.write_ptr - f.read_ptr
    else 2 ^ 64 + f.write_ptr - f.read_ptr

-- The part of fread behind the test of the end, for `n` bytes.
pub fread_within : MemFile → ℕ → Option (MemFile × Bytes)
fread_within f n =
    let p = f.read_ptr % block_size in
    if n == 0
    then some (f, [])
    else if ltb (p + n) block_size
    then get f p n
    else (do (f1, out) ← get f p (block_size - p); read_rest (n + 1) f1 (n - (block_size - p)) out)

-- fread(ptr, size, nmemb) of n = size * nmemb bytes; its result is the number of bytes read.
pub fread : MemFile → ℕ → Option (MemFile × Bytes)
fread f n =
    if ltb (available f) n
    then fread_within (record f { read_caused_eof = true }) (available f)
    else fread_within f n

-- The loop of fgets(s, size), with `room` bytes left for s and `line` in it; a round that reads
-- no byte has met the end.
pub fgets_loop : ℕ → MemFile → ℕ → Bytes → Option (MemFile × Bytes)
fgets_loop zero f room line = none
fgets_loop (suc fuel) f room line = if room == 0 || f.read_caused_eof then some (f, line) else (do
  (f1, s) ← fread f 1
  elim s [
    | [] ↦ fgets_loop fuel f1 room line
    | c ∷ _ ↦ if c == 10 then some (f1, line) else fgets_loop fuel f1 (room - 1) (line ++ c ∷ [])
  ])

pub fgets : MemFile → ℕ → Option (MemFile × Bytes)
fgets f size = fgets_loop (size + 2) f (size - 1) []

pub size : MemFile → ℕ
size f = f.write_ptr

pub eof : MemFile → Bool
eof f = f.read_caused_eof

pub reset_read : MemFile → MemFile
reset_read f = record f { read_ptr = 0; current_read = f.base }

pub reset_write : MemFile → MemFile
reset_write f = record f { write_ptr = 0; current_write = f.base; current_write_nr = 0 }
