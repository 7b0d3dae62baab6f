-- ===== src/Ajp.antt =====
-- src/AjpBaseSocket.cpp with src/AjpBaseSocket.h: the packets of AJP13 and the values in them.
-- A `short` is its 16 bits, 32768 and above standing for the negative values. An access outside a
-- buffer is a fault, `none`. A read is no longer than the read buffer, so `(short)` keeps a length.
pub mod Values
pub mod Rounds
pub mod Bytewise
pub mod Cuts
pub mod Packets
pub mod Faults
use cpp_sockets_library.Prelude.{
  ℕ, zero, suc, ◌+◌, ◌-◌, ◌*◌, ◌/◌, ◌%◌, Bool, true, false, not, ◌&&◌, Option, none, some, List, [],
  ◌∷◌, ◌++◌, ltb, leb, ◌==◌, if◌then◌else◌, length, take, drop, Bytes, ◌>>=◌,
}
use cpp_sockets_library.Prelude.Mem.{Mem, copy_in, copy_out}

pub get_byte : Mem → ℕ → Option (ℕ × ℕ)
get_byte buf ptr = copy_out buf ptr 1 >>= λ b. elim b [ [] ↦ none | x ∷ _ ↦ some (x, ptr + 1) ]

pub get_boolean : Mem → ℕ → Option (Bool × ℕ)
get_boolean buf ptr = elim (get_byte buf ptr) [ none ↦ none | some r ↦ some (r.0 % 2 == 1, r.1) ]

-- ntohs of two bytes
pub network_short : Bytes → Option ℕ
network_short (hi ∷ lo ∷ []) = some (hi * 256 + lo)
network_short _ = none

pub get_integer : Mem → ℕ → Option (ℕ × ℕ)
get_integer buf ptr = do b ← copy_out buf ptr 2; n ← network_short b; some (n, ptr + 2)

-- `std::string tmp = buf + ptr`: the bytes before the next zero; `left` bytes are still in `buf`.
pub c_string : (ℕ → ℕ) → ℕ → ℕ → Option Bytes
c_string buf ptr zero = none
c_string buf ptr (suc left) =
    let rest = c_string buf (ptr + 1) left in
    if buf ptr == 0 then some [] else rest >>= λ s. some (buf ptr ∷ s)

pub zeros : ℕ → Bytes
zeros zero = []
zeros (suc n) = 0 ∷ zeros n

-- std::string::resize
pub resize : ℕ → Bytes → Bytes
resize n s = take n (s ++ zeros n)

-- A negative length but -1 makes `resize` throw.
pub get_string : Mem → ℕ → Option (Bytes × ℕ)
get_string buf ptr = elim (get_integer buf ptr) [
  | none ↦ none
  | some (len, p) ↦
      if len == 65535
      then some ([], p)
      else if leb 32768 len
      then none
      else elim (c_string buf.cells p (buf.size - p)) [
        | none ↦ none
        | some tmp ↦ some (resize len tmp, p + len + 1)
      ]
]

pub put_byte : Mem → ℕ → ℕ → Option (Mem × ℕ)
put_byte buf ptr zz = copy_in buf ptr (zz ∷ []) >>= λ m. some (m, ptr + 1)

pub put_boolean : Mem → ℕ → Bool → Option (Mem × ℕ)
put_boolean buf ptr zz = put_byte buf ptr (if zz then 1 else 0)

pub put_integer : Mem → ℕ → ℕ → Option (Mem × ℕ)
put_integer buf ptr zz = copy_in buf ptr (zz / 256 ∷ zz % 256 ∷ []) >>= λ m. some (m, ptr + 2)

pub put_string : Mem → ℕ → Bytes → Option (Mem × ℕ)
put_string buf ptr zz = do
  (m1, p1) ← put_integer buf ptr (length zz % 65536)
  m2 ← copy_in m1 p1 zz
  put_byte m2 (p1 + length zz) 0

-- m_state: 0 and 1
pub data State : Type 0 where
  header packet : State

pub record AjpBaseSocket : Type 0 where
  pub state : State
  pub length : ℕ
  pub ptr : ℕ
  pub message : Mem

-- The calls of OnHeader and OnPacket.
pub data Callback : Type 0 where
  on_header : ℕ → ℕ → Callback
  on_packet : Bytes → Callback

pub new_socket : (ℕ → ℕ) → AjpBaseSocket
new_socket cells = record {
  state = header;
  length = 4;
  ptr = 0;
  message = record { size = 8192; cells = cells };
}

pub reset : AjpBaseSocket → AjpBaseSocket
reset s = record s { state = header; length = 4; ptr = 0 }

-- `missing < left ? missing : left`; a negative `m_length - m_ptr` is a large size_t.
pub copy_length : AjpBaseSocket → ℕ → ℕ
copy_length s left =
    let missing = s.length - s.ptr in
    if ltb s.length 32768 && ltb missing left then missing else left

-- `m_ptr < m_length`
pub read_more : AjpBaseSocket → Bool
read_more s = ltb s.length 32768 && ltb s.ptr s.length

-- What follows `return; // read more`
pub finish : AjpBaseSocket → Option (AjpBaseSocket × Callback)
finish s = elim s.state [
  | header ↦ do
    (id, p) ← get_integer s.message 0
    (len, q) ← get_integer s.message p
    some (record s { state = packet; length = len; ptr = 0 }, on_header id len)
  | packet ↦ do b ← copy_out s.message 0 s.ptr; some (reset s, on_packet b)
]

-- The loop of OnRawData; the result has the callbacks it made, in order.
pub loop : ℕ → AjpBaseSocket → Bytes → Option (AjpBaseSocket × List Callback)
loop zero s buf = none
loop (suc fuel) s buf =
    let len = copy_length s (length buf) in
    elim (copy_in s.message s.ptr (take len buf)) [
      | none ↦ none
      | some m ↦
          let s1 : AjpBaseSocket = record s { message = m; ptr = s.ptr + len } in
          if read_more s1 then some (s1, []) else elim (finish s1) [
            | none ↦ none
            | some (s2, c) ↦ elim (loop fuel s2 (drop len buf)) [
              | none ↦ none
              | some (s3, cs) ↦ some (s3, c ∷ cs)
            ]
          ]
    ]

pub on_raw_data : AjpBaseSocket → Bytes → Option (AjpBaseSocket × List Callback)
on_raw_data s buf = loop (2 * length buf + 3) s buf
