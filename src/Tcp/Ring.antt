-- ===== src/Tcp/Ring.antt =====
-- TcpSocket::CircularBuffer of src/TcpSocket.cpp. The array has twice the ring's size, and bytes
-- are also kept past the ring's border, so that a reader finds them in one piece. A memcpy
-- outside the array is a fault, `none`.
pub mod Write
pub mod Read
pub mod Queue
use cpp_sockets_library.Prelude.{
  ◌>>=◌, ℕ, ◌+◌, ◌-◌, ◌*◌, ◌%◌, ◌^◌, ◌≡◌, ◌≤◌, ◌<◌, Bool, true, false, Option, none, some, List, [],
  ◌∷◌, ◌++◌, ltb, leb, ◌==◌, if◌then◌else◌, Bytes, length, take, drop,
}
use cpp_sockets_library.Prelude.Mem.{Mem, copy_in, copy_out, slice}

pub record Ring : Type 0 where
  pub buf : Mem
  pub max : ℕ
  pub q : ℕ
  pub b : ℕ
  pub t : ℕ
  pub count : ℕ

-- `unsigned long` has 64 bits.
abbrev pub ulong_mod : ℕ
ulong_mod = 2 ^ 64

-- CircularBuffer(size_t size); `cells` is what `new char[2 * size]` happens to hold.
pub init : ℕ → (ℕ → ℕ) → Ring
init size cells = record {
  buf = record { size = 2 * size; cells = cells };
  max = size;
  q = 0;
  b = 0;
  t = 0;
  count = 0;
}

-- The block crosses the circular border.
pub write_across : Ring → Bytes → Option (Ring × Bool)
write_across c s = do
  whole ← copy_in c.buf c.t s
  wrapped ← copy_in whole 0 (drop (c.max - c.t) s)
  some (
    record c {
      buf = wrapped;
      t = length s - (c.max - c.t);
      q = c.q + length s;
      count = (c.count + length s) % ulong_mod;
    },
    true,
  )

pub write_within : Ring → Bytes → Option (Ring × Bool)
write_within c s = do
  lower ← copy_in c.buf c.t s
  upper ← copy_in lower (c.max + c.t) s
  some (
    record c {
      buf = upper;
      t = (if leb c.max (c.t + length s) then c.t + length s - c.max else c.t + length s);
      q = c.q + length s;
      count = (c.count + length s) % ulong_mod;
    },
    true,
  )

-- Write(s, l): false, and nothing written, where the bytes do not fit.
pub write : Ring → Bytes → Option (Ring × Bool)
write c s =
    if ltb c.max (c.q + length s)
    then some (c, false)
    else if ltb c.max (c.t + length s)
    then write_across c s
    else write_within c s

-- `if (!m_q) m_b = m_t = 0;`
pub settle : Ring → Ring
settle c = if c.q == 0 then record c { b = 0; t = 0 } else c

-- Read(s, l) with s the destination; the bytes copied are the second part of the result.
pub read : Ring → ℕ → Option (Ring × Bytes × Bool)
unfolding settle
read c l =
    if ltb c.q l
    then some (c, [], false)
    else if ltb c.max (c.b + l)
    then (do
      left ← copy_out c.buf c.b (c.max - c.b)
      right ← copy_out c.buf 0 (l - (c.max - c.b))
      some (settle (record c { b = l - (c.max - c.b); q = c.q - l }), left ++ right, true))
    else (do
      out ← copy_out c.buf c.b l
      some (
        settle (record c {
          b = (if leb c.max (c.b + l) then c.b + l - c.max else c.b + l);
          q = c.q - l;
        }),
        out,
        true,
      ))

-- Remove(l) is Read(NULL, l): the same steps with no copy.
pub remove : Ring → ℕ → Ring × Bool
unfolding settle
remove c l =
    if ltb c.q l
    then (c, false)
    else if ltb c.max (c.b + l)
    then (settle (record c { b = l - (c.max - c.b); q = c.q - l }), true)
    else (
      settle (record c {
        b = (if leb c.max (c.b + l) then c.b + l - c.max else c.b + l);
        q = c.q - l;
      }),
      true,
    )

pub get_length : Ring → ℕ
get_length c = c.q

-- GetStart() is a pointer into the array: its offset.
pub get_start : Ring → ℕ
get_start c = c.b

-- GetL(): the bytes up to the circular border.
pub get_l : Ring → ℕ
get_l c = if ltb c.max (c.b + c.q) then c.max - c.b else c.q

pub space : Ring → ℕ
space c = c.max - c.q

pub byte_counter : Ring → Bool → Ring × ℕ
byte_counter c clear = if clear then (record c { count = 0 }, c.count) else (c, c.count)

-- A C string ends at its first zero byte.
pub c_string : Bytes → Bytes
c_string [] = []
c_string (x ∷ s) = let rest = c_string s in if x == 0 then [] else x ∷ rest

-- ReadString(l): the copied bytes pass through a C string; a failed Read gives "".
pub read_string : Ring → ℕ → Option (Ring × Bytes)
unfolding c_string
read_string c l = do (c', out, done) ← read c l; some (c', if done then c_string out else [])

-- The bytes written and not yet read, oldest first.
pub contents : Ring → Bytes
contents c = slice c.buf.cells c.b c.q

pub record IsValid (c : Ring) : Type 0 where
  pub sized : c.buf.size ≡ 2 * c.max
  pub b_in : c.b < c.max
  pub q_in : c.q ≤ c.max
  pub t_below : c.b + c.q < c.max → c.t ≡ c.b + c.q
  pub t_above : c.max ≤ c.b + c.q → c.t ≡ c.b + c.q - c.max
  pub mirror : (i : ℕ) → c.max ≤ i → i < c.b + c.q → c.buf.cells i ≡ c.buf.cells (i - c.max)
