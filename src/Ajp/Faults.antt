-- ===== src/Ajp/Faults.antt =====
-- OnRawData of src/AjpBaseSocket.cpp on packets that do not fit in the buffer.
use cpp_sockets_library.Prelude.{
  suc, ◌+◌, ◌-◌, ◌*◌, ◌<◌, ◌≡◌, refl, true, none, ltb, length, take, Bytes, arith, Bool-cases, inl,
  inr, length-take,
}
use cpp_sockets_library.Prelude.Mem.{copy_in}
use cpp_sockets_library.Ajp.{AjpBaseSocket, copy_length, loop, on_raw_data}

copy_length-over :
    (s : AjpBaseSocket) (buf : Bytes)
    → 8192 < s.length
    → s.length < 32768
    → 8192 < s.ptr + length buf
    → 8192 < s.ptr + length (take (copy_length s (length buf)) buf)
unfolding copy_length
copy_length-over s buf long short over = elim (Bool-cases (ltb (s.length - s.ptr) (length buf))) [
  | inl b ↦
      let positive : ltb s.length 32768 ≡ true = ground arith in
      let len = length-take (s.length - s.ptr) buf (ground arith) in
      rw (copy_length, positive, b) (omega (arith, len))
  | inr b ↦
      let positive : ltb s.length 32768 ≡ true = ground arith in
      let len = length-take (length buf) buf (omega arith) in
      rw (copy_length, positive, b) (omega (arith, len))
]

-- Where the header announced more than the 8192 bytes of the buffer, and fewer than 32768, the read
-- that brings more bytes than the buffer has room for writes behind its end.
pub on_raw_data-outside :
    (s : AjpBaseSocket) (buf : Bytes)
    → s.message.size ≡ 8192
    → 8192 < s.length
    → s.length < 32768
    → 8192 < s.ptr + length buf
    → on_raw_data s buf ≡ none
unfolding on_raw_data loop copy_in
on_raw_data-outside s buf w long short over =
    let fuel : 2 * length buf + 3 ≡ suc (2 * length buf + 2) = omega arith in
    let outside = copy_length-over s buf long short over in
    let refused : copy_in s.message s.ptr (take (copy_length s (length buf)) buf) ≡ none =
      ground (arith, outside) in
    rw (fuel, loop, refused) refl
