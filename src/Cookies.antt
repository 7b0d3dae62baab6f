-- ===== src/Cookies.antt =====
-- src/HttpdCookies.cpp with src/HttpdCookies.h: the cookies of an HTTP request, in their order. The
-- date that expiredatetime gives by the clock is an argument of setcookie.
pub mod Values
use cpp_sockets_library.Prelude.{
  ℕ, zero, suc, ◌+◌, ◌-◌, Bool, true, false, Option, none, some, List, [], ◌∷◌, ◌++◌, ◌==◌,
  if◌then◌else◌, length, take, Bytes,
}
use cpp_sockets_library.Prelude.Text.{codes}
use cpp_sockets_library.Tcp.Lines.{c_string}
use cpp_sockets_library.Parse.{Parse, new_parse, getword}

-- A name and a value.
abbrev pub Cookies : Type 0
Cookies = List (Bytes × Bytes)

pub cookie_of : Bytes → Bytes × Bytes
cookie_of word = let p = getword (new_parse word (b'=' ∷ []) false) in (p.ord, (getword p).ord)

-- The loop of the constructor and of add.
pub add_loop : ℕ → Parse → Cookies → Option Cookies
add_loop zero p cs = none
add_loop (suc fuel) p cs =
    let p' = getword p in
    let rest = add_loop fuel p' (cs ++ cookie_of p'.ord ∷ []) in
    if length p'.ord == 0 then some cs else rest

pub add : Bytes → Cookies → Option Cookies
add s cs = add_loop (length s + 2) (new_parse s (b';' ∷ []) false) cs

-- `same_name` is strcasecmp of the C library with the result zero.
module _ (same_name : Bytes → Bytes → Bool) where
  -- The result is what getvalue returns, and the text that it puts into the buffer.
  pub getvalue : Bytes → Cookies → Bool × Bytes
  getvalue name [] = (false, [])
  getvalue name (c ∷ cs) =
      let rest = getvalue name cs in if same_name c.0 name then (true, c.1) else rest

  pub replacevalue : Bytes → Bytes → Cookies → Cookies
  replacevalue name value [] = (name, value) ∷ []
  replacevalue name value (c ∷ cs) =
      let rest = replacevalue name value cs in
      if same_name c.0 name then (c.0, value) ∷ cs else c ∷ rest

  pub getlength : Bytes → Cookies → ℕ
  getlength name [] = 0
  getlength name (c ∷ cs) =
      let rest = getlength name cs in if same_name c.0 name then length c.1 else rest

  -- snprintf: no more than `size` bytes with the closing zero. A %s takes its text up to a zero byte.
  pub snprintf : ℕ → Bytes → Bytes
  snprintf size s = take (size - 1) s

  -- The text that setcookie formats; `expires` is what expiredatetime gives.
  pub cookie_text : Bytes → Bytes → Bytes → Bytes → Bytes → Bytes
  cookie_text domain path name value expires =
      let ending = codes "; path=" ++ (c_string path ++ (codes "; expires=" ++ c_string expires)) in
      let middle : Bytes = elim domain [
        | [] ↦ ending
        | d ∷ ds ↦ codes "; domain=" ++ (c_string (d ∷ ds) ++ ending)
      ] in
      c_string name ++ (b'=' ∷ (c_string value ++ middle))

  -- setcookie for a text: the value of the header line that it adds, and the cookies.
  pub setcookie : Bytes → Bytes → Bytes → Bytes → Bytes → Cookies → Bytes × Cookies
  setcookie domain path name value expires cs =
      let sz = length name + length value + length domain + length path + 100 in
      (snprintf sz (cookie_text domain path name value expires), replacevalue name value cs)

  -- setcookie for a number, whose digits are `value`.
  pub setcookie_number : Bytes → Bytes → Bytes → Bytes → Bytes → Cookies → Bytes × Cookies
  setcookie_number domain path name value expires cs =
      let sz = length name + length domain + length path + 100 in
      (snprintf sz (cookie_text domain path name value expires), replacevalue name value cs)

pub reset : Cookies → Cookies
reset cs = []
