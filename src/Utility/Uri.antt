-- ===== src/Utility/Uri.antt =====
-- Utility::Uri and Utility::Path of src/Utility.cpp, and the comparison of IPv6 addresses. `atoi`
-- is the C library's, a parameter; `is_dir` says whether stat finds a directory.
pub mod Parts
use cpp_sockets_library.Prelude.{
  ℕ, zero, suc, ◌+◌, ◌-◌, Bool, true, false, ◌&&◌, ◌||◌, Option, some, none, List, [], ◌∷◌, ◌++◌,
  ltb, ◌==◌, if◌then◌else◌, Bytes, length,
}
use cpp_sockets_library.Prelude.Int.{ℤ, pos, negsuc}
use cpp_sockets_library.Prelude.Text.{codes}
use cpp_sockets_library.Utility.Letters.{to_lower}

-- s.find(c) with the two parts around it, s.substr(0, pos) and s.substr(pos + 1).
pub cut : ℕ → Bytes → Option (Bytes × Bytes)
cut c [] = none
cut c (x ∷ s) =
    let rest = cut c s in
    if x == c then some ([], s) else elim rest [ none ↦ none | some (a, b) ↦ some (x ∷ a, b) ]

-- The same for "://".
pub cut_protocol : Bytes → Option (Bytes × Bytes)
cut_protocol [] = none
cut_protocol (x ∷ []) = none
cut_protocol (x ∷ y ∷ []) = none
cut_protocol (x ∷ y ∷ z ∷ s) =
    let rest = cut_protocol (y ∷ z ∷ s) in
    if x == b':' && (y == b'/' && z == b'/')
    then some ([], s)
    else elim rest [ none ↦ none | some (a, b) ↦ some (x ∷ a, b) ]

-- The text behind the last `c`, "" where there is none.
pub after_last : ℕ → Bytes → Bytes
after_last c s = from s []
  where
    from : Bytes → Bytes → Bytes
    from [] found = found
    from (x ∷ s) found = from s (if x == c then s else found)

unfoldable pub same : Bytes → Bytes → Bool
same [] [] = true
same [] (y ∷ t) = false
same (x ∷ s) [] = false
same (x ∷ s) (y ∷ t) = x == y && same s t

pub record Uri : Type 0 where
  pub url : Bytes
  pub uri : Bytes
  pub query_string : Bytes
  pub protocol : Bytes
  pub host : Bytes
  pub port : ℤ
  pub path : Bytes
  pub file : Bytes
  pub ext : Bytes
  pub user : Bytes
  pub auth : Bytes

pub default_port : Bytes → ℤ
default_port p =
    if same p (codes "http") then pos 80 else if same p (codes "https") then pos 443 else pos 0

-- The steps of the constructor, each a find and the assignments under it.
pub split_path : Uri → Uri
split_path u = elim (cut b'/' u.host) [
  | none ↦ u
  | some (before, after) ↦ record u { path = b'/' ∷ after; host = before }
]

pub split_user : Uri → Uri
split_user u = elim (cut b'@' u.host) [
  | none ↦ u
  | some (before, after) ↦ record u { user = before; host = after }
]

pub split_auth : Uri → Uri
split_auth u = elim (cut b':' u.user) [
  | none ↦ u
  | some (before, after) ↦ record u { auth = after; user = before }
]

pub split_port : (Bytes → ℤ) → Uri → Uri
split_port atoi u = elim (cut b':' u.host) [
  | none ↦ u
  | some (before, after) ↦ record u { port = atoi after; host = before }
]

pub split_query : Uri → Uri
split_query u = elim (cut b'?' u.path) [
  | none ↦ record u { uri = u.path }
  | some (before, after) ↦ record u { uri = before; query_string = after }
]

pub split_file : Uri → Uri
split_file u = record u { file = after_last b'/' u.uri; ext = after_last b'.' u.uri }

pub split_protocol : (Bytes → ℤ) → Uri → Uri
split_protocol atoi u = elim (cut_protocol u.url) [
  | none ↦ u
  | some (before, after) ↦
      let u1 : Uri = record u {
        protocol = to_lower before;
        port = default_port (to_lower before);
        host = after;
      } in
      split_port atoi (split_auth (split_user (split_path u1)))
]

pub new_uri : (Bytes → ℤ) → Bytes → Uri
new_uri atoi url =
    let u : Uri = record {
      url = url;
      uri = [];
      query_string = [];
      protocol = [];
      host = [];
      port = pos 0;
      path = url;
      file = [];
      ext = [];
      user = [];
      auth = [];
    } in
    split_file (split_query (split_protocol atoi u))

pub record FilePath : Type 0 where
  pub path : Bytes
  pub file : Bytes
  pub ext : Bytes

pub slashes : Bytes → Bytes
slashes [] = []
slashes (x ∷ s) = (if x == b'\\' then b'/' else x) ∷ slashes s

-- str.substr(0, x) and str.substr(x), where x is behind the last separator: one byte more in
-- front.
pub split_step : ℕ → Bytes × Bytes → Bytes × Bytes
split_step x ([], f) = if x == b'/' || x == b'\\' then (x ∷ [], f) else ([], x ∷ f)
split_step x (y ∷ d, f) = (x ∷ y ∷ d, f)

pub split_last : Bytes → Bytes × Bytes
unfolding split_step
split_last [] = ([], [])
split_last (x ∷ s) = split_step x (split_last s)

pub new_path : (Bytes → Bool) → Bytes → FilePath
new_path is_dir text =
    let s = slashes text in
    let parts = split_last s in
    if is_dir s
    then record { path = s; file = []; ext = [] }
    else record { path = parts.0; file = parts.1; ext = after_last b'.' parts.1 }

-- in6_addr_compare on the bytes of two addresses.
pub in6_addr_compare : Bytes → Bytes → ℤ
in6_addr_compare [] b = pos 0
in6_addr_compare (x ∷ a) [] = pos 0
in6_addr_compare (x ∷ a) (y ∷ b) =
    let rest = in6_addr_compare a b in if ltb x y then negsuc 0 else if ltb y x then pos 1 else rest
