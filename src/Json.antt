-- ===== src/Json.antt =====
-- src/Json.cpp, the escapes of string values. Each loop of find and replace goes on behind what it
-- has written, so it is one pass over the text.
pub mod Escapes
pub mod Token
pub mod Tree
use cpp_sockets_library.Prelude.{ℕ, Bool, ◌&&◌, [], ◌∷◌, ◌==◌, if◌then◌else◌, Bytes}

-- `pos = src.find(c); while (…) { src.replace(pos, 1, "\k"); pos = src.find(c, pos + 2); }`
pub escape : ℕ → ℕ → Bytes → Bytes
escape c k [] = []
escape c k (x ∷ s) = let rest = escape c k s in if x == c then b'\\' ∷ k ∷ rest else x ∷ rest

-- `pos = src.find("\k"); while (…) { src.replace(pos, 2, c); pos = src.find("\k", pos + 1); }`
pub unescape : ℕ → ℕ → Bytes → Bytes
unescape c k [] = []
unescape c k (x ∷ []) = x ∷ []
unescape c k (x ∷ y ∷ s) =
    let pair = c ∷ unescape c k s in
    let single = x ∷ unescape c k (y ∷ s) in if x == b'\\' && y == k then pair else single

-- Json::encode(std::string&)
pub encode : Bytes → Bytes
encode s = escape b'"' b'"' (escape b'\n' b'n' (escape b'\r' b'r' (escape b'\\' b'\\' s)))

-- Json::decode(std::string&)
pub decode : Bytes → Bytes
decode s = unescape b'\\' b'\\' (unescape b'\n' b'n' (unescape b'\r' b'r' (unescape b'"' b'"' s)))
