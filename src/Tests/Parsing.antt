-- ===== src/Tests/Parsing.antt =====
-- Words, lines, URLs and paths.
use cpp_sockets_library.Prelude.{Bool, some, ◌≡◌, refl, false, [], ◌∷◌, ◌++◌, Bytes, All}
use cpp_sockets_library.Prelude.Int.{pos}
use cpp_sockets_library.Prelude.Text.{}
use cpp_sockets_library.Parse.{Parse, ahead, getline}
use cpp_sockets_library.Parse.Spans.{Passes}
use cpp_sockets_library.Parse.Words.{LineEnd, in_line, getline-LineEnd}
use cpp_sockets_library.Utility.Letters.{to_lower}
use cpp_sockets_library.Utility.Ipv6.{isipv6}
use cpp_sockets_library.Utility.Ipv6.Total.{isipv6_ends}
use cpp_sockets_library.Utility.Uri.{new_uri}
use cpp_sockets_library.Utility.Uri.Parts.{full_url, new_uri-full_url}

abbrev parse : Parse
parse = record {
  the_str = b'a' ∷ b'b' ∷ b' ' ∷ b'c' ∷ b'\r' ∷ b'\n' ∷ b'd' ∷ [];
  splits = [];
  ord = [];
  the_ptr = 0;
  breakchar = 0;
  enable = 0;
  disable = 0;
  nospace = false;
  quote = false;
}

getline-LineEnd_example :
    let p' = getline parse in
    (e : Bytes) × (ahead parse ≡ p'.ord ++ (e ++ ahead p'))
    × LineEnd e (ahead p')
    × All (Passes in_line) p'.ord
getline-LineEnd_example = getline-LineEnd parse

abbrev tail : Parse
tail = record parse { the_str = b'a' ∷ b'b' ∷ [] }

new_uri-full_url_example :
    let u =
      new_uri
        (λ _. pos 80)
        (full_url
          (b'H' ∷ [])
          (b'u' ∷ [])
          (b'p' ∷ [])
          (b'h' ∷ [])
          (b'8' ∷ [])
          (b'x' ∷ [])
          (b'q' ∷ [])) in
    (u.protocol ≡ to_lower (b'H' ∷ []))
    × (u.user ≡ b'u' ∷ [])
    × (u.auth ≡ b'p' ∷ [])
    × (u.host ≡ b'h' ∷ [])
    × (u.port ≡ pos 80)
    × (u.uri ≡ b'/' ∷ b'x' ∷ [])
    × (u.query_string ≡ b'q' ∷ [])
new_uri-full_url_example =
    new_uri-full_url (λ _. pos 80) (b'H' ∷ []) (b'u' ∷ []) (b'p' ∷ []) (b'h' ∷ []) (b'8' ∷ [])
      (b'x' ∷ []) (b'q' ∷ []) (refl, tt) (refl, (refl, (refl, (refl, (refl, (refl, (refl, tt)))))))
      (refl, (refl, (refl, tt))) (refl, tt) (refl, tt) (refl, tt)

abbrev name : Bytes
name = b'd' ∷ b'\\' ∷ b'f' ∷ b'.' ∷ b'c' ∷ []

abbrev low : Bytes
low = 1 ∷ []

abbrev high : Bytes
high = 2 ∷ []

abbrev address : Bytes
address = b'f' ∷ b'e' ∷ b'8' ∷ b'0' ∷ b':' ∷ b':' ∷ b'1' ∷ []

isipv6_ends_example : (b : Bool) × (isipv6 address ≡ some b)
isipv6_ends_example = isipv6_ends address
