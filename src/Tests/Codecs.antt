-- ===== src/Tests/Codecs.antt =====
-- Base64, URL and JSON texts.
use cpp_sockets_library.Prelude.{◌++◌, ◌≡◌, refl, true, some, [], ◌∷◌, Bytes, All, IsByte, arith}
use cpp_sockets_library.Base64.{encode_reads, decode_to, decode_length}
use cpp_sockets_library.Base64
use cpp_sockets_library.Base64.RoundTrip.{decode-encode}
use cpp_sockets_library.Base64.Variants.{}
use cpp_sockets_library.Utility.Url.{rfc1738_encode, rfc1738_decode, rfc1738_decode-rfc1738_encode}
use cpp_sockets_library.Json
use cpp_sockets_library.Json.Token.{string, token}
use cpp_sockets_library.Json.Token.Quoted.{token-encode}
use cpp_sockets_library.Json.Escapes.{NoBackslash, decode-encode_backslash}

abbrev word : Bytes
word = b'a' ∷ b' ' ∷ 0xff ∷ b'c' ∷ []

word-IsByte : All IsByte word
word-IsByte = (omega arith, (omega arith, (omega arith, (omega arith, tt))))

decode-encode_example : Base64.decode (Base64.encode true word) ≡ some word
decode-encode_example = decode-encode true word word-IsByte

abbrev text : Bytes
text = b'Y' ∷ b'W' ∷ b'I' ∷ b'=' ∷ []

rfc1738_decode-rfc1738_encode_example : rfc1738_decode (rfc1738_encode word) ≡ word
rfc1738_decode-rfc1738_encode_example = rfc1738_decode-rfc1738_encode word word-IsByte

abbrev quoted : Bytes
quoted = b'"' ∷ b'\n' ∷ b'r' ∷ []

quoted-NoBackslash : All NoBackslash quoted
quoted-NoBackslash = (refl, (refl, (refl, tt)))

decode-encode_backslash_example :
    Json.decode (Json.encode (b'\\' ∷ b'r' ∷ quoted)) ≡ b'\\' ∷ b'\r' ∷ quoted
decode-encode_backslash_example = decode-encode_backslash quoted quoted-NoBackslash

token-encode_example :
    (token (b'"' ∷ (Json.encode quoted ++ b'"' ∷ word))
      ≡ (string (Json.decode (Json.encode quoted)), some word))
    × (All NoBackslash quoted
        → token (b'"' ∷ (Json.encode quoted ++ b'"' ∷ word)) ≡ (string quoted, some word))
token-encode_example = token-encode quoted word (omega arith, (omega arith, (omega arith, tt)))
