-- ===== src/Tests/Jar.antt =====
-- Cookies.
use cpp_sockets_library.Prelude.{◌≡◌, refl, true, false, List, [], ◌∷◌, Bytes, arith}
use cpp_sockets_library.Prelude.Text.{codes}
use cpp_sockets_library.Utility.Uri.{same}
use cpp_sockets_library.Cookies.{getvalue, replacevalue, getlength}
use cpp_sockets_library.Cookies.Values.{getvalue-replacevalue}

abbrev jar : List (Bytes × Bytes)
jar = (codes "b", codes "one") ∷ (codes "a", codes "two") ∷ []

a_is_a : same (codes "a") (codes "a") ≡ true
unfolding same
a_is_a = refl

a_apart : (x : Bytes) → same x (codes "a") ≡ true → same x (codes "b") ≡ false
unfolding same
a_apart [] h = refl
a_apart (c ∷ []) h = ground arith
a_apart (c ∷ d ∷ x) h = ground arith

getvalue-replacevalue_example :
    (getvalue same (codes "a") (replacevalue same (codes "a") (codes "new") jar)
      ≡ (true, codes "new"))
    × (getlength same (codes "a") (replacevalue same (codes "a") (codes "new") jar) ≡ 3)
    × (getvalue same (codes "b") (replacevalue same (codes "a") (codes "new") jar)
        ≡ getvalue same (codes "b") jar)
getvalue-replacevalue_example =
    getvalue-replacevalue same (codes "a") (codes "b") (codes "new") jar a_is_a a_apart
