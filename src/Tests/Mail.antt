-- ===== src/Tests/Mail.antt =====
-- SMTP sessions.
use cpp_sockets_library.Prelude.{◌≡◌, Bool, false, true, List, [], ◌∷◌, ◌++◌, if◌then◌else◌, Bytes}
use cpp_sockets_library.Prelude.Text.{codes}
use cpp_sockets_library.Smtp.{Act, on_data_complete, new_smtpd, reply, on_lines}
use cpp_sockets_library.Smtp.Allowed.{IsAllowed}
use cpp_sockets_library.Smtp.Commands.{on_lines-IsAllowed}
use cpp_sockets_library.Smtp.Message.{stuffed_all, heard, in_message, on_lines-stuffed}

abbrev agreed : List Act → Bool
agreed calls = true

abbrev session : List Bytes
session =
    codes "MAIL FROM:<a@b>"
    ∷ codes "helo there"
    ∷ codes "MAIL FROM:<a@b.example>"
    ∷ codes "DATA"
    ∷ codes "Subject: x"
    ∷ codes "."
    ∷ []

on_lines-IsAllowed_example : IsAllowed agreed (on_lines agreed session new_smtpd).log
on_lines-IsAllowed_example = on_lines-IsAllowed agreed session

abbrev text : List Bytes
text = codes "one" ∷ codes ".two" ∷ [] ∷ codes "." ∷ []

on_lines-stuffed_example :
    let done = record (in_message true [] false (on_data_complete ∷ heard text [])) {
      data_mode = false;
    } in
    on_lines agreed (stuffed_all text ++ (b'.' ∷ []) ∷ []) (in_message true [] false [])
    ≡ (if agreed done.log then reply (codes "250 OK") done else reply (codes "550 Failed") done)
on_lines-stuffed_example = on_lines-stuffed agreed true [] false text []
