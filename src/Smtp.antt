-- ===== src/Smtp.antt =====
-- src/SmtpdSocket.cpp with src/SmtpdSocket.h: an SMTP server on lines.
pub mod Allowed
pub mod Commands
pub mod Message
use cpp_sockets_library.Prelude.{
  Bool, true, false, ◌||◌, none, some, List, [], ◌∷◌, ◌++◌, ltb, ◌==◌, if◌then◌else◌, length, Bytes,
  not,
}
use cpp_sockets_library.Prelude.Text.{codes}
use cpp_sockets_library.Parse.{new_parse, getword, getrest}
use cpp_sockets_library.Utility.Letters.{to_lower, to_upper}
use cpp_sockets_library.Utility.Uri.{cut, same}

pub record EmailAddress : Type 0 where
  pub name : Bytes
  pub domain : Bytes
  pub top : Bytes
  pub sub : Bytes

-- The two loops that take spaces off the end of a text.
pub trim_end : Bytes → Bytes
trim_end [] = []
trim_end (c ∷ s) =
    let rest = trim_end s in if c == 32 then elim rest [ [] ↦ [] | x ∷ t ↦ c ∷ x ∷ t ] else c ∷ rest

-- The two loops that take spaces off its start.
pub trim_start : Bytes → Bytes
trim_start [] = []
trim_start (c ∷ s) = let rest = trim_start s in if c == 32 then rest else c ∷ s

-- The loop for m_top and m_sub.
pub dots : Bytes → Bytes → Bytes → Bytes × Bytes
dots [] top sub = (top, sub)
dots (c ∷ s) top sub = if c == b'.' then dots s s top else dots s top sub

pub address_of : Bytes → Bytes → EmailAddress
address_of name domain =
    let d = trim_start (trim_end domain) in
    let levels = dots d d [] in
    record { name = trim_start (trim_end name); domain = d; top = levels.0; sub = levels.1 }

pub new_address : Bytes → EmailAddress
new_address text =
    let str : Bytes = elim (cut b'<' text) [ none ↦ text | some r ↦ r.1 ] in
    elim (cut b'@' str) [
      | none ↦ address_of [] []
      | some r ↦ address_of r.0 (elim (cut b'>' r.1) [ none ↦ r.1 | some e ↦ e.0 ])
    ]

pub to_string : EmailAddress → Bytes
to_string a = a.name ++ b'@' ∷ a.domain

pub data Reason : Type 0 where
  no_hello name_too_long domain_too_long quit : Reason

-- What the socket does: the calls of its virtual functions, and Send.
pub data Act : Type 0 where
  on_hello : Bytes → Act
  on_mail_from on_rcpt_to : EmailAddress → Act
  on_header : Bytes → Bytes → Act
  on_header_complete on_data_complete on_rset : Act
  on_data : Bytes → Act
  on_abort : Reason → Act
  on_not_supported : Bytes → Bytes → Act
  sends : Bytes → Act

-- `log` is what the socket did, the newest first.
pub record SmtpdSocket : Type 0 where
  pub hello : Bool
  pub data_mode : Bool
  pub header : Bool
  pub header_line : Bytes
  pub closing : Bool
  pub log : List Act

pub new_smtpd : SmtpdSocket
new_smtpd = record {
  hello = false;
  data_mode = false;
  header = false;
  header_line = [];
  closing = false;
  log = [];
}

abbrev pub act : Act → SmtpdSocket → SmtpdSocket
act a s = record s { log = a ∷ s.log }

abbrev pub reply : Bytes → SmtpdSocket → SmtpdSocket
reply text s = act (sends (text ++ 13 ∷ 10 ∷ [])) s

-- OnHeader for the header line, if there is one.
pub flush_header : SmtpdSocket → SmtpdSocket
flush_header s =
    let pa = getword (new_parse s.header_line (b':' ∷ []) false) in
    elim s.header_line [ [] ↦ s | c ∷ t ↦ act (on_header pa.ord (getrest pa).1) s ]

-- A line where `m_header` is set.
pub header_step : Bytes → SmtpdSocket → SmtpdSocket
header_step [] s = act on_header_complete (record (flush_header s) { header = false })
header_step (c ∷ t) s =
    if c == b' ' || c == 9
    then record s { header_line = s.header_line ++ (c ∷ t) }
    else record (flush_header s) { header_line = c ∷ t }

-- The part of a line of the message that OnData gets.
pub unstuffed : Bytes → Bytes
unstuffed [] = []
unstuffed (c ∷ t) = if c == b'.' then t else c ∷ t

-- `answers` is what the virtual functions answer to the last of the calls, after the others.
module _ (answers : List Act → Bool) where
  -- OnLine where `m_data` is set.
  pub data_line : Bytes → SmtpdSocket → SmtpdSocket
  data_line line s =
      if s.header
      then header_step line s
      else if same line (b'.' ∷ [])
      then (let s1 = act on_data_complete (record s { data_mode = false }) in
          if answers s1.log then reply (codes "250 OK") s1 else reply (codes "550 Failed") s1)
      else act (on_data (unstuffed line)) s

  pub hello_command : Bytes → SmtpdSocket → SmtpdSocket
  hello_command arg s =
      let s1 = act (on_hello arg) s in
      if answers s1.log
      then reply (codes "250 mail.alhem.net") (record s1 { hello = true })
      else reply (codes "550 Failed") s1

  -- MAIL and RCPT, which differ in the virtual function and in the answer where it fails.
  pub address_command : (EmailAddress → Act) → Bytes → Bytes → SmtpdSocket → SmtpdSocket
  address_command f failed line s =
      let addr =
        new_address (to_lower (getrest (getword (getword (new_parse line (b':' ∷ []) false)))).1) in
      if ltb 64 (length addr.name)
      then reply (codes "500 Name too long.") (act (on_abort name_too_long) s)
      else if ltb 64 (length addr.domain)
      then reply (codes "500 Domain too long.") (act (on_abort domain_too_long) s)
      else (let s1 = act (f addr) s in
          if answers s1.log then reply (codes "250 OK") s1 else reply failed s1)

  pub command : Bytes → Bytes → Bytes → SmtpdSocket → SmtpdSocket
  command cmd arg line s =
      if same cmd (codes "EHLO")
      then hello_command arg s
      else if same cmd (codes "HELO")
      then hello_command arg s
      else if not s.hello
      then record (act (on_abort no_hello) s) { closing = true }
      else if same cmd (codes "MAIL")
      then address_command on_mail_from (codes "550 Failed") line s
      else if same cmd (codes "RCPT")
      then address_command on_rcpt_to (codes "553 Failed") line s
      else if same cmd (codes "DATA")
      then record (reply (codes "354 Enter mail, end with \".\" on a line by itself") s) {
        data_mode = true;
        header = false;
      }
      else if same cmd (codes "RSET")
      then reply (codes "250 OK") (act on_rset (record s { data_mode = false; header = false }))
      else if same cmd (codes "QUIT")
      then record (reply (codes "221 Bye Bye") (act (on_abort quit) s)) { closing = true }
      else if same cmd (codes "NOOP")
      then reply (codes "250 OK") s
      else act (on_not_supported cmd arg) s

  pub on_line : Bytes → SmtpdSocket → SmtpdSocket
  on_line line s =
      let pa = getword (new_parse line [] false) in
      if s.data_mode then data_line line s else command (to_upper pa.ord) (getrest pa).1 line s

  pub on_lines : List Bytes → SmtpdSocket → SmtpdSocket
  on_lines [] s = s
  on_lines (l ∷ ls) s = on_lines ls (on_line l s)
