-- ===== src/Lib.antt =====
-- Verification of the C++ sockets library: the parts of it that handle sockets and
-- move and translate bytes.
--
-- Parts of the program. A TcpSocket (src/TcpSocket.cpp) reads from the network into a ring
-- (CircularBuffer) and hands the bytes to OnRead(char *, size_t), which in line protocol cuts them
-- into lines for OnLine. It sends through SendBuf, which writes to the kernel at once or queues
-- blocks (OUTPUT) that SendFromOutputBuffer writes when the socket handler reports room. The
-- protocol classes above it use the codecs: Base64 (src/Base64.cpp), the text helpers of Utility
-- (src/Utility.cpp), the values of Json (src/Json.cpp), the word splitter Parse (src/Parse.cpp) and
-- the file in memory MemFile (src/MemFile.cpp). An AjpBaseSocket (src/AjpBaseSocket.cpp) cuts
-- what it reads into packets, an EventHandler (src/EventHandler.cpp) keeps the timed events of
-- sockets and other objects, a SmtpdSocket (src/SmtpdSocket.cpp) answers the lines of a mail
-- client, an HTTPSocket (src/HTTPSocket.cpp) takes HTTP messages apart, and HttpdCookies
-- (src/HttpdCookies.cpp) has the cookies of a request. A SocketHandler (src/SocketHandler.cpp) has the
-- sockets of a program: it takes in new ones, waits with select, calls the virtual functions of
-- those that are ready, and closes and deletes those that are done.
--
-- Files and what they model.
--   Prelude             shared names, Boolean tests, lists, byte arrays with faults (Mem)
--   Tcp/Ring            CircularBuffer: Ring is the object, and write, read, remove, get_length,
--                       get_start, get_l, space, byte_counter, read_string are its methods
--   Tcp/Output          Block is OUTPUT, Out the fields of the socket that sending uses; buffer,
--                       try_write, send_from_output_buffer and send_buf are Buffer, TryWrite,
--                       SendFromOutputBuffer and SendBuf, with one function for each round of
--                       their loops
--   Tcp/Client          Client is what a connecting socket keeps; on_write, on_connect_timeout and
--                       opened are OnWrite, OnConnectTimeout and the outcomes of Open; Reaches has
--                       the orders in which they come
--   Tcp/Lines           Reader is m_skip_c, m_c, m_line with m_line_ptr, and what was delivered;
--                       on_read is OnRead(char *, size_t) up to the part for socks4, which passes
--                       over a chunk of more than TCP_BUFSIZE_READ bytes
--   Base64              encode and decode in memory, encode of a file, decode into a raw buffer,
--                       decode_length
--   Utility/Numbers     bigint2string, atoi64, hex2unsigned
--   Utility/Url         rfc1738_encode, rfc1738_decode
--   Utility/Letters     ToLower, ToUpper, isipv4, ToUtf8, FromUtf8
--   Json                encode and decode of string values
--   Json/Token          Token, the scanner of Json::Parse
--   Json/Tree           Json, with parse and to_string for Parse and ToString; Json/Tree/Access has
--                       HasValue, operator[] and Add
--   Utility/Uri         Uri and Path (their constructors), in6_addr_compare
--   Utility/Ipv6        isipv6
--   Parse               Parse: the position in a text, getword, getline and the other calls
--   MemFile             fwrite, fread, fgets over a heap of blocks
--   Ajp                 AjpBaseSocket: on_raw_data is OnRawData with its loop, get_... and put_...
--                       are the values of a packet
--   Events              EventHandler: add_event, remove_event, clear_events, check_events and
--                       time_until_next are its methods; Call is what an OnEvent may call
--   Http                HTTPSocket: on_raw_data and on_line are OnRawData and OnLine, response_text is
--                       the text of SendResponse; an on_read in the log is the call of OnRead for
--                       the bytes behind a body, and `overflow` a copy of them that is too long
--   Cookies             HttpdCookies: add, getvalue, replacevalue, getlength, setcookie (its date is
--                       an argument, and expiredatetime is not modelled)
--   Smtp                SmtpdSocket: on_line is OnLine, new_address the constructor of EmailAddress,
--                       and the log of Act has what the socket called and sent
--   Handler             SocketHandler: Sock and Env are the fields of sockets and of the handler;
--                       set_fds, valid, delete_socket, incoming are Set, Valid, DeleteSocket and a
--                       round of AddIncoming; open_tcp and close are TcpSocket::Open, Socket::Close
--   Handler/Select      AddIncoming, the checks (CheckClose and the others) and Select, which gives no
--                       result where Open throws or a missing address is followed (`fault`)
--   Tests               the theorems at concrete inputs
-- The modules below these hold their proofs, and are named for what they prove.
--
-- Conventions. A char is its byte, 0 to 255; where the code depends on its sign, the sign is
-- written out. A memory access outside an array is `none`. 64-bit counters wrap; the sizes of
-- buffers and texts are taken to be below 2^31, where the code casts them to int. The kernel is a
-- parameter (Kernel): send() answers a count that is at most the length given, EWOULDBLOCK or an
-- error number.
--
-- Bounds and fuel. The loop of Buffer has 2 * len + 2 rounds, since a round copies a byte or opens
-- a block that has room; buffer-append shows that it ends. The decoder has a round for each
-- character and one more, and decode-encode shows that these are enough for encoded texts. Printing
-- a number has 21 rounds, enough for 20 digits. fwrite and fread have a round for each byte and one
-- more; isipv6 has a round for each char and two more, which isipv6_ends shows to be enough;
-- padding in getword has a round for each byte asked for, which is enough where `fill` is not
-- empty; fgets has a round for each byte asked for and two more. OnRawData of AJP13 has
-- two rounds for each byte and three more, which reads-stream shows to be enough for
-- packets that fit; ClearEvents and CheckEvents have a round for each event and one
-- more, which calls_all-IsValid and check_events-Served show to be enough. The loop over chunks
-- has a round for each byte and one more, which on_raw_data-chunks shows to be enough for a whole body.
-- Json::Parse has a round for each call of it and of its loops, which parse-to_string counts.
-- AddIncoming has a round for each waiting socket and one more, which add_incoming-Ends shows to be enough.
--
-- Not modelled: the SSL branches of reading and writing, and socks4; epoll, what the system calls
-- do, threads, files and logging; callbacks that a subclass overrides, which are parameters of Select
-- and of the line protocol; and the other HTTP classes, the resolver and XML classes.
pub mod Prelude
pub mod Tcp
pub mod Base64
pub mod Http
pub mod Cookies
pub mod Smtp
pub mod Utility
pub mod Json
pub mod Parse
pub mod MemFile
pub mod Ajp
pub mod Events
pub mod Handler
mod Tests
