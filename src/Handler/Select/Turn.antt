-- ===== src/Handler/Select/Turn.antt =====
-- Select of src/SocketHandler.cpp: one turn of it.
use cpp_sockets_library.Handler.Select.Erase.{}
use cpp_sockets_library.Handler.Select.Sound.{Sound}
use cpp_sockets_library.Handler.Select.Within.{Within}
