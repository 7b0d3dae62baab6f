-- ===== src/Tcp.antt =====
-- src/TcpSocket.cpp: the input ring, the output queue and the line protocol of a TCP socket.
pub mod Client
pub mod Ring
pub mod Output
pub mod Lines
