-- ===== src/Net.antt =====
-- ctcpsvr/netsock.cpp: the socket routines, over the system calls of `Os`. Log lines (NetPrint) and
-- `signal(SIGPIPE, SIG_IGN)` are left out. A socket is an `int`; its value is kept as it is.
pub mod Send
pub mod Receive
pub mod Setup
