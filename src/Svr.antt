-- ===== src/Svr.antt =====
-- ctcpsvr/tcpsvr.cpp and tcpsvr.h: the server of the record commands. Log lines are left out.
pub mod Request
pub mod Handler1
pub mod Handler2
pub mod Connection
pub mod Listener
pub mod Start
