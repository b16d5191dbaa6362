-- ===== src/Cfg.antt =====
-- ctcpsvr/cfgfile.cpp and cfgfile.h: configuration files kept as an array of entries. Memory is
-- assumed to be given whenever the entries need it; Cfg/Disk.antt has the calls that may fail.
pub mod Entry
pub mod Cursor
pub mod Write
pub mod Text
pub mod Parse
pub mod Output
pub mod Disk
pub mod Utl
pub mod File
pub mod Listing
pub mod Number
pub mod Names
pub mod Variadic
