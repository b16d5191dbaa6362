-- ===== src/Lib.antt =====
-- TcpSvr: a TCP server for record commands, its socket routines, its configuration files, its log and
-- its Redis wrapper, and an entry server.
--
-- The program. `ctcpsvr/tcpsvr.cpp` runs a listener thread that accepts clients into a table of
-- 1000 slots and one thread per client, which polls the client's socket, hands what it reads to a
-- message handler and answers. All of its socket work goes through `ctcpsvr/netsock.cpp`. Its port
-- comes from a configuration file, which `ctcpsvr/cfgfile.cpp` keeps as an array of entries. Beside
-- it stands `ctcpsvr/redis_api.cpp`, a wrapper of the hiredis client that other servers use, and
-- `ctcpsvr/logfile.cpp`, which writes log files. `tcpsvr.cpp` is a second server, which tells a
-- client the address of the server that it is to use.
--
-- The model.
-- Base: numbers, integers, bytes, lists and tests that the other files share.
-- Os: the operating system's socket calls as an oracle, a function of all the calls made so far. A
--   routine takes the history of calls and returns its result with the longer history (`M`), so the
--   order of calls, and what each was passed, is part of every statement.
-- Vos: `ctcpsvr/vos.cpp`, over an oracle of the C library. Vos/Rounded: the size that osMalloc asks
--   for. Vos/Blocks: the blocks that osCreateThread and osJoinThread leave allocated.
-- Net/Send: NET_Send and its loop. Net/Send/Delivery: what it puts on the wire.
-- Net/Receive: NET_RcvPoll, NET_Rev, NET_PollAndRev, NET_SelectRev, NET_CheckTcpLink.
--   Net/Receive/Outcome: what they return, and which bytes.
-- Net/Setup: NET_OpenSock, NET_CloseSock, NET_OptSet, NET_PortBind, NET_Connect, NET_Ser_Bind,
--   NET_Ser_Accept, NET_ConnTcpSvr, NET_GetAddr. Net/Setup/Descriptors: which descriptors they leave open.
-- Svr/Request: C strings and strtok, and the reading of a text message by `_Msg_handler1`.
--   Svr/Request/Fields: the same reading defined on the message's fields. Svr/Request/Shared: the
--   calls of strtok with the static position that all threads share, one by one.
-- Svr/Handler1: `_Msg_handler1`. Svr/Handler1/Acks: its answers.
-- Svr/Handler2: `_Msg_handler2`, MSG_CMD_T and MSG_RES_T of `ctcpsvr/tcpsvr.h`.
--   Svr/Handler2/Replies: its answers, and the client's decoder.
-- Svr/Connection: `TcpConnection_thread`. Svr/Connection/Frames: which reads are handled.
--   Svr/Connection/Timeout: the idle count. Connection/Stream: the
--   answers over a whole run. Connection/Threads, with Threads/Own and Threads/Apart: the threads of
--   several connections, whose rounds follow each other in any order, none cut by another.
-- Svr/Listener: `TcpListen_thread`, `_TcpSvr_create`, `_TcpSvr_destroy`, `TcpSvr_close`; a run is a
--   list of rounds of the listener and of client threads that end. Svr/Listener/Slots: the shape of
--   the table. Svr/Listener/Balance and Svr/Listener/Open: the sockets in it against the open
--   descriptors. Svr/Listener/Closed: the table after TcpSvr_close.
-- Svr/Start: `TcpSvr_Init`, which reads the port through the configuration code, and the listener's
--   thread and `TcpSvr_close` as wholes. Svr/Start/Port: which port. Svr/Start/Life: the
--   sockets that they leave open. Between two tests of its state the listener waits in accept(2), where
--   clients' threads may end and TcpSvr_close may be called, each at one moment, and then makes a round.
-- Cfg/Entry: TCFGENTRY, TCFGDATA, cfg_storeentry. Cfg/Cursor: remove_quotes, cfg_rewind,
--   cfg_nextentry, cfg_find. Cfg/Cursor/Items: the items that the entries stand for; Items/Find:
--   cfg_find against a lookup of the items; Items/Anywhere: cfg_find with no section.
-- Cfg/Write: cfg_write. Cfg/Write/Readings, PutKey, Sections and ReadBack: how the entries it
--   changes read, up to its effect on the lookups. Cfg/Write/Delete and its child Sound: the
--   deletion of a key; Delete/Section and Delete/Emptied: of a section. Cfg/Write/Faults: where it leaves the array.
--   Cfg/Write/Kept: what it keeps of the entries, one by one.
-- Cfg/Text, Cfg/Parse: _cfg_skipwhite, rtrim, _cfg_getline and _cfg_parse. Parse/Lines: the lines
--   of an image and the end of the loop. Cfg/Output: _cfg_output and _cfg_outputformatted.
--   Output/Printable: the entries that a file can hold; Output/Printed: how their lines are read;
--   Output/RoundTrip and Output/Lost: what the parser makes of the printed text; Output/Padded and
--   Output/Formatted: of the formatted one.
-- Cfg/Disk: the file operations as an interface record, and what they promise of a file. Cfg/File:
--   cfg_init, cfg_refresh, cfg_freeimage, cfg_commit, cfg_copy. File/Api: Cfg_ReadStr,
--   Cfg_WriteStr, Cfg_ReadString, Cfg_RemoveKey, ini_setstr, ini_getstr, each of which opens the
--   file for one call. File/Loaded, File/Tidy, File/Session and File/Fits: what they read and write.
--   File/Run: several writes, one after the other. File/Contents: configurations that
--   cfg_getstring2 does not tell apart, as a quotient; list_sections and the printers may tell them
--   apart. File/Copy: reading a copy. Cfg/Utl: utl_fgets and utl_fputs.
--   Cfg/Number: the functions on numbers; Number/Decimal: printed numbers; Number/Session: numbers
--   written and read; Number/Pointer: cfg_getint and cfg_getint2, which store a long at a pointer to
--   an int. Cfg/Variadic: cfg_get_item and cfg_write_item; Variadic/ReadBack: one after the other.
-- Cfg/Listing: cfg_next_section, list_sections, list_entries. Listing/Buffer: texts in a buffer;
--   Listing/Titles and Listing/Filled: the sections listed. Cfg/Names: Cfg_GetSections and Cfg_GetKeys.
--   Names/Sections and Names/Keys: what they hand over.
-- Redis/Client: the connection state of `ctcpsvr/redis_api.cpp`, redis_Init, redis_Uninit, and the
--   way out of a request with no reply. Redis/Calls: the requests. Redis/Ready: what holds between
--   them. Redis/Session: sequences of calls; Session/Safe: the faults in them. Redis/Queue: the queue
--   calls with a server whose list is known; Queue/Step: one call; Queue/Order: their order;
--   Queue/Flush: the end of the flush. Redis/Context: `_connect` and what it calls, which nothing
--   else uses; Context/Kept: the contexts and replies left.
-- Echo: EchoSession::msgProc of the entry server, `tcpsvr.cpp`, which is a program of its own; the
--   JSON library is a parameter. Echo/Frames: the frames that it takes.
-- Log: `ctcpsvr/logfile.cpp`, over an interface of file operations, with the time as an argument.
--   Log/Size: the size of the file.
-- Tests: runs on concrete systems and inputs.
--
-- Numbers. gRedisQueueSize is an `int`, whose lowest value steps to the highest. Counts and bytes are
-- natural numbers; results that may be negative are integers. Wire numbers are kept modulo 2 ^ 32 or 2 ^ 16, ports modulo 2 ^ 16.
--
-- Fuel. NET_Send and NET_Rev run on as much fuel as bytes are wanted: each round that goes on moves
-- at least one byte. cfg_find runs on one round more than there are entries: each round but the
-- last passes an entry; cfg_next_section, list_sections and list_entries likewise. The loop of
-- _cfg_parse runs on as many rounds as the image has bytes: each takes a byte at least, unless it
-- is at a NUL. A printed number has at most as many digits as fuel. NET_RcvPoll and
-- redis_queue_flush may wait for ever; their models say so by `none`.
--
-- Faults. A null pointer passed to strcmp(3), a read or a write outside an array, or a mutex used
-- in the wrong state, is `none`; so is a name with no terminator that is read, in the Redis wrapper.
--
-- Not modelled: the lines that the servers log, signals, changes that another process makes to a
-- file while it is open, and the libraries that the repository holds copies of. malloc(3) is assumed
-- to succeed for the entries of a configuration and in the Redis wrapper; in the listener, and where a
-- file is opened and read, it may fail.
pub mod Base
pub mod Os
pub mod Vos
pub mod Net
pub mod Svr
pub mod Cfg
pub mod Redis
pub mod Echo
pub mod Log
pub mod Tests
