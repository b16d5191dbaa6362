-- ===== src/Tests/Server.antt =====
-- The server.
use tcp_svr.Base.{
  ℕ, ◌+◌, Bytes, List, [], ◌∷◌, ◌++◌, codes, length, replicate, pos, true, false, ltb, ◌≡◌, ◌≢◌,
  ◌⊎◌, refl, arith,
}
use tcp_svr.Os.{delivered}
use tcp_svr.Net.Receive.{net_poll_and_rev, poll_recv, hang_up, net_check_tcp_link}
use tcp_svr.Net.Setup.Descriptors.{held, count}
use tcp_svr.Svr.Request.{cstr, parse_request}
use tcp_svr.Svr.Request.Fields.{fields, meaning, parse_request-meaning}
use tcp_svr.Svr.Handler1.{msg_handler1}
use tcp_svr.Svr.Handler1.Acks.{accepted, acks, msg_handler1-acks}
use tcp_svr.Svr.Handler2.{
  MsgRes, encode_res, gmcode_of, reply_to, msg_handler2, be32, be32_at, start_record, stop_record,
  start_record_r, stop_record_r, unknown_msg,
}
use tcp_svr.Svr.Handler2.Replies.{decode_res, copies, msg_handler2-copies, reply_to-decoded}
use tcp_svr.Svr.Connection.{tick, conn_round, conn_loop}
use tcp_svr.Svr.Connection.Frames.{conn_round-frames}
use tcp_svr.Svr.Connection.Stream.{owed, conn_loop-owed}
use tcp_svr.Svr.Listener.Open.{OpenFrom, serve-open}
use tcp_svr.Svr.Request.Fields.{rest, join, starts}
use tcp_svr.Base.{ℤ, ◌≤◌, str_eq}
use tcp_svr.Svr.Listener.{max_tcp_client}
use tcp_svr.Svr.Request.Shared.{fresh, done, interleave, interleave-crossed}
use tcp_svr.Svr.Connection.Timeout.{IsIdle, SendsBroken, conn_loop-idle, conn_loop-broken}
use tcp_svr.Svr.Listener.{Event, round, ended, serve, initial}
use tcp_svr.Svr.Listener.Balance.{socks, serve-held}
use tcp_svr.Svr.Start.{
  Main, Turn, gone, closing, tcp_listen_thread, listen_loop, meanwhile, is_exit, tcp_svr_shut,
}
use tcp_svr.Net.Setup.{net_ser_bind}
use tcp_svr.Svr.Start.Life.{binds, tcp_listen_thread-held}
use tcp_svr.Svr.Listener.{init}
use tcp_svr.Tests.Systems.{talking, silent, asking, talking-SendBounded, frame}

parse_request-meaning_example :
    parse_request (codes ",,start,t1,,r1") ≡ meaning (fields (codes ",,start,t1,,r1"))
parse_request-meaning_example = parse_request-meaning (codes ",,start,t1,,r1")

abbrev two_frames : Bytes
two_frames = frame (codes "start,t1,r1") ++ frame (codes "hello,t1,r1")

msg_handler1-acks_example :
    delivered silent (msg_handler1 silent (pos 5) two_frames 200 []).1
    ≡ delivered silent [] ++ acks (accepted two_frames 2 0)
msg_handler1-acks_example = msg_handler1-acks silent (pos 5) two_frames 200 [] (λ h fd bs. refl)

-- A stop and then a start, both with a size of 30.
abbrev packet : ℕ → Bytes
packet action = be32 action ++ be32 30 ++ 0 ∷ 1 ∷ [] ++ codes "GMCODE-000000001" ++ replicate 4 0

abbrev two_packets : Bytes
two_packets = packet stop_record ++ packet start_record

abbrev response : MsgRes
response = record {
  cmd = start_record_r;
  size = 30;
  ver = 1;
  gmcode = codes "GMCODE-000000001";
  ret = 0;
}

reply_to-decoded_example :
    let r = decode_res (encode_res (reply_to two_packets 0)) in
    let named = ltb 0 (length (cstr (gmcode_of two_packets 16))) in
    let action = be32_at two_packets 0 in
    (r.gmcode ≡ gmcode_of two_packets 16)
    × (r.size ≡ length (encode_res (reply_to two_packets 0)))
    × (named ≡ true → action ≡ start_record → (r.cmd ≡ start_record_r) × (r.ret ≡ 0))
    × (named ≡ true → action ≡ stop_record → (r.cmd ≡ stop_record_r) × (r.ret ≡ 0))
    × ((named ≡ false) ⊎ ((action ≢ start_record) × (action ≢ stop_record))
        → (r.cmd ≡ unknown_msg) × (r.ret ≡ 0x1001))
reply_to-decoded_example = reply_to-decoded two_packets

-- The start is answered like the stop before it.
msg_handler2-copies_example :
    delivered silent (msg_handler2 silent (pos 5) two_packets 60 []).1
    ≡ delivered silent [] ++ copies 2 (encode_res (reply_to two_packets 0))
msg_handler2-copies_example = msg_handler2-copies silent (pos 5) two_packets 60 [] (λ h fd bs. refl)

-- Two messages in one read: neither is looked at.
conn_round-frames_example :
    let read = net_poll_and_rev (talking two_frames) (pos 5) 1024 (pos 1000) [] in
    let out = conn_round (talking two_frames) (pos 5) 0 [] in (out.0 ≡ tick 0) × (out.1 ≡ read.1)
unfolding net_poll_and_rev poll_recv hang_up
conn_round-frames_example =
    conn_round-frames (talking two_frames) (pos 5) 0 1 [] (talking-SendBounded two_frames) read_all
  where
    read_all : (net_poll_and_rev (talking two_frames) (pos 5) 1024 (pos 1000) []).0.0 ≡ pos 200
    read_all = refl

conn_loop-idle_example : (conn_loop silent (pos 5) (replicate 1000 false) 7 []).0 ≡ (7, true)
unfolding net_poll_and_rev net_check_tcp_link
conn_loop-idle_example = conn_loop-idle silent (pos 5) 1000 7 [] silent-IsIdle
  where
    silent-IsIdle : IsIdle silent (pos 5)
    silent-IsIdle = record { nothing = λ h. refl; linked = λ h. refl }

conn_loop-broken_example :
    (conn_loop (talking (codes "no packet")) (pos 5) (replicate 400 false) 0 []).0 ≡ (301, false)
unfolding net_poll_and_rev poll_recv hang_up
conn_loop-broken_example = conn_loop-broken (talking (codes "no packet")) (pos 5) 400 [] broken
  where
    broken : SendsBroken (talking (codes "no packet")) (pos 5)
    broken h = (9, refl, omega arith)

-- Two clients come, the first one's thread ends, and a round later its slot is swept.
abbrev day : List Event
day = round true true ∷ round true true ∷ ended 0 ∷ round true true ∷ []

serve-open_example :
    let out = serve (talking []) (pos 3) day initial [] in
    (length out.0 ≡ max_tcp_client)
    × OpenFrom (talking []) out.1 0 out.0
    × ((fd : ℤ) → count fd (socks out.0) ≤ count fd (held (talking []) out.1))
serve-open_example = serve-open (talking []) (pos 3) day []

serve-held_example :
    let out = serve (talking []) (pos 3) day initial [] in
    count (pos 5) (held (talking []) out.1)
    ≡ count (pos 5) (held (talking []) []) + count (pos 5) (socks out.0)
serve-held_example = serve-held (talking []) (pos 3) day [] (pos 5)

abbrev idle : Main
idle = record { port = pos 10017; state = init; has_thread = true; table = initial }

-- A client comes, another one while the server is closed, and the thread ends.
abbrev last_day : List Turn
last_day =
    record { asides = []; allocated = true; started = true }
    ∷ record { asides = gone 0 ∷ closing ∷ []; allocated = true; started = true }
    ∷ record { asides = []; allocated = true; started = true }
    ∷ []

tcp_listen_thread-held_example :
    let out = tcp_listen_thread (talking []) 10017 last_day (record idle { table = initial }) [] in
    (count (pos 5) (held (talking []) out.1)
      ≡ count (pos 5) (held (talking []) []) + count (pos 5) (socks out.0.table))
    × (length (socks out.0.table) ≤ 1)
unfolding binds tcp_listen_thread listen_loop meanwhile is_exit tcp_svr_shut net_ser_bind
tcp_listen_thread-held_example =
    tcp_listen_thread-held (talking []) [] 10017 last_day idle (pos 5) refl (λ good. refl) refl

-- The messages of two clients.
interleave-crossed_example :
    let calls = true ∷ false ∷ true ∷ true ∷ false ∷ false ∷ [] in
    let p = interleave calls (record {
      one = fresh (codes "start,t1,r1");
      other = fresh (codes "stop,t2,r2");
      position = [];
    }) in
    (p.one ≡ done (meaning (codes "start" ∷ codes "t2" ∷ codes "r2" ∷ [])))
    × (p.other ≡ done (meaning (codes "stop" ∷ rest (rest (codes "t2" ∷ codes "r2" ∷ [])))))
unfolding fields join starts str_eq
interleave-crossed_example =
    interleave-crossed (codes "start,t1,r1") (codes "stop,t2,r2") [] (codes "start") (codes "stop")
      (codes "t1" ∷ codes "r1" ∷ []) (codes "t2" ∷ codes "r2" ∷ []) refl refl refl refl

-- Two reads of three frames each.
abbrev three_frames : Bytes
three_frames =
    frame (codes "start,t1,r1") ++ frame (codes "hello,t1,r1") ++ frame (codes "stop,t1,r1")

conn_loop-owed_example :
    let h' = (conn_loop (asking three_frames) (pos 5) (false ∷ false ∷ true ∷ []) 0 []).1 in
    delivered (asking three_frames) h' ≡ owed (asking three_frames) h'
conn_loop-owed_example =
    conn_loop-owed (asking three_frames) (pos 5) (false ∷ false ∷ true ∷ []) (λ h fd bs. refl)
