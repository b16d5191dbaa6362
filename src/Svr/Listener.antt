-- ===== src/Svr/Listener.antt =====
-- `TcpListen_thread` and the table gTcpIns of the clients' entities: `_TcpSvr_create`,
-- `_TcpSvr_destroy`, one round of the listener, and `TcpSvr_close`. A null pointer in the table is
-- `none`. malloc(3) and pthread_create(3) may fail: whether they do is an argument.
pub mod Slots
pub mod Balance
pub mod Closed
pub mod Open
use tcp_svr.Base.{
  ℕ, zero, suc, ◌+◌, Bytes, List, [], ◌∷◌, Option, none, some, set, ℤ, pos, neg, is_neg, Bool, true,
  false, ◌==◌, leb, replicate, if◌then◌else◌,
}
use tcp_svr.Os.{Os, M, pure, ◌>>=◌, ◌>>◌}
use tcp_svr.Net.Setup.{net_close_sock, net_ser_accept}

-- MAX_TCP_CLIENT
abbrev pub max_tcp_client : ℕ
max_tcp_client = 1000

-- THREAD_STATE_...
pub data ThreadState : Type 0 where
  init run exit pause : ThreadState

-- entity_ctrl_t, with the fields that the server sets. `ctrl_trd` says whether the thread's handle is
-- set; `DataTrd` is never set.
pub record Entity : Type 0 where
  pub idx : ℕ
  pub refs : ℕ
  pub state : ThreadState
  pub timeout : ℕ
  pub session_id : ℤ
  pub conn_tcp_sock : ℤ
  pub data_sock : ℤ
  pub ctrl_trd : Bool
  pub client : Bytes

abbrev pub Table : Type 0
Table = List (Option Entity)

pub tcp_svr_create : Bool → Bool → ℤ → Bytes → ℤ → ℕ → Option Entity
tcp_svr_create allocated started sock client data_sock idx =
    if allocated
    then some (record {
      idx = idx;
      refs = 1;
      state = run;
      timeout = 0;
      session_id = sock;
      conn_tcp_sock = sock;
      data_sock = data_sock;
      ctrl_trd = started;
      client = client;
    })
    else none

pub tcp_svr_destroy : Os → Entity → M ℤ
tcp_svr_destroy os e = do
  net_close_sock os e.conn_tcp_sock
  net_close_sock os e.data_sock
  pure (pos 0)

-- The first loop over the table: the index of the first free slot, or the table's length.
pub first_free : Table → ℕ
first_free [] = 0
first_free (none ∷ t) = 0
first_free (some e ∷ t) = suc (first_free t)

-- `gTcpIns[i].pTrdTcb = svr`, or the socket closed where there is no `svr`.
pub install : Os → ℤ → Table → ℕ → Option Entity → M Table
install os sock t i none = do net_close_sock os sock; pure t
install os sock t i (some e) = pure (set t i (some e))

-- The branch of a connection that was accepted. `dataSock` is -1.
pub admit : Os → Bool → Bool → ℤ → Bytes → Table → M Table
admit os allocated started sock client t =
    let i = first_free t in
    if leb max_tcp_client i
    then (net_close_sock os sock >> pure t)
    else install os sock t i (tcp_svr_create allocated started sock client (neg 1) i)

-- The handshake timer of an entity.
pub age : Entity → ℕ → Entity
age e zero = e
age e (suc n) = if n == 0 then record e { timeout = n; state = exit } else record e { timeout = n }

-- What becomes of a slot whose entity has aged.
pub reap : Os → Entity → ThreadState → M (Option Entity)
reap os e exit = do tcp_svr_destroy os e; pure none
reap os e init = pure (some e)
reap os e run = pure (some e)
reap os e pause = pure (some e)

-- The second loop over the table.
pub sweep : Os → Table → M Table
sweep os [] h = ([], h)
sweep os (none ∷ t) h = let (t', h') = sweep os t h in (none ∷ t', h')
sweep os (some e ∷ t) h =
    let e' = age e e.timeout in
    let (o, g) = reap os e' e'.state h in let (t', h') = sweep os t g in (o ∷ t', h')

-- The body of the listener's loop.
pub listen_round : Os → ℤ → Bool → Bool → Table → M Table
listen_round os listener allocated started t = do
  (sock, client) ← net_ser_accept os listener 5000
  (if is_neg sock then sweep os t else admit os allocated started sock client t)

-- `svr->state = THREAD_STATE_EXIT`, as the thread of slot `i` writes it when it ends.
pub end_thread : ℕ → Table → Table
end_thread i [] = []
end_thread zero (none ∷ t) = none ∷ t
end_thread zero (some e ∷ t) = some (record e { state = exit }) ∷ t
end_thread (suc i) (o ∷ t) = o ∷ end_thread i t

-- What happens to the table while the server runs: rounds of the listener, and threads that end.
pub data Event : Type 0 where
  round : Bool → Bool → Event
  ended : ℕ → Event

pub serve : Os → ℤ → List Event → Table → M Table
serve os listener [] t h = (t, h)
serve os listener (round allocated started ∷ es) t h =
    let (t', h') = listen_round os listener allocated started t h in serve os listener es t' h'
serve os listener (ended i ∷ es) t h = serve os listener es (end_thread i t) h

-- `memset(gTcpIns, 0, ..)` of TcpSvr_Init
abbrev pub initial : Table
initial = replicate max_tcp_client none

-- The loop of TcpSvr_close.
pub tcp_svr_close : Os → Table → M Table
tcp_svr_close os [] h = ([], h)
tcp_svr_close os (none ∷ t) h = let (t', h') = tcp_svr_close os t h in (none ∷ t', h')
tcp_svr_close os (some e ∷ t) h =
    let (_, g) = tcp_svr_destroy os e h in let (t', h') = tcp_svr_close os t g in (none ∷ t', h')
