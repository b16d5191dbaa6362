-- ===== src/Svr/Start.antt =====
-- `TcpSvr_Init`, `TcpListen_thread` and `TcpSvr_close` as wholes: the server's port is read from its
-- configuration file, the listener runs, and the server is closed.
pub mod Port
pub mod Life
use tcp_svr.Base.{
  codes, ℕ, List, [], ◌∷◌, is_neg, Bytes, Option, none, some, ℤ, pos, neg, is_zero, Bool, true,
  false, if◌then◌else◌,
}
use tcp_svr.Cfg.Disk.{Disk}
use tcp_svr.Cfg.Number.{cfg_read_int}
use tcp_svr.Svr.Listener.{
  ThreadState, init, run, exit, pause, Table, initial, end_thread, listen_round, tcp_svr_close,
}
use tcp_svr.Os.{Os, M, pure, ◌>>=◌, ◌>>◌}
use tcp_svr.Net.Setup.{net_ser_bind, net_close_sock}

-- gTcpMainTrd and gTcpIns; `has_thread` is whether `pTrd` is set.
pub record Main : Type 0 where
  pub port : ℤ
  pub state : ThreadState
  pub has_thread : Bool
  pub table : Table

-- `osCreateThread` and what follows; `created` is whether it gives a thread.
pub start_listener : Bool → Main → ℤ × Main
start_listener true m = (pos 1, record m { state = run; has_thread = true; table = initial })
start_listener false m = (neg 2, record m { has_thread = false; table = initial })

pub start_read : Bool → Main → ℤ × ℤ → ℤ × Main
start_read created m (ret, port) =
    if is_zero ret
    then start_listener created (record m { port = port })
    else (ret, record m { port = port })

module _ (d : Disk) where
  pub start_with : Bool → Main → Option ((ℤ × ℤ) × d.State) → Option ((ℤ × Main) × d.State)
  start_with created m none = none
  start_with created m (some (x, st)) = some (start_read created m x, st)

  pub tcp_svr_init : Bool → d.State → Option Bytes → Main → Option ((ℤ × Main) × d.State)
  tcp_svr_init created st f m =
      start_with created m
        (cfg_read_int d st f (some (codes "tcp")) (some (codes "port")) m.port (pos 10017))

-- `TcpSvr_close`
unfoldable pub tcp_svr_shut : Os → Main → M (ℤ × Main)
tcp_svr_shut os m = do
  t ← tcp_svr_close os m.table
  pure (
    pos 0,
    record m { table = t; state = if m.has_thread then exit else m.state; has_thread = false },
  )

-- What other threads do while the listener waits in accept(2): a client's thread ends, or TcpSvr_close is called.
pub data Aside : Type 0 where
  gone : ℕ → Aside
  closing : Aside

unfoldable pub meanwhile : Os → List Aside → Main → M Main
meanwhile os [] m = pure m
meanwhile os (gone i ∷ others) m = meanwhile os others (record m { table = end_thread i m.table })
meanwhile os (closing ∷ others) m = do out ← tcp_svr_shut os m; meanwhile os others out.1

-- A turn of the listener's loop: what happens before its accept(2) returns, and whether an entity for a client is allocated and its
-- thread started.
pub record Turn : Type 0 where
  pub asides : List Aside
  pub allocated : Bool
  pub started : Bool

unfoldable pub is_exit : ThreadState → Bool
is_exit exit = true
is_exit init = false
is_exit run = false
is_exit pause = false

-- The loop, which looks at the state before each turn, over as many turns as are given.
unfoldable pub listen_loop : Os → ℤ → List Turn → Main → M Main
listen_loop os sock [] m = pure m
listen_loop os sock (turn ∷ turns) m = if is_exit m.state then pure m else do
  m' ← meanwhile os turn.asides m
  t ← listen_round os sock turn.allocated turn.started m'.table
  listen_loop os sock turns (record m' { table = t })

-- `TcpListen_thread`; where the state is not EXIT behind the turns given, it has not ended.
unfoldable pub tcp_listen_thread : Os → ℕ → List Turn → Main → M Main
tcp_listen_thread os port turns m = do
  sock ← net_ser_bind os port 800
  (if is_neg sock then pure m else do
    m' ← listen_loop os sock turns m
    (if is_exit m'.state then (do net_close_sock os sock; pure m') else pure m'))
