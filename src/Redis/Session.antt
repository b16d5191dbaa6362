-- ===== src/Redis/Session.antt =====
-- Runs of the wrapper: sequences of its calls. redis_queue_flush, whose loop ends only if the server
-- lets it, is not among them.
pub mod Safe
use tcp_svr.Base.{ℕ, Bytes, List, [], ◌∷◌, Option, none, some, ℤ, pos, Bool, false, true}
use tcp_svr.Redis.Client.{Server, Conn, dead, redis_init, redis_uninit}
use tcp_svr.Redis.Calls.{
  redis_flushdb, redis_queue_rpush, redis_queue_lpop, redis_hset, redis_hget, redis_append,
  redis_setex, redis_get, redis_del, redis6_append, redis6_get, redis6_del,
}

pub data Op : Type 0 where
  init : Bytes → ℤ → Bytes → ℤ → Op
  uninit flush_db : Op
  push add add6 : Option Bytes → Option Bytes → Op
  pop : Option Bytes → Bool → Op
  set_field : Option Bytes → Option Bytes → Option Bytes → Op
  get_field : Option Bytes → Option Bytes → Bool → Op
  set_for : Option Bytes → Option Bytes → ℤ → Op
  read remove read6 remove6 : Option Bytes → Op

-- The connection after a call; its result is left out.
abbrev pub after {ℓ} : {A : Type ℓ} → Option (A × Conn) → Option Conn
after none = none
after (some (a, s)) = some s

pub perform : Server → Op → Conn → Option Conn
perform r (init host port pass db) s = after (redis_init r host port (some pass) db s)
perform r uninit s = after (redis_uninit s)
perform r flush_db s = after (redis_flushdb r s)
perform r (push key value) s = after (redis_queue_rpush r key value s)
perform r (add key value) s = after (redis_append r key value s)
perform r (add6 key value) s = after (redis6_append r key value s)
perform r (pop key has_value) s = after (redis_queue_lpop r key has_value s)
perform r (set_field key field value) s = after (redis_hset r key field value s)
perform r (get_field key field has_value) s = after (redis_hget r key field has_value s)
perform r (set_for key value exptime) s = after (redis_setex r key value exptime s)
perform r (read key) s = after (redis_get r key s)
perform r (remove key) s = after (redis_del r key s)
perform r (read6 key) s = after (redis6_get r key s)
perform r (remove6 key) s = after (redis6_del r key s)

pub perform_all : Server → List Op → Conn → Option Conn
perform_all r [] s = some s
perform_all r (op ∷ ops) s = elim (perform r op s) [ none ↦ none | some s' ↦ perform_all r ops s' ]

-- The static variables of the program, all zero.
abbrev pub start : Conn
start = record {
  connected = false;
  lock = dead;
  db = pos 0;
  queue_size = pos 0;
  saved_host = [];
  saved_port = pos 0;
  saved_pass = [];
  saved_db = pos 0;
  log = [];
}
