-- ===== src/Redis/Calls.antt =====
-- The requests of redis_api.cpp. A pointer argument that the code tests for null is an option; what a
-- request stores at `value`, or returns as a string, is an option too.
use tcp_svr.Base.{
  ◌^◌, ◌-◌, ℕ, zero, suc, Bytes, codes, ◌∷◌, ◌++◌, Option, none, some, length, ℤ, pos, negsuc, neg,
  is_neg, to_ℕ, Bool, true, false, not, ◌&&◌, leb, if◌then◌else◌, ◌==◌,
}
use tcp_svr.Redis.Client.{
  Cmd, flushdb, lpop, get, del, select, rpush, hget, append, hset, setex, error, integer, other,
  Reply, Server, Conn, M, pure, ◌>>=◌, ◌>>◌, mutex_lock, mutex_unlock, ask, reconnect, to_int,
}

-- The reply to a request that counts.
unfoldable pub int_reply : Reply → ℤ
int_reply a = elim a.sort [ error ↦ neg 3 | integer ↦ to_int a.number | other ↦ neg 4 ]

-- The reply to a request for a string: the result, and the string that is stored.
unfoldable pub str_reply : Reply → ℤ × Option Bytes
str_reply a = elim a.sort [ error ↦ (neg 3, none) | integer ↦ text a.str | other ↦ text a.str ]
  where
    text : Option Bytes → ℤ × Option Bytes
    text none = (neg 4, none)
    text (some v) = (pos 1, some v)

-- redis_get returns a copy of the string; malloc(3) is assumed to succeed.
unfoldable pub get_reply : Reply → Option Bytes
get_reply a = (str_reply a).1

pub setex_reply : Reply → ℤ
setex_reply a = elim a.sort [ error ↦ neg 3 | integer ↦ pos 1 | other ↦ pos 1 ]

pub del_reply : Reply → ℤ
del_reply a = elim a.sort [ error ↦ neg 3 | integer ↦ to_int a.number | other ↦ to_int a.number ]

-- From the request on, the lock being held: `lost` is the result when there is no reply, `change` what
-- becomes of gRedisQueueSize.
unfoldable pub exchange : {A : Type 0} → Server → Cmd → (ℤ → ℤ) → (Reply → A) → A → M A
exchange r c change f lost s =
    let s' : Conn = record s { log = c ∷ s.log } in
    elim (r.replies s.log c) [
      | none ↦ (reconnect r >> pure lost) s'
      | some a ↦ (mutex_unlock >> pure (f a)) (record s' { queue_size = change s'.queue_size })
    ]

abbrev same : ℤ → ℤ
same n = n

-- A request of a connection that is there.
unfoldable pub request : {A : Type 0} → Server → Cmd → (Reply → A) → A → A → M A
request r c f lost absent s =
    if s.connected then (mutex_lock >> exchange r c same f lost) s else pure absent s

unfoldable pub redis_flushdb : Server → M ℤ
redis_flushdb r s =
    if s.connected
    then (mutex_lock >> ask r flushdb >> mutex_unlock >> pure (pos 0)) s
    else pure (pos 0) s

unfoldable pub plus_one : ℤ → ℤ
plus_one (pos n) = pos (suc n)
plus_one (negsuc zero) = pos 0
plus_one (negsuc (suc n)) = negsuc n

-- The count is an `int`; the step below the lowest wraps around.
unfoldable pub minus_one : ℤ → ℤ
minus_one (pos zero) = negsuc 0
minus_one (pos (suc n)) = pos n
minus_one (negsuc n) = if n == 2 ^ 31 - 1 then pos n else negsuc (suc n)

abbrev pub max_queue_size : ℕ
max_queue_size = 2000

unfoldable pub is_full : ℤ → Bool
is_full n = not (is_neg n) && leb max_queue_size (to_ℕ n)

unfoldable pub redis_queue_rpush : Server → Option Bytes → Option Bytes → M ℤ
redis_queue_rpush r (some key) (some value) s =
    if not s.connected
    then pure (neg 1) s
    else if is_full s.queue_size
    then (mutex_lock >> mutex_unlock >> pure (neg 11)) s
    else (mutex_lock >> exchange r (rpush key value) plus_one int_reply (neg 2)) s
redis_queue_rpush r key value s = pure (neg 1) s

-- `has_value` is false for a null pointer.
unfoldable pub redis_queue_lpop : Server → Option Bytes → Bool → M (ℤ × Option Bytes)
redis_queue_lpop r (some key) true s =
    if not s.connected
    then pure (neg 1, none) s
    else (mutex_lock >> exchange r (lpop key) minus_one str_reply (neg 2, none)) s
redis_queue_lpop r key has_value s = pure (neg 1, none) s

-- Whether the loop of redis_queue_flush goes on.
unfoldable pub goes_on : Option Reply → Bool
goes_on none = false
goes_on (some a) = elim (get_reply a) [ none ↦ false | some v ↦ true ]

-- The loop, on fuel: whether it ended, and the connection after it.
unfoldable pub flush_loop : Server → Bytes → ℕ → Conn → Bool × Conn
flush_loop r key zero s = (false, s)
flush_loop r key (suc fuel) s =
    let later = flush_loop r key fuel (record s { log = lpop key ∷ s.log }) in
    if goes_on (r.replies s.log (lpop key))
    then later
    else (true, record s { log = lpop key ∷ s.log })

-- The result is `none` when the fuel ran out.
unfoldable pub redis_queue_flush : Server → Bytes → ℕ → M (Option ℤ)
redis_queue_flush r key fuel s =
    if s.connected then (mutex_lock >> flush) s else pure (some (neg 1)) s
  where
    flush : M (Option ℤ)
    flush s =
        let (ended, s') = flush_loop r key fuel s in
        if ended
        then (mutex_unlock >> pure (some (pos 0))) (record s' { queue_size = pos 0 })
        else some (none, s')

unfoldable pub redis_hset : Server → Option Bytes → Option Bytes → Option Bytes → M ℤ
redis_hset r (some key) (some field) (some value) =
    request r (hset key field value) int_reply (neg 2) (neg 1)
redis_hset r key field value = pure (neg 1)

unfoldable pub redis_hget : Server → Option Bytes → Option Bytes → Bool → M (ℤ × Option Bytes)
redis_hget r (some key) (some field) true =
    request r (hget key field) str_reply (neg 2, none) (neg 1, none)
redis_hget r key field has_value = pure (neg 1, none)

-- The format puts a ',' behind the value.
unfoldable pub redis_append : Server → Option Bytes → Option Bytes → M ℤ
redis_append r (some key) (some value) =
    request r (append key (value ++ codes ",")) int_reply (neg 2) (neg 1)
redis_append r key value = pure (neg 1)

unfoldable pub redis_setex : Server → Option Bytes → Option Bytes → ℤ → M ℤ
redis_setex r (some key) (some value) exptime =
    request r (setex key exptime value) setex_reply (neg 2) (neg 1)
redis_setex r key value exptime = pure (neg 1)

unfoldable pub redis_get : Server → Option Bytes → M (Option Bytes)
redis_get r (some key) = request r (get key) get_reply none none
redis_get r none = pure none

unfoldable pub redis_del : Server → Option Bytes → M ℤ
redis_del r (some key) = request r (del key) del_reply (neg 2) (neg 1)
redis_del r none = pure (neg 1)

-- REDIS_DVR_DB
abbrev pub redis_dvr_db : ℤ
redis_dvr_db = pos 6

-- A request in database 6, and back: `unselected` is the result when database 6 cannot be selected,
-- `lost` when the request gets no reply.
unfoldable pub request6 : {A : Type 0} → Server → Cmd → (Reply → A) → A → A → A → M A
request6 {A = A} r c f lost unselected absent s =
    if s.connected
    then (mutex_lock >> (ask r (select redis_dvr_db) >>= selected)) s
    else pure absent s
  where
    result : Option Reply → A
    result none = lost
    result (some a) = f a

    selected : Option Reply → M A
    selected none = reconnect r >> pure unselected
    selected (some _) = do
      a ← ask r c
      s ← λ s. some (s, s)
      ask r (select s.db)
      mutex_unlock
      pure (result a)

unfoldable pub redis6_append : Server → Option Bytes → Option Bytes → M ℤ
redis6_append r (some key) (some value) =
    if length key == 0
    then pure (neg 1)
    else request6 r (append key (value ++ codes ",")) int_reply (neg 5) (pos 0) (neg 1)
redis6_append r key value = pure (neg 1)

unfoldable pub redis6_get : Server → Option Bytes → M (Option Bytes)
redis6_get r (some key) = request6 r (get key) get_reply none none none
redis6_get r none = pure none

unfoldable pub redis6_del : Server → Option Bytes → M ℤ
redis6_del r (some key) = request6 r (del key) del_reply (neg 2) (neg 2) (neg 1)
redis6_del r none = pure (neg 1)
