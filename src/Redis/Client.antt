-- ===== src/Redis/Client.antt =====
-- gRedisConn and its companions, redis_Uninit, redis_Init, and what every request does. The hiredis
-- library is a parameter: what it answers by all that it has been asked before.
use tcp_svr.Base.{
  ◌-◌, ◌%◌, ◌^◌, Bytes, List, ◌∷◌, Option, none, some, length, take, ℤ, pos, negsuc, neg, Bool,
  true, false, ltb, not, ◌&&◌, ◌||◌, if◌then◌else◌,
}

pub data Cmd : Type 0 where
  connect : Bytes → ℤ → Cmd
  free flushdb : Cmd
  auth lpop get del : Bytes → Cmd
  select : ℤ → Cmd
  rpush hget append : Bytes → Bytes → Cmd
  hset : Bytes → Bytes → Bytes → Cmd
  setex : Bytes → ℤ → Bytes → Cmd

-- REDIS_REPLY_ERROR, REDIS_REPLY_INTEGER, or another type
pub data Sort : Type 0 where
  error integer other : Sort

pub record Reply : Type 0 where
  pub sort : Sort
  pub number : ℤ
  pub str : Option Bytes

-- redisConnectWithTimeout: a null pointer, a context with an error, or one without.
pub data Context : Type 0 where
  null failed good : Context

-- What was asked so far, the latest first.
abbrev pub Log : Type 0
Log = List Cmd

pub record Server : Type 0 where
  pub connects : Log → Bytes → ℤ → Context
  -- redisCommand; `none` is a null pointer.
  pub replies : Log → Cmd → Option Reply

-- ThrdLock, before pthread_mutex_init and after pthread_mutex_destroy, and in use.
pub data Mutex : Type 0 where
  dead unlocked locked : Mutex

-- `connected` says whether gRedisConn.hdl is set.
pub record Conn : Type 0 where
  pub connected : Bool
  pub lock : Mutex
  pub db : ℤ
  pub queue_size : ℤ
  pub saved_host : Bytes
  pub saved_port : ℤ
  pub saved_pass : Bytes
  pub saved_db : ℤ
  pub log : Log

-- `none` is a fault: a mutex in the wrong state, or a null pointer read.
abbrev pub M : Type 0 → Type 0
M A = Conn → Option (A × Conn)

abbrev pub pure : {A : Type 0} → A → M A
pure a s = some (a, s)

infixl 5 ◌>>=◌ ◌>>◌
abbrev pub ◌>>=◌ : {A B : Type 0} → M A → (A → M B) → M B
◌>>=◌ m f s = elim (m s) [ none ↦ none | some (a, s') ↦ f a s' ]

abbrev pub ◌>>◌ : {A B : Type 0} → M A → M B → M B
◌>>◌ m k s = elim (m s) [ none ↦ none | some (a, s') ↦ k s' ]

abbrev pub mutex_lock : M (Unit {0})
mutex_lock s = elim s.lock [
  | unlocked ↦ some (tt, record s { lock = locked })
  | dead ↦ none
  | locked ↦ none
]

abbrev pub mutex_unlock : M (Unit {0})
mutex_unlock s = elim s.lock [
  | locked ↦ some (tt, record s { lock = unlocked })
  | dead ↦ none
  | unlocked ↦ none
]

abbrev pub ask : Server → Cmd → M (Option Reply)
ask r c s = some (r.replies s.log c, record s { log = c ∷ s.log })

-- Of a mutex in use, nobody may hold it.
unfoldable pub redis_uninit : M ℤ
redis_uninit s =
    if s.connected
    then elim s.lock [
      | unlocked ↦ some (pos 0, record s { connected = false; lock = dead; log = free ∷ s.log })
      | dead ↦ none
      | locked ↦ none
    ]
    else some (pos 0, s)

-- `strncpy` into the 128 bytes of gredisHost and gredisPass; there is no terminator behind 128.
abbrev pub saved : Bytes → Bytes
saved = take 128

unfoldable pub terminated : Bytes → Bool
terminated name = ltb (length name) 128

-- `redisFree` on the way out of a connection that failed.
unfoldable pub give_up : ℤ → M ℤ
give_up ret s = some (ret, record s { log = free ∷ s.log })

-- From the `select` on. The password is copied whether or not there is one: the test is on the array
-- gredisPass, which is never null.
unfoldable pub init_select : Bytes → ℤ → Option Bytes → ℤ → M ℤ
init_select host port none db s = none
init_select host port (some pass) db s = elim s.lock [
  | dead ↦ some (
    pos 0,
    record s {
      connected = true;
      lock = unlocked;
      db = db;
      saved_host = saved host;
      saved_port = port;
      saved_pass = saved pass;
      saved_db = db;
      log = flushdb ∷ select db ∷ s.log;
    },
  )
  | unlocked ↦ none
  | locked ↦ none
]

pub wants_auth : Option Bytes → Option Bytes
wants_auth none = none
wants_auth (some pass) = if ltb 1 (length pass) then some pass else none

-- The error of AUTH, if there is one.
pub auth_error : Option Reply → Option ℤ
auth_error none = some (neg 4)
auth_error (some a) = elim a.sort [ error ↦ some (neg 5) | integer ↦ none | other ↦ none ]

unfoldable pub init_auth : Server → Bytes → ℤ → Option Bytes → ℤ → M ℤ
init_auth r host port pass db s = elim (wants_auth pass) [
  | none ↦ init_select host port pass db s
  | some word ↦
      let s' : Conn = record s { log = auth word ∷ s.log } in
      elim (auth_error (r.replies s.log (auth word))) [
        | none ↦ init_select host port pass db s'
        | some e ↦ give_up e s'
      ]
]

-- The body of the `do .. while (0)`, and what follows it.
unfoldable pub init_new : Server → Bytes → ℤ → Option Bytes → ℤ → M ℤ
init_new r host port pass db s =
    let s' : Conn = record s { log = connect host port ∷ s.log } in
    elim (r.connects s.log host port) [
      | null ↦ some (neg 2, s')
      | failed ↦ give_up (neg 3) s'
      | good ↦ init_auth r host port pass db s'
    ]

unfoldable pub redis_init : Server → Bytes → ℤ → Option Bytes → ℤ → M ℤ
redis_init r host port pass db s =
    if s.connected then some (pos 0, s) else init_new r host port pass db s

abbrev is_good : Context → Bool
is_good null = false
is_good failed = false
is_good good = true

-- Whether the names that redis_Init reads are terminated: the host, and the password behind a connection.
unfoldable pub can_read : Server → Conn → Bool
can_read r s =
    terminated s.saved_host
    && (terminated s.saved_pass || not (is_good (r.connects s.log s.saved_host s.saved_port)))

-- The way out of every request that got no reply: the lock is left and the connection made anew.
unfoldable pub reconnect : Server → M ℤ
reconnect r = do
  mutex_unlock
  redis_uninit
  s ← λ s. some (s, s)
  (if can_read r s
      then redis_init r s.saved_host s.saved_port (some s.saved_pass) s.saved_db
      else (λ _. none))

-- A `long long` stored in an `int`
unfoldable pub to_int : ℤ → ℤ
to_int (pos n) = let m = n % 2 ^ 32 in if ltb m (2 ^ 31) then pos m else negsuc (2 ^ 32 - 1 - m)
to_int (negsuc n) = let m = n % 2 ^ 32 in if ltb m (2 ^ 31) then negsuc m else pos (2 ^ 32 - 1 - m)
