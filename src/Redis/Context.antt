-- ===== src/Redis/Context.antt =====
-- The connection of redis_api.cpp by its kind: `_connect`, `_select_database` and `_disconnect`, which no other function calls. The
-- hiredis library is a parameter: what it answers by all that it has been asked before. Contexts and replies are
-- numbers.
pub mod Kept
use tcp_svr.Base.{
  ℕ, Bytes, List, [], ◌∷◌, codes, Option, none, some, ℤ, pos, neg, is_zero, Bool, true, false, ◌==◌,
  ◌&&◌, if◌then◌else◌, ◌≡◌,
}
use tcp_svr.Redis.Client.{Sort, error, integer, other, Reply}

-- CONN_TCP, CONN_UNIX and CONN_FD
pub data ConnectionType : Type 0 where
  conn_tcp conn_unix conn_fd : ConnectionType

-- The timeout, which nothing reads, is left out.
pub record RedisCfg : Type 0 where
  pub kind : ConnectionType
  pub host : Bytes
  pub port : ℤ
  pub path : Bytes

pub data Call : Type 0 where
  redis_connect : Bytes → ℤ → Call
  redis_connect_unix : Bytes → Call
  redis_connect_fd : ℤ → Call
  redis_command : ℕ → Bytes → Call
  redis_free redis_free_keep_fd free_reply_object : ℕ → Call

-- What the library gives: a context and whether its `err` is set, a reply, or a descriptor.
pub record Answer : Type 0 where
  pub context : Option ℕ
  pub err : Bool
  pub reply : Option (ℕ × Reply)
  pub fd : ℤ

-- What was asked so far, the latest first.
abbrev pub History : Type 0
History = List Call

abbrev pub Hiredis : Type 0
Hiredis = History → Call → Answer

-- A function returns, or exit(3) or a failed `assert` ends the process.
pub data Ended (A : Type 0) : Type 0 where
  returned : A → Ended A
  exited aborted : Ended A

abbrev pub M : Type 0 → Type 0
M A = History → Ended A × History

abbrev pub pure : {A : Type 0} → A → M A
pure a h = (returned a, h)

infixl 5 ◌>>=◌
abbrev pub ◌>>=◌ : {A B : Type 0} → M A → (A → M B) → M B
◌>>=◌ m f h = elim (m h).0 [
  | returned a ↦ f a (m h).1
  | exited ↦ (exited, (m h).1)
  | aborted ↦ (aborted, (m h).1)
]

abbrev pub exit : {A : Type 0} → M A
exit h = (exited, h)

abbrev ask : Hiredis → Call → M Answer
ask r c h = (returned (r h c), c ∷ h)

-- `assert (reply != NULL)`
unfoldable pub asserted : {A : Type 0} → Option A → M A
asserted none h = (aborted, h)
asserted (some a) h = (returned a, h)

unfoldable pub is_empty_db : Reply → Bool
is_empty_db reply = elim reply.sort [
  | integer ↦ is_zero reply.number
  | error ↦ false
  | other ↦ false
]

-- The second reply is freed on one of the branches only.
unfoldable pub select_database : Hiredis → ℕ → M (Option ℕ)
select_database r c = do
  a ← ask r (redis_command c (codes "SELECT 9"))
  selected ← asserted a.reply
  _ ← ask r (free_reply_object selected.0)
  b ← ask r (redis_command c (codes "DBSIZE"))
  size ← asserted b.reply
  if is_empty_db size.1 then (do _ ← ask r (free_reply_object size.0); pure (some c)) else pure none

unfoldable pub disconnect : Hiredis → ℕ → Bool → M ℤ
disconnect r c true = do a ← ask r (redis_free_keep_fd c); pure a.fd
disconnect r c false = do _ ← ask r (redis_free c); pure (neg 1)

abbrev pub with_err : Answer → Option (ℕ × Bool)
with_err a = elim a.context [ none ↦ none | some c ↦ some (c, a.err) ]

-- The context by its kind; with CONN_FD the descriptor comes from a first context.
unfoldable pub open_context : Hiredis → RedisCfg → ConnectionType → M (Option (ℕ × Bool))
open_context r cfg conn_tcp = do a ← ask r (redis_connect cfg.host cfg.port); pure (with_err a)
open_context r cfg conn_unix = do a ← ask r (redis_connect_unix cfg.path); pure (with_err a)
open_context r cfg conn_fd = do
  dummy ← ask r (redis_connect_unix cfg.path)
  elim dummy.context [
    | none ↦ pure none
    | some d ↦ do fd ← disconnect r d true; a ← ask r (redis_connect_fd fd); pure (with_err a)
  ]

-- `exit (1)` with no context or one with an error.
abbrev pub used : Hiredis → Option (ℕ × Bool) → M (Option ℕ)
used r none = exit
used r (some (c, true)) = do _ ← ask r (redis_free c); exit
used r (some (c, false)) = select_database r c

unfoldable pub connect_config : Hiredis → RedisCfg → M (Option ℕ)
connect_config r cfg = do opened ← open_context r cfg cfg.kind; used r opened
