-- ===== src/Os.antt =====
-- The operating system, as the socket code (ctcpsvr/netsock.cpp) calls it. None of it is in the
-- repository, so it is a parameter: a function that answers a call by all the calls made before.
use tcp_svr.Base.{ℕ, ◌++◌, ℤ, to_ℕ, Bytes, Option, List, [], ◌∷◌, Bool, take, ◌≤◌, length}

-- What the code passes to `setsockopt`, with the values it sets.
pub data SockOpt : Type 0 where
  reuse_addr : SockOpt
  rcv_timeo snd_timeo : ℕ → ℕ → SockOpt
  rcv_buf snd_buf : ℕ → SockOpt

pub data Call : Type 0 where
  stream_socket dgram_socket : Call
  shutdown close getsockname getpeername accept tcp_info : ℤ → Call
  setsockopt : ℤ → SockOpt → Call
  bind : ℤ → Option Bytes → ℕ → Call
  listen : ℤ → ℕ → Call
  -- with SOMAXCONN
  listen_max : ℤ → Call
  connect : ℤ → Bytes → ℕ → Call
  select : ℤ → ℕ → ℕ → Call
  select_forever : ℤ → Call
  recv : ℤ → ℕ → Call
  send : ℤ → Bytes → Call

-- The return value; `errno` after the call; the bytes stored by `recv`; `FD_ISSET` after `select`;
-- whether TCP_INFO says TCP_ESTABLISHED.
pub record Answer : Type 0 where
  pub ret : ℤ
  pub errno : ℕ
  pub bytes : Bytes
  pub ready : Bool
  pub established : Bool

-- Calls made so far, the latest first.
abbrev pub History : Type 0
History = List Call

abbrev pub Os : Type 0
Os = History → Call → Answer

abbrev pub M : Type 0 → Type 0
M A = History → A × History

abbrev pub pure : {A : Type 0} → A → M A
pure a h = (a, h)

infixl 5 ◌>>=◌ ◌>>◌
abbrev pub ◌>>=◌ : {A B : Type 0} → M A → (A → M B) → M B
◌>>=◌ m f h = let (a, h') = m h in f a h'

abbrev pub ◌>>◌ : {A B : Type 0} → M A → M B → M B
◌>>◌ m k h = let (a, h') = m h in k h'

abbrev pub sys : Os → Call → M Answer
sys os c h = (os h c, c ∷ h)

-- The history when a call's result is not looked at.
abbrev pub sys_ : Os → Call → M (Unit {0})
sys_ os c h = (tt, c ∷ h)

-- The bytes of one call that the system took for transmission on socket `fd`.
abbrev pub taken : Call → Answer → Bytes
taken (Call.send fd bs) a = take (to_ℕ a.ret) bs
taken _ a = []

-- The bytes that the calls of a history have put on the wire, in order.
unfoldable pub delivered : Os → History → Bytes
delivered os [] = []
delivered os (c ∷ h) = delivered os h ++ taken c (os h c)

-- send(2): no more bytes are taken than were passed.
abbrev pub SendBounded : Os → Type 0
SendBounded os = (h : History) (fd : ℤ) (bs : Bytes) → to_ℕ (os h (Call.send fd bs)).ret ≤ length bs
