-- ===== src/Svr/Connection.antt =====
-- `TcpConnection_thread`: rounds of polling one client's socket. The field `state` of the entity is
-- shared: what the thread reads of it at the head of a round is an argument. A round starts with a
-- cleared buffer, of which the model keeps the bytes received.
pub mod Frames
pub mod Timeout
pub mod Stream
pub mod Threads
use tcp_svr.Base.{
  ℕ, zero, suc, ◌+◌, ◌%◌, Bytes, List, [], ◌∷◌, ℤ, pos, neg, to_ℕ, is_pos, is_neg, is_zero, eq_ℤ,
  Bool, true, false, not, ltb, leb, if◌then◌else◌,
}
use tcp_svr.Os.{Os, M, pure, ◌>>=◌}
use tcp_svr.Net.Receive.{net_poll_and_rev, net_check_tcp_link}
use tcp_svr.Svr.Handler1.{msg_handler1}
use tcp_svr.Svr.Handler2.{cmd_size}

-- TCP_BUFF_LEN, and the limit of `tickCount`
abbrev pub tcp_buff_len : ℕ
tcp_buff_len = 1024

abbrev pub client_timeout : ℕ
client_timeout = 300

-- Whether the loop goes on, and `tickCount`.
pub data Round : Type 0 where
  again : ℕ → Round
  leave : ℕ → Round

-- The last statement of the loop's body.
pub tick : ℕ → Round
tick count = if leb client_timeout count then leave (count + 1) else again (count + 1)

-- The branch of a read that brought bytes: `tickCount` after it.
pub take_packets : Os → ℤ → ℕ → ℕ → Bytes → M ℕ
take_packets os sock count len got =
    if ltb 0 (len % cmd_size)
    then pure count
    else do ret ← msg_handler1 os sock got len; pure (if is_neg ret then count else 0)

-- The body of the loop.
pub conn_round : Os → ℤ → ℕ → M Round
conn_round os sock count = do
  (len, got) ← net_poll_and_rev os sock tcp_buff_len (pos 1000)
  (if is_pos len
      then (take_packets os sock count (to_ℕ len) got >>= λ n. pure (tick n))
      else if not (is_zero len)
      then pure (leave count)
      else do
        ret ← net_check_tcp_link os sock
        pure (if eq_ℤ ret (pos 1) then again count else leave count))

-- The loop: one round for each reading of `state`, until it reads THREAD_STATE_EXIT or a round
-- leaves. The second result says whether the loop is still running.
pub conn_loop : Os → ℤ → List Bool → ℕ → M (ℕ × Bool)
conn_loop os sock [] count h = ((count, true), h)
conn_loop os sock (true ∷ exits) count h = ((count, false), h)
conn_loop os sock (false ∷ exits) count h =
    let (r, h') = conn_round os sock count h in
    elim r [ again n ↦ conn_loop os sock exits n h' | leave n ↦ ((n, false), h') ]
