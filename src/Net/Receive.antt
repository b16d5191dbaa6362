-- ===== src/Net/Receive.antt =====
-- NET_RcvPoll, NET_Rev, NET_PollAndRev, NET_SelectRev and NET_CheckTcpLink. Where the source writes
-- into `buf`, the model returns the bytes written.
pub mod Outcome
use tcp_svr.Base.{
  ℕ, zero, suc, ◌+◌, ◌-◌, ◌*◌, ◌/◌, ◌%◌, Bytes, [], ◌∷◌, ◌++◌, Option, none, some, ℤ, pos, neg,
  to_ℕ, is_pos, is_neg, is_zero, eq_ℤ, Bool, true, false, ◌&&◌, not, ◌==◌, if◌then◌else◌,
}
use tcp_svr.Os.{Os, M, Call, Answer, sys, pure, ◌>>=◌}

-- `select` on `fd` alone, for reading, with a time limit in milliseconds.
abbrev pub select_ms : Os → ℤ → ℕ → M Answer
select_ms os fd ms = sys os (Call.select fd (ms / 1000) (ms % 1000 * 1000))

-- `while (1)`, on fuel; `none` means that the fuel ran out. A `timeout` that is not positive waits
-- with no limit.
pub net_rcv_poll : Os → ℤ → ℤ → ℕ → M (Option ℤ)
net_rcv_poll os fd timeout zero h = (none, h)
net_rcv_poll os fd timeout (suc fuel) h =
    let (a, h') =
      (if is_pos timeout then select_ms os fd (to_ℕ timeout) else sys os (Call.select_forever fd))
        h in
    let again = net_rcv_poll os fd timeout fuel h' in
    if eq_ℤ a.ret (neg 1)
    then (some (neg 10), h')
    else if is_zero a.ret
    then (some (pos 0), h')
    else if a.ready
    then (some (pos 1), h')
    else again

-- The loop of NET_Rev, on fuel: `len` bytes are still wanted.
pub rev_loop : Os → ℤ → ℕ → ℕ → ℕ → Bytes → M (ℕ × Bytes)
rev_loop os fd zero len cnt got h = ((cnt, got), h)
rev_loop os fd (suc fuel) zero cnt got h = ((cnt, got), h)
rev_loop os fd (suc fuel) (suc len) cnt got h =
    let a = os h (Call.recv fd (suc len)) in
    let h' = Call.recv fd (suc len) ∷ h in
    elim (is_pos a.ret) [
      | true ↦ rev_loop os fd fuel (suc len - to_ℕ a.ret) (cnt + to_ℕ a.ret) (got ++ a.bytes) h'
      | false ↦ ((cnt, got), h')
    ]

-- `has_buf` is false for a null pointer. A round that goes on has read a byte, so `len` rounds are
-- enough.
pub net_rev : Os → ℤ → Bool → ℤ → M (ℤ × Bytes)
net_rev os fd has_buf len =
    if not has_buf
    then pure (neg 1, [])
    else if not (is_pos len)
    then pure (neg 2, [])
    else do (cnt, got) ← rev_loop os fd (to_ℕ len) (to_ℕ len) 0 []; pure (pos cnt, got)

-- `recv` and what NET_PollAndRev makes of a failure: the count, the bytes, and `errno` after it.
unfoldable pub poll_recv : Os → ℤ → ℕ → M (ℤ × Bytes × ℕ)
poll_recv os fd len = do
  a ← sys os (Call.recv fd len)
  pure (if is_neg a.ret && not (a.errno == 0) then neg 10 else a.ret, a.bytes, a.errno)

-- The second test of NET_PollAndRev; `ret` is the result of `select`.
unfoldable pub hang_up : ℤ → ℤ × Bytes × ℕ → M (ℤ × Bytes)
hang_up ret (cnt, got, errno) =
    pure (if eq_ℤ ret (pos 1) && is_zero cnt && not (errno == 0) then neg 11 else cnt, got)

unfoldable pub net_poll_and_rev : Os → ℤ → ℕ → ℤ → M (ℤ × Bytes)
net_poll_and_rev os fd len timeout = do
  s ← (if is_pos timeout then select_ms os fd (to_ℕ timeout) else sys os (Call.select fd 1 0))
  (if is_pos s.ret
      then (if s.ready then poll_recv os fd len else pure (pos 0, [], s.errno)) >>= hang_up s.ret
      else pure (pos 0, []))

pub net_select_rev : Os → ℤ → ℕ → M (ℤ × Bytes)
net_select_rev os fd len = do
  s ← sys os (Call.select fd 1 0)
  (if not (is_pos s.ret && s.ready)
      then pure (s.ret, [])
      else do a ← sys os (Call.recv fd len); pure (a.ret, a.bytes))

-- 1 when the socket is established, 0 when it is not, and the error of `getsockopt`.
unfoldable pub net_check_tcp_link : Os → ℤ → M ℤ
net_check_tcp_link os fd = do
  a ← sys os (Call.tcp_info fd)
  pure (if is_zero a.ret && a.established then pos 1 else a.ret)
