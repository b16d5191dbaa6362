-- ===== src/Svr/Connection/Frames.antt =====
-- Which reads reach the message handler.
use tcp_svr.Base.{ℕ, suc, ◌*◌, ◌%◌, ℤ, pos, ◌==◌, if◌then◌else◌, ◌≡◌, arith}
use tcp_svr.Os.{Os, History, SendBounded}
use tcp_svr.Net.Receive.{net_poll_and_rev}
use tcp_svr.Svr.Request.{tcp_msg_len}
use tcp_svr.Svr.Handler1.{msg_handler1}
use tcp_svr.Svr.Handler1.Acks.{msg_handler1-nonneg}
use tcp_svr.Svr.Connection.{tcp_buff_len, again, tick, take_packets, conn_round}

-- A read of `k` whole messages of `_Msg_handler1` (TCP_MSG_LEN bytes each) passes the length test of
-- the connection, which counts in MSG_CMD_T structures, exactly when `k` is a multiple of 3. It is
-- then handled, all `k` messages of it, and the idle count is reset; otherwise the round ends as if
-- nothing had come, with no byte looked at.
pub conn_round-frames :
    (os : Os) (sock : ℤ) (count k : ℕ) (h : History)
    → SendBounded os
    → let read = net_poll_and_rev os sock tcp_buff_len (pos 1000) h in
      read.0.0 ≡ pos (tcp_msg_len * suc k)
      → let out = conn_round os sock count h in
        let handled = msg_handler1 os sock read.0.1 (tcp_msg_len * suc k) read.1 in
        ((out.0 ≡ (if suc k % 3 == 0 then again 1 else tick count))
          × (out.1 ≡ (if suc k % 3 == 0 then handled.1 else read.1)))
unfolding conn_round take_packets tick
conn_round-frames os sock count k h bounded read =
    let got = net_poll_and_rev os sock tcp_buff_len (pos 1000) h in
    let calm = msg_handler1-nonneg os sock got.0.1 (tcp_msg_len * suc k) got.1 bounded in
    ground arith
