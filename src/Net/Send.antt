-- ===== src/Net/Send.antt =====
-- NET_Send: the loop that hands a buffer to send(2) until all of it is taken or a call fails.
pub mod Delivery
use tcp_svr.Base.{
  ℕ, zero, suc, ◌+◌, Bytes, List, [], ◌∷◌, Option, none, some, length, drop, ℤ, pos, neg, to_ℕ,
  is_pos, true, false,
}
use tcp_svr.Os.{Os, M, Call, Answer, sys, pure, ◌>>=◌}

-- The locals of NET_Send when its loop ends; `rest` holds the last `len` bytes of the buffer.
pub record Sending : Type 0 where
  pub ret : ℤ
  pub cnt : ℕ
  pub rest : Bytes

-- `while (len > 0)`, on fuel; `p` holds the last `len` bytes of the buffer.
unfoldable pub send_loop : Os → ℤ → ℕ → Bytes → ℕ → ℤ → M Sending
send_loop os fd fuel [] cnt ret h = (record { ret = ret; cnt = cnt; rest = [] }, h)
send_loop os fd zero (b ∷ p) cnt ret h = (record { ret = ret; cnt = cnt; rest = b ∷ p }, h)
send_loop os fd (suc fuel) (b ∷ p) cnt ret h =
    let a = os h (Call.send fd (b ∷ p)) in
    let h' = Call.send fd (b ∷ p) ∷ h in
    elim (is_pos a.ret) [
      | true ↦ send_loop os fd fuel (drop (to_ℕ a.ret) (b ∷ p)) (cnt + to_ℕ a.ret) a.ret h'
      | false ↦ (record { ret = a.ret; cnt = cnt; rest = b ∷ p }, h')
    ]

-- What follows the loop: `if (len) ret = cnt; return ret;`.
unfoldable pub sent : Sending → ℤ
sent s = elim s.rest [ [] ↦ s.ret | b ∷ p ↦ pos s.cnt ]

-- The buffer is the `len` bytes at `buf`; `none` is a null pointer. Each round takes at least one
-- byte, so `len` rounds are enough.
unfoldable pub net_send : Os → ℤ → Option Bytes → M ℤ
net_send os fd none h = (neg 1, h)
net_send os fd (some []) h = (neg 1, h)
net_send os fd (some (b ∷ p)) h =
    let (s, h') = send_loop os fd (length (b ∷ p)) (b ∷ p) 0 (pos 0) h in (sent s, h')
