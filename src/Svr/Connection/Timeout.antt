-- ===== src/Svr/Connection/Timeout.antt =====
-- When a connection is given up for being silent.
use tcp_svr.Base.{
  ℕ, zero, suc, ◌+◌, ◌%◌, ◌≤◌, ◌<◌, ℤ, pos, true, false, replicate, leb, if◌then◌else◌, ◌≡◌, refl,
  ◌∙◌, arith, Bool-cases, inl, inr,
}
use native.Mathlib.Nat.{zero-add}
use tcp_svr.Os.{Os, History}
use tcp_svr.Net.Receive.{net_poll_and_rev, net_check_tcp_link}
use tcp_svr.Svr.Handler2.{cmd_size}
use tcp_svr.Svr.Connection.{
  tcp_buff_len, client_timeout, again, leave, tick, take_packets, conn_round, conn_loop,
}

-- The client sends nothing and the link is up: each poll of the socket finds nothing, and TCP_INFO
-- says that the link is established.
pub record IsIdle (os : Os) (sock : ℤ) : Type 0 where
  pub nothing : (h : History) → (net_poll_and_rev os sock tcp_buff_len (pos 1000) h).0.0 ≡ pos 0
  pub linked : (h : History) → (net_check_tcp_link os sock h).0 ≡ pos 1

conn_round-idle :
    (os : Os) (sock : ℤ) (count : ℕ) (h : History)
    → IsIdle os sock
    → (conn_round os sock count h).0 ≡ again count
unfolding conn_round
conn_round-idle os sock count h idle =
    ground
      (arith, idle.nothing h, idle.linked (net_poll_and_rev os sock tcp_buff_len (pos 1000) h).1)

-- A silent client is never timed out: however many rounds pass while it sends nothing and its link is
-- up, the connection goes on and its idle count stays where it was.
pub conn_loop-idle :
    (os : Os) (sock : ℤ) (rounds count : ℕ) (h : History)
    → IsIdle os sock
    → (conn_loop os sock (replicate rounds false) count h).0 ≡ (count, true)
unfolding conn_loop
conn_loop-idle os sock zero count h idle = refl
conn_loop-idle os sock (suc rounds) count h idle =
    rw (conn_round-idle os sock count h idle, conn_loop)
      (conn_loop-idle os sock rounds count _ idle)

-- Each poll brings bytes that are not whole packets.
abbrev pub SendsBroken : Os → ℤ → Type 0
SendsBroken os sock =
    (h : History)
    → (n : ℕ) × ((net_poll_and_rev os sock tcp_buff_len (pos 1000) h).0.0 ≡ pos n)
      × (0 < n % cmd_size)

conn_round-broken :
    (os : Os) (sock : ℤ) (count : ℕ) (h : History)
    → SendsBroken os sock
    → (conn_round os sock count h).0 ≡ tick count
unfolding conn_round take_packets
conn_round-broken os sock count h broken = let (n, e, p) = broken h in ground arith

tick_late : (count : ℕ) → leb client_timeout count ≡ true → tick count ≡ leave (count + 1)
unfolding tick
tick_late count e = rw e

tick_early : (count : ℕ) → leb client_timeout count ≡ false → tick count ≡ again (count + 1)
unfolding tick
tick_early count e = rw e

shift : (a b : ℕ) → a + 1 + b ≡ a + suc b
shift a b = omega arith

conn_loop-broken_from :
    (os : Os) (sock : ℤ) (rounds count : ℕ) (h : History)
    → SendsBroken os sock
    → count ≤ client_timeout
    → (conn_loop os sock (replicate rounds false) count h).0 ≡ (
        if leb (count + rounds) client_timeout
        then (count + rounds, true)
        else (suc client_timeout, false))
unfolding conn_loop
conn_loop-broken_from os sock zero count h broken b = ground arith
conn_loop-broken_from os sock (suc rounds) count h broken b =
    elim (Bool-cases (leb client_timeout count)) [
      | inl late ↦
          rw (conn_round-broken os sock count h broken, tick_late count late, conn_loop)
            (ground arith)
      | inr early ↦
          rw (conn_round-broken os sock count h broken, tick_early count early, conn_loop)
            (conn_loop-broken_from os sock rounds (count + 1) _ broken (ground arith)
              ∙ rw (shift count rounds))
    ]

-- A client that sends only broken packets is dropped in its 301st round, and not before.
pub conn_loop-broken :
    (os : Os) (sock : ℤ) (rounds : ℕ) (h : History)
    → SendsBroken os sock
    → (conn_loop os sock (replicate rounds false) 0 h).0
      ≡ (if leb rounds client_timeout then (rounds, true) else (suc client_timeout, false))
conn_loop-broken os sock rounds h broken =
    conn_loop-broken_from os sock rounds 0 h broken (omega arith) ∙ rw (zero-add rounds)
