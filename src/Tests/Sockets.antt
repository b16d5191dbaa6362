-- ===== src/Tests/Sockets.antt =====
-- The socket routines.
use tcp_svr.Base.{
  ℕ, zero, suc, ◌<◌, ◌-◌, [], ◌∷◌, ◌++◌, codes, length, take, drop, some, pos, is_pos, true, false,
  ◌≡◌, ◌⊎◌, refl, arith,
}
use tcp_svr.Os.{Call, History, delivered}
use tcp_svr.Net.Send.{net_send, send_loop, sent}
use tcp_svr.Net.Send.Delivery.{net_send-delivers}
use tcp_svr.Net.Receive.{net_rev}
use tcp_svr.Net.Receive.Outcome.{received, RecvBounded, net_rev-receives}
use tcp_svr.Net.Setup.{net_ser_bind}
use tcp_svr.Net.Setup.Descriptors.{held, net_ser_bind-held}
use tcp_svr.Tests.Systems.{talking, in_use, talking-SendBounded}

net_send-delivers_example :
    let buf = codes "hello" in
    let out = net_send (talking []) (pos 5) (some buf) [] in
    (n : ℕ) × (delivered (talking []) out.1 ≡ delivered (talking []) [] ++ take n buf)
    × (((n ≡ length buf) × (is_pos out.0 ≡ true))
        ⊎ ((g : History) × (n < length buf)
            × (out.0 ≡ pos n)
            × (out.1 ≡ Call.send (pos 5) (drop n buf) ∷ g)
            × (is_pos ((talking []) g (Call.send (pos 5) (drop n buf))).ret ≡ false)))
net_send-delivers_example =
    net_send-delivers (talking []) (pos 5) (codes "hello") [] (talking-SendBounded []) (omega arith)

-- NET_Send returns the size of its last piece, not what it sent.
five_bytes : (net_send (talking []) (pos 5) (some (codes "hello")) []).0 ≡ pos 1
unfolding net_send send_loop sent
five_bytes = refl

net_rev-receives_example :
    let out = net_rev in_use (pos 5) true (pos 3) [] in
    (out.0.0 ≡ pos (length out.0.1))
    × (received in_use out.1 ≡ received in_use [] ++ out.0.1)
    × ((length out.0.1 ≡ 3)
        ⊎ ((g : History) × (length out.0.1 < 3)
            × (out.1 ≡ Call.recv (pos 5) (3 - length out.0.1) ∷ g)
            × (is_pos (in_use g (Call.recv (pos 5) (3 - length out.0.1))).ret ≡ false)))
net_rev-receives_example = net_rev-receives in_use (pos 5) 2 [] in_use-RecvBounded
  where
    in_use-RecvBounded : RecvBounded in_use
    in_use-RecvBounded h fd zero e = cc
    in_use-RecvBounded h fd (suc n) e = (refl, omega arith)

-- bind(2) fails, and the descriptor 3 is returned all the same.
net_ser_bind-held_example :
    let out = net_ser_bind in_use 9000 5000 [] in
    (out.0 ≡ pos 3) × (held in_use out.1 ≡ held in_use [])
net_ser_bind-held_example = net_ser_bind-held in_use 9000 5000 []
