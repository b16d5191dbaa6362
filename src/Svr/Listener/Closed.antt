-- ===== src/Svr/Listener/Closed.antt =====
-- The table of clients after the loop of TcpSvr_close, and how many clients a round of the listener adds.
use tcp_svr.Base.{
  ℕ, zero, suc, ◌≤◌, Bytes, [], ◌∷◌, Option, none, some, set, length, ℤ, is_neg, Bool, leb, ◌≡◌,
  refl, ap, ◌∙◌, arith, Bool-cases, inl, inr,
}
use tcp_svr.Os.{Os, History}
use tcp_svr.Net.Setup.{net_ser_accept}
use tcp_svr.Svr.Listener.{
  max_tcp_client, Entity, Table, tcp_svr_destroy, first_free, install, admit, age, sweep,
  listen_round, tcp_svr_close,
}
use tcp_svr.Svr.Listener.Slots.{SlotsFrom, IsTable, reap-cases}
use tcp_svr.Svr.Listener.Balance.{socks, Balanced, close-all}

module _ (os : Os) where
  pub socks-tcp_svr_close : (t : Table) (h : History) → socks (tcp_svr_close os t h).0 ≡ []
  unfolding tcp_svr_close
  socks-tcp_svr_close [] h = refl
  socks-tcp_svr_close (none ∷ t) h = socks-tcp_svr_close t h
  socks-tcp_svr_close (some e ∷ t) h = socks-tcp_svr_close t (tcp_svr_destroy os e h).1

  length-tcp_svr_close : (t : Table) (h : History) → length (tcp_svr_close os t h).0 ≡ length t
  unfolding tcp_svr_close
  length-tcp_svr_close [] h = refl
  length-tcp_svr_close (none ∷ t) h = ap suc (length-tcp_svr_close t h)
  length-tcp_svr_close (some e ∷ t) h = ap suc (length-tcp_svr_close t (tcp_svr_destroy os e h).1)

  tcp_svr_close-SlotsFrom : (i : ℕ) (t : Table) (h : History) → SlotsFrom i (tcp_svr_close os t h).0
  unfolding tcp_svr_close
  tcp_svr_close-SlotsFrom i [] h = tt
  tcp_svr_close-SlotsFrom i (none ∷ t) h = tcp_svr_close-SlotsFrom (suc i) t h
  tcp_svr_close-SlotsFrom i (some e ∷ t) h =
      tcp_svr_close-SlotsFrom (suc i) t (tcp_svr_destroy os e h).1

  pub tcp_svr_close-IsTable :
      (t : Table) (h : History) → IsTable t → IsTable (tcp_svr_close os t h).0
  tcp_svr_close-IsTable t h v = record {
    full_length = length-tcp_svr_close t h ∙ v.full_length;
    slots = tcp_svr_close-SlotsFrom 0 t h;
  }

  pub tcp_svr_close-Balanced :
      (extra : ℤ → ℕ) (t : Table) (h : History)
      → IsTable t
      → Balanced os extra t h
      → let out = tcp_svr_close os t h in Balanced os extra out.0 out.1
  tcp_svr_close-Balanced extra t h v b =
      rw (socks-tcp_svr_close t h) (close-all os extra 0 t h v.slots b)

  -- The sweep adds no client.
  sweep-fewer : (t : Table) (h : History) → length (socks (sweep os t h).0) ≤ length (socks t)
  unfolding sweep
  sweep-fewer [] h = omega arith
  sweep-fewer (none ∷ t) h = sweep-fewer t h
  sweep-fewer (some e ∷ t) h = elim (reap-cases os (age e e.timeout) (age e e.timeout).state h) [
    | inl gone ↦ rw gone (omega (arith, sweep-fewer t (tcp_svr_destroy os (age e e.timeout) h).1))
    | inr kept ↦ rw kept (omega (arith, sweep-fewer t h))
  ]

  set-more :
      (i : ℕ) (t : Table) (e : Entity) → length (socks (set t i (some e))) ≤ suc (length (socks t))
  set-more i [] e = omega arith
  set-more zero (none ∷ t) e = omega arith
  set-more zero (some d ∷ t) e = omega arith
  set-more (suc i) (none ∷ t) e = set-more i t e
  set-more (suc i) (some d ∷ t) e = omega (arith, set-more i t e)

  install-more :
      (sock : ℤ) (t : Table) (i : ℕ) (o : Option Entity) (h : History)
      → length (socks (install os sock t i o h).0) ≤ suc (length (socks t))
  unfolding install
  install-more sock t i none h = omega arith
  install-more sock t i (some e) h = set-more i t e

  admit-more :
      (allocated started : Bool) (sock : ℤ) (client : Bytes) (t : Table) (h : History)
      → length (socks (admit os allocated started sock client t h).0) ≤ suc (length (socks t))
  unfolding admit
  admit-more allocated started sock client t h =
      elim (Bool-cases (leb max_tcp_client (first_free t))) [
        | inl crowded ↦ rw crowded (omega arith)
        | inr room ↦ rw room (install-more sock t _ _ h)
      ]

  -- A round adds one client at most.
  pub listen_round-more :
      (listener : ℤ) (allocated started : Bool) (t : Table) (h : History)
      → length (socks (listen_round os listener allocated started t h).0) ≤ suc (length (socks t))
  unfolding listen_round
  listen_round-more listener allocated started t h =
      let a = net_ser_accept os listener 5000 h in
      elim (Bool-cases (is_neg a.0.0)) [
        | inl bad ↦ rw bad (omega (arith, sweep-fewer t a.1))
        | inr good ↦ rw good (admit-more allocated started a.0.0 a.0.1 t a.1)
      ]
