-- ===== src/Svr/Start/Life.antt =====
-- The sockets of the server's whole life: the listener's thread, and `TcpSvr_close`.
use tcp_svr.Base.{
  ℕ, ◌+◌, ◌<◌, ◌≤◌, ◌%◌, ◌^◌, List, [], length, ◌∷◌, none, ℤ, is_neg, Bool, true, false, ◌&&◌, not,
  eq_ℤ, if◌then◌else◌, ◌≡◌, refl, sym, ap, ◌∙◌, arith, Bool-cases, inl, inr,
}
use tcp_svr.Os.{Os, Call, History, reuse_addr, M, pure, ◌>>=◌, ◌>>◌}
use mathlib.Core.Bool.{false≢true}
use tcp_svr.Net.Setup.{net_close_sock, net_ser_bind}
use tcp_svr.Net.Setup.Descriptors.{
  held, count, count-nil, count-cons_self, count-cons, count-erase, held-net_close_sock,
  net_ser_bind-held,
}
use tcp_svr.Svr.Listener.{max_tcp_client, end_thread, listen_round, initial}
use tcp_svr.Svr.Listener.Slots.{
  IsTable, initial-IsTable, listen_round-IsTable, end_thread-SlotsFrom, length-end_thread,
}
use tcp_svr.Svr.Listener.Balance.{
  socks, Balanced, no_socks, listen_round-Balanced, socks-end_thread,
}
use tcp_svr.Svr.Listener.Closed.{
  socks-tcp_svr_close, tcp_svr_close-IsTable, tcp_svr_close-Balanced, listen_round-more,
}
use tcp_svr.Svr.Start.{
  Main, Aside, gone, closing, meanwhile, Turn, is_exit, listen_loop, tcp_listen_thread,
  tcp_svr_shut,
}

-- What NET_Ser_Bind is told of bind(2) and of listen(2).
unfoldable pub binds : Os → ℕ → History → Bool
binds os port h =
    let s = (os h Call.stream_socket).ret in
    let h_opt = Call.setsockopt s reuse_addr ∷ Call.stream_socket ∷ h in
    let to_bind = Call.bind s none (port % 2 ^ 16) in
    not (is_neg (os h_opt to_bind).ret)
    && not (is_neg (os (to_bind ∷ h_opt) (Call.listen s 256)).ret)

not_both : {A : Type 0} (b : Bool) → b ≡ false → b ≡ true → A
not_both b off on = absurd (false≢true (sym off ∙ on))

module _ (os : Os) (extra : ℤ → ℕ) where
  -- The server while it runs; once the state is EXIT, at most `k` clients are left.
  record Live (k : ℕ) (m : Main) (g : History) : Type 0 where
    table : IsTable m.table
    balanced : Balanced os extra m.table g
    few : is_exit m.state ≡ true → length (socks m.table) ≤ k

  gone-Live :
      (k i : ℕ) (m : Main) (g : History)
      → Live k m g
      → Live k (record m { table = end_thread i m.table }) g
  gone-Live k i m g v = record {
    table = record {
      full_length = length-end_thread i m.table ∙ v.table.full_length;
      slots = end_thread-SlotsFrom 0 i m.table v.table.slots;
    };
    balanced = λ d. rw (socks-end_thread os i m.table) (v.balanced d);
    few = λ e. rw (socks-end_thread os i m.table) (v.few e);
  }

  shut-Live :
      (k : ℕ) (m : Main) (g : History)
      → Live k m g
      → let out = tcp_svr_shut os m g in Live 0 out.0.1 out.1
  unfolding tcp_svr_shut
  shut-Live k m g v = record {
    table = tcp_svr_close-IsTable os m.table g v.table;
    balanced = tcp_svr_close-Balanced os extra m.table g v.table v.balanced;
    few = λ e. rw (socks-tcp_svr_close os m.table g) (omega arith);
  }

  meanwhile-Live :
      (others : List Aside) (m : Main) (g : History)
      → Live 0 m g
      → let out = meanwhile os others m g in Live 0 out.0 out.1
  unfolding meanwhile
  meanwhile-Live [] m g v = v
  meanwhile-Live (gone i ∷ others) m g v = meanwhile-Live others _ g (gone-Live 0 i m g v)
  meanwhile-Live (closing ∷ others) m g v = meanwhile-Live others _ _ (shut-Live 0 m g v)

  round-Live :
      (sock : ℤ) (allocated started : Bool) (m : Main) (g : History)
      → Live 0 m g
      → let out = listen_round os sock allocated started m.table g in
        Live 1 (record m { table = out.0 }) out.1
  round-Live sock allocated started m g v = record {
    table = listen_round-IsTable os sock allocated started m.table g v.table;
    balanced = listen_round-Balanced os extra sock allocated started m.table g v.table v.balanced;
    few = λ e. omega (arith, v.few e, listen_round-more os sock allocated started m.table g);
  }

  -- Before each turn the state is not EXIT.
  loop-Live :
      (sock : ℤ) (turns : List Turn) (m : Main) (g : History)
      → Live 1 m g
      → let out = listen_loop os sock turns m g in Live 1 out.0 out.1
  unfolding listen_loop
  loop-Live sock [] m g v = v
  loop-Live sock (turn ∷ turns) m g v = elim (Bool-cases (is_exit m.state)) [
    | inl over ↦ rw over v
    | inr goes ↦
        let running : Live 0 m g = record {
          table = v.table;
          balanced = v.balanced;
          few = not_both (is_exit m.state) goes;
        } in
        let out = meanwhile os turn.asides m g in
        rw goes (
          loop-Live sock turns _ _ (
            round-Live sock turn.allocated turn.started out.0 out.1
              (meanwhile-Live turn.asides m g running)))
  ]

module _ (os : Os) (h : History) where
  -- NET_Ser_Bind as the thread sees it.
  bound-held :
      (s : ℤ) (bound listening : Bool) (l : List ℤ)
      → (is_neg s ≡ false → (bound && listening) ≡ true)
      → l ≡ (if not (is_neg s) && bound && listening then s ∷ held os h else held os h)
      → (is_neg s ≡ true → l ≡ held os h) × (is_neg s ≡ false → l ≡ s ∷ held os h)
  bound-held s true true l ok after = (λ bad. after ∙ rw bad refl, λ good. after ∙ rw good refl)
  bound-held s true false l ok after =
      (λ bad. after ∙ rw bad refl, λ good. absurd (false≢true (ok good)))
  bound-held s false listening l ok after =
      (λ bad. after ∙ rw bad refl, λ good. absurd (false≢true (ok good)))

  abbrev base : ℤ → ℕ
  base d = count d (held os h)

  initial-Live :
      (extra : ℤ → ℕ) (m : Main) (g : History)
      → ((d : ℤ) → count d (held os g) ≡ extra d)
      → is_exit m.state ≡ false
      → Live os extra 1 (record m { table = initial }) g
  initial-Live extra m g same goes = record {
    table = initial-IsTable;
    balanced = λ d. rw (no_socks max_tcp_client, count-nil d) (omega (arith, same d));
    few = not_both (is_exit m.state) goes;
  }

  -- The listener's socket, held behind all others, is closed.
  close-Live :
      (s : ℤ) (m : Main) (g : History)
      → is_neg s ≡ false
      → Live os (λ d. (if eq_ℤ s d then 1 else 0) + base d) 1 m g
      → Live os base 1 m (net_close_sock os s g).1
  close-Live s m g good v = record {
    table = v.table;
    balanced = λ d.
        let here : 0 < count s (held os g) =
          omega (arith, v.balanced s, count-cons_self s (held os h), count-cons s s (held os h)) in
        rw (held-net_close_sock os s g, good)
          (omega (arith, count-erase d s (held os g) here, v.balanced d));
    few = v.few;
  }

  abbrev Closed : Main → History → Type 0
  Closed m g = is_exit m.state ≡ true → Live os base 1 m g

  -- The thread behind NET_Ser_Bind.
  abbrev served : ℤ → List Turn → Main → M Main
  served s turns m = if is_neg s then pure m else do
    m' ← listen_loop os s turns m
    (if is_exit m'.state then (do net_close_sock os s; pure m') else pure m')

  served-Closed :
      (s : ℤ) (turns : List Turn) (m : Main) (g : History)
      → is_exit m.state ≡ false
      → (is_neg s ≡ false → held os g ≡ s ∷ held os h)
      → let out = served s turns (record m { table = initial }) g in Closed out.0 out.1
  served-Closed s turns m g goes one_held = elim (Bool-cases (is_neg s)) [
    | inl bad ↦ rw bad (not_both (is_exit m.state) goes)
    | inr good ↦
        let more : ℤ → ℕ = λ d. (if eq_ℤ s d then 1 else 0) + base d in
        let start =
          initial-Live more m g (λ d. ap (count d) (one_held good) ∙ count-cons d s (held os h))
            goes in
        let out = listen_loop os s turns (record m { table = initial }) g in
        let left = loop-Live os more s turns _ g start in
        rw good (elim (Bool-cases (is_exit out.0.state)) [
          | inl over ↦ rw over (λ _. close-Live s out.0 out.1 good left)
          | inr runs ↦ rw runs (not_both (is_exit out.0.state) runs)
        ])
  ]

  -- Where the listener's thread began with an empty table and a state other than EXIT, and the state is EXIT behind the turns given,
  -- the thread has closed its own socket, and each descriptor is held as often as before it began and once more for each
  -- client that is left in the table, of which there is one at most. bind(2) and listen(2) did not fail on the
  -- listener's socket; whatever clients came, whichever threads ended, and however often TcpSvr_close was called while
  -- the listener waited for a client.
  pub tcp_listen_thread-held :
      (port : ℕ) (turns : List Turn) (m : Main) (fd : ℤ)
      → is_exit m.state ≡ false
      → (is_neg (os h Call.stream_socket).ret ≡ false → binds os port h ≡ true)
      → is_exit (tcp_listen_thread os port turns (record m { table = initial }) h).0.state ≡ true
      → let out = tcp_listen_thread os port turns (record m { table = initial }) h in
        (count fd (held os out.1) ≡ count fd (held os h) + count fd (socks out.0.table))
        × (length (socks out.0.table) ≤ 1)
  unfolding tcp_listen_thread binds
  tcp_listen_thread-held port turns m fd goes bound over =
      let s = (os h Call.stream_socket).ret in
      let (ret, after) = net_ser_bind-held os port 800 h in
      let (none_held, one_held) = bound-held s _ _ _ bound after in
      let sock = (net_ser_bind os port 800 h).0 in
      let v =
        served-Closed sock turns m (net_ser_bind os port 800 h).1 goes
          (λ good. one_held (ap is_neg (sym ret) ∙ good) ∙ ap (λ x. x ∷ held os h) (sym ret))
          over in
      (v.balanced fd, v.few over)
