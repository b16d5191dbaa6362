-- ===== src/Svr/Connection/Threads/Own.antt =====
-- A round of a connection's thread sends to and receives from its own socket only.
use tcp_svr.Base.{
  ℕ, zero, suc, ◌+◌, ◌%◌, Bytes, [], ◌∷◌, codes, drop, ℤ, pos, to_ℕ, is_pos, is_zero, true, ◌&&◌,
  ltb, ◌≡◌, refl, sym, subst, inl, inr, Bool-cases,
}
use tcp_svr.Os.{Os, Call, History}
use tcp_svr.Net.Send.{send_loop, net_send}
use tcp_svr.Net.Receive.{net_poll_and_rev, net_check_tcp_link}
use tcp_svr.Net.Receive.Outcome.{net_poll_and_rev-positive}
use tcp_svr.Net.Setup.Descriptors.{eq_ℤ_refl}
use tcp_svr.Svr.Request.{Request, hello, incomplete, command, parse_request}
use tcp_svr.Svr.Handler1.{text_at, is_refused, answer_request, handle_from, msg_handler1}
use tcp_svr.Svr.Handler2.{cmd_size}
use tcp_svr.Svr.Connection.{tcp_buff_len, take_packets, conn_round}
use tcp_svr.Svr.Connection.Threads.{is_on}

-- The calls from one history to a later one.
pub data Own (s : ℤ) (h : History) : History → Type 0 where
  same : Own s h h
  more : {g : History} {c : Call} → Own s h g → is_on s c ≡ true → Own s h (c ∷ g)

Own-then : (s : ℤ) (h g h' : History) → Own s h g → Own s g h' → Own s h h'
Own-then s h g _ a same = a
Own-then s h g _ a (more b e) = more (Own-then s h g _ a b) e

module _ (os : Os) (s : ℤ) where
  send_loop-Own :
      (fuel : ℕ) (p : Bytes) (cnt : ℕ) (ret : ℤ) (h : History)
      → Own s h (send_loop os s fuel p cnt ret h).1
  unfolding send_loop is_on
  send_loop-Own fuel [] cnt ret h = same
  send_loop-Own zero (b ∷ p) cnt ret h = same
  send_loop-Own (suc fuel) (b ∷ p) cnt ret h =
      let a = os h (Call.send s (b ∷ p)) in
      let here : Own s h (Call.send s (b ∷ p) ∷ h) = more same (eq_ℤ_refl s) in
      elim (Bool-cases (is_pos a.ret)) [
        | inl some_taken ↦
            rw (some_taken, send_loop)
              (Own-then s h _ _ here
                (send_loop-Own fuel (drop (to_ℕ a.ret) (b ∷ p)) (cnt + to_ℕ a.ret) a.ret _))
        | inr bad ↦ rw (bad, send_loop) here
      ]

  answer_request-Own :
      (ret : ℤ) (h : History) (r : Request) → Own s h (answer_request os s ret r h).1
  unfolding answer_request net_send
  answer_request-Own ret h hello = same
  answer_request-Own ret h incomplete = same
  answer_request-Own ret h (command a t r) = send_loop-Own 3 (codes "ack") 0 (pos 0) h

  handle_from-Own :
      (buf : Bytes) (left i : ℕ) (ret : ℤ) (h : History)
      → Own s h (handle_from os s buf left i ret h).1
  unfolding handle_from
  handle_from-Own buf zero i ret h = same
  handle_from-Own buf (suc left) i ret h = elim (Bool-cases (is_refused buf i)) [
    | inl stop ↦ rw (stop, handle_from) same
    | inr go ↦
        let out = answer_request os s ret (parse_request (text_at buf i)) h in
        rw (go, handle_from)
          (Own-then s h out.1 _ (answer_request-Own ret h (parse_request (text_at buf i)))
            (handle_from-Own buf left (i + 1) out.0 out.1))
  ]

  poll-Own : (h : History) → Own s h (net_poll_and_rev os s tcp_buff_len (pos 1000) h).1
  unfolding is_on
  poll-Own h =
      let to_select = Call.select s 1 0 in
      let answer = os h to_select in
      let (_, _, calls) = net_poll_and_rev-positive os s tcp_buff_len 999 h in
      let polled : Own s h (to_select ∷ h) = more same refl in
      subst (Own s h) (sym calls) (elim (Bool-cases (is_pos answer.ret && answer.ready)) [
        | inl readable ↦ rw readable (more polled (eq_ℤ_refl s))
        | inr shut ↦ rw shut polled
      ])

  take_packets-Own :
      (count len : ℕ) (got : Bytes) (h : History) → Own s h (take_packets os s count len got h).1
  unfolding take_packets msg_handler1
  take_packets-Own count len got h = elim (Bool-cases (ltb 0 (len % cmd_size))) [
    | inl broken ↦ rw broken same
    | inr whole ↦ rw whole (handle_from-Own got _ 0 (pos 0) h)
  ]

  pub conn_round-Own : (count : ℕ) (h : History) → Own s h (conn_round os s count h).1
  unfolding conn_round net_check_tcp_link is_on
  conn_round-Own count h =
      let read = net_poll_and_rev os s tcp_buff_len (pos 1000) h in
      let polled = poll-Own h in
      elim (Bool-cases (is_pos read.0.0)) [
        | inl some_bytes ↦
            rw some_bytes (
              Own-then s h read.1 _ polled (take_packets-Own count (to_ℕ read.0.0) read.0.1 read.1))
        | inr none ↦ elim (Bool-cases (is_zero read.0.0)) [
          | inl zero_bytes ↦ rw (none, zero_bytes) (more polled refl)
          | inr bad ↦ rw (none, bad) polled
        ]
      ]
