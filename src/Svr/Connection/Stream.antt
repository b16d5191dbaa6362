-- ===== src/Svr/Connection/Stream.antt =====
-- What a connection puts on the wire over its whole life, against what it has received.
use tcp_svr.Base.{
  ℕ, zero, suc, ◌+◌, ◌/◌, ◌%◌, Bytes, List, [], ◌∷◌, ◌++◌, codes, drop, ℤ, pos, to_ℕ, is_pos,
  is_zero, eq_ℤ, Bool, true, false, ◌&&◌, not, ltb, if◌then◌else◌, ◌≡◌, refl, sym, ap, ◌∙◌, inl,
  inr, Bool-cases, append-nil, append_assoc,
}
use tcp_svr.Os.{Os, M, Call, Answer, History, delivered, pure, ◌>>=◌}
use tcp_svr.Net.Send.{send_loop, net_send}
use tcp_svr.Net.Receive.{net_poll_and_rev, net_check_tcp_link}
use tcp_svr.Net.Receive.Outcome.{net_poll_and_rev-positive}
use tcp_svr.Svr.Request.{tcp_msg_len, Request, hello, incomplete, command, parse_request}
use tcp_svr.Svr.Handler1.{text_at, is_refused, answer_request, handle_from, msg_handler1}
use tcp_svr.Svr.Handler1.Acks.{accepted, acks, SendsAll, msg_handler1-acks}
use tcp_svr.Svr.Handler2.{cmd_size}
use tcp_svr.Svr.Connection.{
  tcp_buff_len, Round, again, leave, tick, take_packets, conn_round, conn_loop,
}

-- The answers that one call of recv(2) is owed: none if its bytes are no whole number of MSG_CMD_T structures.
unfoldable pub due : Call → Answer → Bytes
due (Call.recv fd n) a =
    if is_pos a.ret && not (ltb 0 (to_ℕ a.ret % cmd_size))
    then acks (accepted a.bytes (to_ℕ a.ret / tcp_msg_len) 0)
    else []
due c a = []

-- The answers that a history of calls is owed, in order.
unfoldable pub owed : Os → History → Bytes
owed os [] = []
owed os (c ∷ h) = owed os h ++ due c (os h c)

module _ (os : Os) where
  -- Sending is owed nothing.
  send_loop-owed :
      (fd : ℤ) (fuel : ℕ) (p : Bytes) (cnt : ℕ) (ret : ℤ) (h : History)
      → owed os (send_loop os fd fuel p cnt ret h).1 ≡ owed os h
  unfolding send_loop owed due
  send_loop-owed fd fuel [] cnt ret h = refl
  send_loop-owed fd zero (b ∷ p) cnt ret h = refl
  send_loop-owed fd (suc fuel) (b ∷ p) cnt ret h =
      let a = os h (Call.send fd (b ∷ p)) in
      elim (Bool-cases (is_pos a.ret)) [
        | inl more ↦
            rw (more, send_loop)
              (send_loop-owed fd fuel (drop (to_ℕ a.ret) (b ∷ p)) (cnt + to_ℕ a.ret) a.ret _
                ∙ append-nil (owed os h))
        | inr bad ↦ rw (bad, send_loop) (append-nil (owed os h))
      ]

  answer_request-owed :
      (sock ret : ℤ) (h : History) (r : Request)
      → owed os (answer_request os sock ret r h).1 ≡ owed os h
  unfolding answer_request net_send
  answer_request-owed sock ret h hello = refl
  answer_request-owed sock ret h incomplete = refl
  answer_request-owed sock ret h (command a t r) = send_loop-owed sock 3 (codes "ack") 0 (pos 0) h

  handle_from-owed :
      (sock : ℤ) (buf : Bytes) (left i : ℕ) (ret : ℤ) (h : History)
      → owed os (handle_from os sock buf left i ret h).1 ≡ owed os h
  unfolding handle_from
  handle_from-owed sock buf zero i ret h = refl
  handle_from-owed sock buf (suc left) i ret h = elim (Bool-cases (is_refused buf i)) [
    | inl stop ↦ rw (stop, handle_from) refl
    | inr go ↦
        let out = answer_request os sock ret (parse_request (text_at buf i)) h in
        rw (go, handle_from)
          (handle_from-owed sock buf left (i + 1) out.0 out.1
            ∙ answer_request-owed sock ret h (parse_request (text_at buf i)))
  ]

  -- What was put on the wire between two histories is what was owed in between.
  pub record Answers (h h' : History) : Type 0 where
    pub new : Bytes
    pub owes : owed os h' ≡ owed os h ++ new
    pub sends : delivered os h' ≡ delivered os h ++ new

  Answers-none :
      (h h' : History) → owed os h' ≡ owed os h → delivered os h' ≡ delivered os h → Answers h h'
  Answers-none h h' e f = record {
    new = [];
    owes = e ∙ sym (append-nil (owed os h));
    sends = f ∙ sym (append-nil (delivered os h));
  }

  Answers-then : (h g h' : History) → Answers h g → Answers g h' → Answers h h'
  Answers-then h g h' a b = record {
    new = a.new ++ b.new;
    owes = b.owes ∙ ap (λ x. x ++ b.new) a.owes ∙ append_assoc (owed os h) a.new b.new;
    sends = b.sends ∙ ap (λ x. x ++ b.new) a.sends ∙ append_assoc (delivered os h) a.new b.new;
  }

  -- The answers to what one read has brought.
  abbrev reply : ℤ → Bytes → Bytes
  reply len got =
      if is_pos len && not (ltb 0 (to_ℕ len % cmd_size))
      then acks (accepted got (to_ℕ len / tcp_msg_len) 0)
      else []

  -- A poll of the socket sends nothing and is owed the reply to what it reads.
  poll-owed :
      (sock : ℤ) (h : History)
      → let read = net_poll_and_rev os sock tcp_buff_len (pos 1000) h in
        (owed os read.1 ≡ owed os h ++ reply read.0.0 read.0.1)
        × (delivered os read.1 ≡ delivered os h)
  unfolding owed due delivered
  poll-owed sock h =
      let to_select = Call.select sock 1 0 in
      let s = os h to_select in
      let a = os (to_select ∷ h) (Call.recv sock tcp_buff_len) in
      let read = net_poll_and_rev os sock tcp_buff_len (pos 1000) h in
      let (positive, same, calls) = net_poll_and_rev-positive os sock tcp_buff_len 999 h in
      elim (Bool-cases (is_pos s.ret && s.ready)) [
        | inr shut ↦
            let none : is_pos read.0.0 ≡ false = positive ∙ rw shut refl in
            let path : read.1 ≡ to_select ∷ h = calls ∙ rw shut refl in
            (rw (none, path) refl, rw path (append-nil (delivered os h)))
        | inl readable ↦
            let path : read.1 ≡ Call.recv sock tcp_buff_len ∷ to_select ∷ h =
              calls ∙ rw readable refl in
            elim (Bool-cases (is_pos a.ret)) [
              | inr bad ↦
                  let none : is_pos read.0.0 ≡ false = positive ∙ rw (readable, bad) refl in
                  (
                    rw (none, path, bad) (append-nil (owed os h ++ [])),
                    rw path (append-nil (delivered os h ++ []) ∙ append-nil (delivered os h)),
                  )
              | inl good ↦
                  let some_bytes : is_pos read.0.0 ≡ true = positive ∙ rw (readable, good) refl in
                  let (count, bytes) = same some_bytes in
                  (
                    rw (count, bytes, path)
                        (ap (λ x. x ++ reply a.ret a.bytes) (append-nil (owed os h))),
                    rw path (append-nil (delivered os h ++ []) ∙ append-nil (delivered os h)),
                  )
            ]
      ]

  -- What follows the poll.
  abbrev after_poll : ℤ → ℕ → ℤ → Bytes → M Round
  after_poll sock count len got =
      if is_pos len
      then (take_packets os sock count (to_ℕ len) got >>= λ n. pure (tick n))
      else if not (is_zero len)
      then pure (leave count)
      else do
        ret ← net_check_tcp_link os sock
        pure (if eq_ℤ ret (pos 1) then again count else leave count)

  after_poll-replies :
      (sock : ℤ) (count : ℕ) (len : ℤ) (got : Bytes) (g : History)
      → SendsAll os
      → let h' = (after_poll sock count len got g).1 in
        (owed os h' ≡ owed os g) × (delivered os h' ≡ delivered os g ++ reply len got)
  unfolding take_packets owed due delivered net_check_tcp_link msg_handler1
  after_poll-replies sock count len got g all = elim (Bool-cases (is_pos len)) [
    | inl some_bytes ↦ elim (Bool-cases (ltb 0 (to_ℕ len % cmd_size))) [
      | inl broken ↦ rw (some_bytes, broken) (refl, sym (append-nil (delivered os g)))
      | inr whole ↦
          rw (some_bytes, whole)
            (
              handle_from-owed sock got (to_ℕ len / tcp_msg_len) 0 (pos 0) g,
              msg_handler1-acks os sock got (to_ℕ len) g all,
            )
    ]
    | inr none ↦ elim (Bool-cases (is_zero len)) [
      | inl zero_bytes ↦ rw (none, zero_bytes) (append-nil (owed os g), refl)
      | inr bad ↦ rw (none, bad) (refl, sym (append-nil (delivered os g)))
    ]
  ]

  pub conn_round-Answers :
      (sock : ℤ) (count : ℕ) (h : History) → SendsAll os → Answers h (conn_round os sock count h).1
  unfolding conn_round
  conn_round-Answers sock count h all =
      let read = net_poll_and_rev os sock tcp_buff_len (pos 1000) h in
      let (owes, sent_none) = poll-owed sock h in
      let (owes_none, sends) = after_poll-replies sock count read.0.0 read.0.1 read.1 all in
      record {
        new = reply read.0.0 read.0.1;
        owes = owes_none ∙ owes;
        sends = sends ∙ ap (λ x. x ++ reply read.0.0 read.0.1) sent_none;
      }

  -- The rounds behind one that goes on.
  abbrev go_on : ℤ → List Bool → History → Round → (ℕ × Bool) × History
  go_on sock exits g (again n) = conn_loop os sock exits n g
  go_on sock exits g (leave n) = ((n, false), g)

  round-Answers :
      (sock : ℤ) (exits : List Bool) (h g : History) (r : Round)
      → ((n : ℕ) → Answers g (conn_loop os sock exits n g).1)
      → Answers h g
      → Answers h (go_on sock exits g r).1
  round-Answers sock exits h g (again n) later here = Answers-then h g _ here (later n)
  round-Answers sock exits h g (leave n) later here = here

  conn_loop-Answers :
      (sock : ℤ) (exits : List Bool) (count : ℕ) (h : History)
      → SendsAll os
      → Answers h (conn_loop os sock exits count h).1
  unfolding conn_loop
  conn_loop-Answers sock [] count h all = Answers-none h h refl refl
  conn_loop-Answers sock (true ∷ exits) count h all = Answers-none h h refl refl
  conn_loop-Answers sock (false ∷ exits) count h all =
      let r = conn_round os sock count h in
      round-Answers sock exits h r.1 r.0 (λ n. conn_loop-Answers sock exits n r.1 all)
        (conn_round-Answers sock count h all)

  -- Over any run of a connection, whatever the client sends, however it is cut into reads and however often the state is read, the bytes that the connection
  -- puts on the wire are, read by read, the answers owed to what it has received: none for a read that is no whole number of MSG_CMD_T
  -- structures, and else one "ack" for each message that stands before the first refused frame of the read and makes a command; if send(2) takes
  -- all that it is passed.
  pub conn_loop-owed :
      (sock : ℤ) (exits : List Bool)
      → SendsAll os
      → let h' = (conn_loop os sock exits 0 []).1 in delivered os h' ≡ owed os h'
  unfolding owed delivered
  conn_loop-owed sock exits all =
      let a = conn_loop-Answers sock exits 0 [] all in a.sends ∙ sym a.owes
