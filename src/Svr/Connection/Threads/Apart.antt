-- ===== src/Svr/Connection/Threads/Apart.antt =====
-- No answer goes to another socket, whatever the order of the threads' rounds.
use tcp_svr.Base.{
  ℕ, zero, suc, Bytes, List, [], ◌∷◌, ◌++◌, ℤ, eq_ℤ, true, false, if◌then◌else◌, ◌≡◌, refl, sym, ap,
  ◌∙◌, subst, inl, inr, Bool-cases, append-nil, append_assoc,
}
use mathlib.Core.List
use tcp_svr.Os.{Os, Call, Answer, History, taken, delivered}
use tcp_svr.Net.Setup.Descriptors.{eq_ℤ_eq}
use tcp_svr.Svr.Handler1.Acks.{SendsAll}
use tcp_svr.Svr.Connection.Stream.{due, owed, Answers, conn_round-Answers}
use tcp_svr.Svr.Connection.Threads.{Thread, step, turn, turns, is_on, delivered_on, owed_on}
use tcp_svr.Svr.Connection.Threads.Own.{Own, same, more, conn_round-Own}

-- A call on one socket adds nothing for another.
abbrev Silent : ℤ → Call → Answer → Type 0
Silent t c a =
    ((if is_on t c then due c a else []) ≡ []) × ((if is_on t c then taken c a else []) ≡ [])

elsewhere : (fd s t : ℤ) → eq_ℤ fd s ≡ true → eq_ℤ s t ≡ false → eq_ℤ fd t ≡ false
elsewhere fd s t here other = ap (λ x. eq_ℤ x t) (eq_ℤ_eq fd s here) ∙ other

silent : (s t : ℤ) (c : Call) (a : Answer) → eq_ℤ s t ≡ false → is_on s c ≡ true → Silent t c a
unfolding is_on due
silent s t (Call.send fd bs) a other here = rw (elsewhere fd s t here other) (refl, refl)
silent s t (Call.recv fd n) a other here = rw (elsewhere fd s t here other) (refl, refl)
silent s t Call.stream_socket a other here = (refl, refl)
silent s t Call.dgram_socket a other here = (refl, refl)
silent s t (Call.shutdown fd) a other here = (refl, refl)
silent s t (Call.close fd) a other here = (refl, refl)
silent s t (Call.getsockname fd) a other here = (refl, refl)
silent s t (Call.getpeername fd) a other here = (refl, refl)
silent s t (Call.accept fd) a other here = (refl, refl)
silent s t (Call.tcp_info fd) a other here = (refl, refl)
silent s t (Call.setsockopt fd o) a other here = (refl, refl)
silent s t (Call.bind fd ip port) a other here = (refl, refl)
silent s t (Call.listen fd n) a other here = (refl, refl)
silent s t (Call.listen_max fd) a other here = (refl, refl)
silent s t (Call.connect fd ip port) a other here = (refl, refl)
silent s t (Call.select fd sec usec) a other here = (refl, refl)
silent s t (Call.select_forever fd) a other here = (refl, refl)

module _ (os : Os) where
  -- What a socket's own calls add, to it and to all.
  record Adds (s : ℤ) (h h' : History) : Type 0 where
    received : Bytes
    sent : Bytes
    owes : owed os h' ≡ owed os h ++ received
    owes_on : owed_on os s h' ≡ owed_on os s h ++ received
    sends : delivered os h' ≡ delivered os h ++ sent
    sends_on : delivered_on os s h' ≡ delivered_on os s h ++ sent

  Own-Adds : (s : ℤ) (h h' : History) → Own s h h' → Adds s h h'
  unfolding owed owed_on delivered delivered_on
  Own-Adds s h _ same = record {
    received = [];
    sent = [];
    owes = sym (append-nil _);
    owes_on = sym (append-nil _);
    sends = sym (append-nil _);
    sends_on = sym (append-nil _);
  }
  Own-Adds s h _ (more {g} {c} before here) =
      let a = Own-Adds s h g before in
      let one = os g c in
      record {
        received = a.received ++ due c one;
        sent = a.sent ++ taken c one;
        owes = ap (λ x. x ++ due c one) a.owes ∙ append_assoc (owed os h) a.received (due c one);
        owes_on = rw here (
            ap (λ x. x ++ due c one) a.owes_on
            ∙ append_assoc (owed_on os s h) a.received (due c one));
        sends =
            ap (λ x. x ++ taken c one) a.sends ∙ append_assoc (delivered os h) a.sent (taken c one);
        sends_on = rw here (
            ap (λ x. x ++ taken c one) a.sends_on
            ∙ append_assoc (delivered_on os s h) a.sent (taken c one));
      }

  Own-other :
      (s t : ℤ) (h h' : History)
      → eq_ℤ s t ≡ false
      → Own s h h'
      → (owed_on os t h' ≡ owed_on os t h) × (delivered_on os t h' ≡ delivered_on os t h)
  unfolding owed_on delivered_on
  Own-other s t h _ other same = (refl, refl)
  Own-other s t h _ other (more {g} {c} before here) =
      let (owes, sends) = Own-other s t h g other before in
      let (no_due, no_bytes) = silent s t c (os g c) other here in
      (
        ap (λ x. owed_on os t g ++ x) no_due ∙ append-nil (owed_on os t g) ∙ owes,
        ap (λ x. delivered_on os t g ++ x) no_bytes ∙ append-nil (delivered_on os t g) ∙ sends,
      )

  -- Each socket was sent what it is owed.
  abbrev Served : History → Type 0
  Served h = (t : ℤ) → delivered_on os t h ≡ owed_on os t h

  Answers-Served : (s : ℤ) (h h' : History) → Own s h h' → Answers os h h' → Served h → Served h'
  Answers-Served s h h' own answers served t = elim (Bool-cases (eq_ℤ s t)) [
    | inr other ↦ let (owes, sends) = Own-other s t h h' other own in sends ∙ served t ∙ sym owes
    | inl here ↦
        let a = Own-Adds s h h' own in
        let sent : a.sent ≡ answers.new =
          List.append_cancel_left (delivered os h) a.sent answers.new
            (sym a.sends ∙ answers.sends) in
        let received : a.received ≡ answers.new =
          List.append_cancel_left (owed os h) a.received answers.new (sym a.owes ∙ answers.owes) in
        subst (λ x. delivered_on os x h' ≡ owed_on os x h') (eq_ℤ_eq s t here)
          (a.sends_on
            ∙ ap (λ x. x ++ a.sent) (served s)
            ∙ ap (λ x. owed_on os s h ++ x) (sent ∙ sym received)
            ∙ sym a.owes_on)
  ]

  step-Served : (th : Thread) (h : History) → SendsAll os → Served h → Served (step os th h).1
  unfolding step
  step-Served th h all served = elim (Bool-cases th.running) [
    | inr done ↦ rw done served
    | inl runs ↦ rw runs (
        Answers-Served th.sock h _ (conn_round-Own os th.sock th.count h)
          (conn_round-Answers os th.sock th.count h all) served)
  ]

  turn-Served :
      (i : ℕ) (ts : List Thread) (h : History) → SendsAll os → Served h → Served (turn os i ts h).1
  unfolding turn
  turn-Served i [] h all served = served
  turn-Served zero (t ∷ ts) h all served = step-Served t h all served
  turn-Served (suc i) (t ∷ ts) h all served = turn-Served i ts h all served

  turns-Served :
      (is : List ℕ) (ts : List Thread) (h : History)
      → SendsAll os
      → Served h
      → Served (turns os is ts h).1
  unfolding turns
  turns-Served [] ts h all served = served
  turns-Served (i ∷ is) ts h all served =
      let out = turn os i ts h in turns-Served is out.0 out.1 all (turn-Served i ts h all served)

  -- However the rounds of any number of connections' threads follow each other, and whatever their clients send, each
  -- socket is sent the answers to what was received on it, in its order, and nothing else, if send(2) takes all that it is passed.
  pub turns-owed :
      (is : List ℕ) (ts : List Thread) (s : ℤ)
      → SendsAll os
      → let h' = (turns os is ts []).1 in delivered_on os s h' ≡ owed_on os s h'
  unfolding owed_on delivered_on
  turns-owed is ts s all = turns-Served is ts [] all (λ t. refl) s
