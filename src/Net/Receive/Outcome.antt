-- ===== src/Net/Receive/Outcome.antt =====
-- What the receiving routines return.
use tcp_svr.Base.{
  ℕ, zero, suc, ◌+◌, ◌-◌, ◌*◌, ◌/◌, ◌%◌, ◌≤◌, ◌<◌, Bytes, [], ◌∷◌, ◌++◌, ℤ, pos, to_ℕ, is_pos, true,
  false, ◌&&◌, if◌then◌else◌, ◌≡◌, refl, ◌⊎◌, inl, inr, arith, length, length-append, Bool-cases,
  ◌∙◌, sym, append_assoc, append-nil,
}
use tcp_svr.Os.{Os, Call, History, Answer}
use tcp_svr.Net.Receive.{rev_loop, net_rev, poll_recv, hang_up, net_poll_and_rev}

-- The bytes that the calls of a history have stored, in order.
abbrev pub stored_by : Call → Answer → Bytes
stored_by (Call.recv fd n) a = if is_pos a.ret then a.bytes else []
stored_by _ a = []

pub received : Os → History → Bytes
received os [] = []
received os (c ∷ h) = received os h ++ stored_by c (os h c)

-- recv(2): it stores as many bytes as it returns, and no more than was asked for.
abbrev pub RecvBounded : Os → Type 0
RecvBounded os =
    (h : History) (fd : ℤ) (n : ℕ)
    → is_pos (os h (Call.recv fd n)).ret ≡ true
    → (length (os h (Call.recv fd n)).bytes ≡ to_ℕ (os h (Call.recv fd n)).ret)
      × (to_ℕ (os h (Call.recv fd n)).ret ≤ n)

-- NET_PollAndRev returns a positive count exactly where `select` found the socket readable and
-- `recv` returned that count, and then the bytes are those of that call. It calls `recv` at most
-- once, and only after a `select` with a positive result and the socket set.
pub net_poll_and_rev-positive :
    (os : Os) (fd : ℤ) (len ms : ℕ) (h : History)
    → let to_select = Call.select fd (suc ms / 1000) (suc ms % 1000 * 1000) in
      let s = os h to_select in
      let a = os (to_select ∷ h) (Call.recv fd len) in
      let out = net_poll_and_rev os fd len (pos (suc ms)) h in
      (is_pos out.0.0 ≡ is_pos s.ret && s.ready && is_pos a.ret)
      × (is_pos out.0.0 ≡ true → (out.0.0 ≡ a.ret) × (out.0.1 ≡ a.bytes))
      × (out.1
          ≡ (if is_pos s.ret && s.ready then Call.recv fd len ∷ to_select ∷ h else to_select ∷ h))
unfolding net_poll_and_rev poll_recv hang_up
net_poll_and_rev-positive os fd len ms h = ground arith

-- The loop added `new` to the buffer, with `len` bytes wanted before.
record Revs (os : Os) (fd : ℤ) (len : ℕ) (h : History) (cnt : ℕ) (got : Bytes) (out : ℕ × Bytes)
    (h' : History) (new : Bytes) : Type 0 where
  fits : length new ≤ len
  counted : out.0 ≡ cnt + length new
  stored : out.1 ≡ got ++ new
  wire : received os h' ≡ received os h ++ new
  ended :
      (length new ≡ len)
      ⊎ ((g : History) × (length new < len)
          × (h' ≡ Call.recv fd (len - length new) ∷ g)
          × (is_pos (os g (Call.recv fd (len - length new))).ret ≡ false))

is_pos-to_ℕ : (r : ℤ) → is_pos r ≡ true → 0 < to_ℕ r
is_pos-to_ℕ r e = ground arith

module _ (os : Os) (fd : ℤ) (bounded : RecvBounded os) where
  Revs-more :
      (len : ℕ) (h : History) (cnt : ℕ) (got new : Bytes) (out : ℕ × Bytes) (h' : History)
      → let a = os h (Call.recv fd len) in
        is_pos a.ret ≡ true
        → Revs os fd
            (len - to_ℕ a.ret)
            (Call.recv fd len ∷ h)
            (cnt + to_ℕ a.ret)
            (got ++ a.bytes)
            out
            h'
            new
        → Revs os fd len h cnt got out h' (a.bytes ++ new)
  unfolding received
  Revs-more len h cnt got new out h' more rest =
      let a = os h (Call.recv fd len) in
      let (same, fit) = bounded h fd len more in
      let long : length (a.bytes ++ new) ≡ to_ℕ a.ret + length new =
        omega (arith, length-append a.bytes new) in
      let left : len - length (a.bytes ++ new) ≡ len - to_ℕ a.ret - length new = omega arith in
      record {
        fits = omega (arith, rest.fits);
        counted = omega (arith, rest.counted);
        stored = rest.stored ∙ append_assoc got a.bytes new;
        wire = rest.wire ∙ rw more (append_assoc (received os h) a.bytes new);
        ended = elim rest.ended [
          | inl all ↦ inl (omega arith)
          | inr (g, short, last, bad) ↦ inr (g, omega arith, rw left last, rw left bad)
        ];
      }

  rev_loop-Revs :
      (fuel len cnt : ℕ) (got : Bytes) (h : History)
      → len ≤ fuel
      → let out = rev_loop os fd fuel len cnt got h in
        (new : Bytes) × Revs os fd len h cnt got out.0 out.1 new
  unfolding rev_loop received
  rev_loop-Revs zero zero cnt got h f = (
    [],
    record {
      fits = omega arith;
      counted = omega arith;
      stored = sym (append-nil got);
      wire = sym (append-nil (received os h));
      ended = inl refl;
    },
  )
  rev_loop-Revs zero (suc len) cnt got h f = absurd (omega arith)
  rev_loop-Revs (suc fuel) zero cnt got h f = (
    [],
    record {
      fits = omega arith;
      counted = omega arith;
      stored = sym (append-nil got);
      wire = sym (append-nil (received os h));
      ended = inl refl;
    },
  )
  rev_loop-Revs (suc fuel) (suc len) cnt got h f =
      let a = os h (Call.recv fd (suc len)) in
      let whole : suc len - 0 ≡ suc len = omega arith in
      elim (Bool-cases (is_pos a.ret)) [
        | inl more ↦
            let (new, rest) =
              rev_loop-Revs fuel (suc len - to_ℕ a.ret) (cnt + to_ℕ a.ret) (got ++ a.bytes)
                (Call.recv fd (suc len) ∷ h) (omega (arith, is_pos-to_ℕ a.ret more)) in
            (a.bytes ++ new, rw (more, rev_loop) (Revs-more (suc len) h cnt got new _ _ more rest))
        | inr bad ↦ (
          [],
          rw (bad, rev_loop)
              (record {
                fits = omega arith;
                counted = omega arith;
                stored = sym (append-nil got);
                wire = rw bad;
                ended = inr (h, omega arith, rw whole refl, rw whole bad);
              }),
        )
      ]

-- NET_Rev, given a buffer and a positive length, stores the bytes that its `recv` calls delivered, in
-- order, and returns their number. It stops short of `len` only after a call that returned no
-- bytes, if recv(2) returns as many bytes as it stores and at most what it was asked for.
pub net_rev-receives :
    (os : Os) (fd : ℤ) (len : ℕ) (h : History)
    → RecvBounded os
    → let out = net_rev os fd true (pos (suc len)) h in
      (out.0.0 ≡ pos (length out.0.1))
      × (received os out.1 ≡ received os h ++ out.0.1)
      × ((length out.0.1 ≡ suc len)
          ⊎ ((g : History) × (length out.0.1 < suc len)
              × (out.1 ≡ Call.recv fd (suc len - length out.0.1) ∷ g)
              × (is_pos (os g (Call.recv fd (suc len - length out.0.1))).ret ≡ false)))
unfolding net_rev
net_rev-receives os fd len h bounded =
    let (new, s) = rev_loop-Revs os fd bounded (suc len) (suc len) 0 [] h (omega arith) in
    rw s.stored (ground (arith, s.counted), s.wire, s.ended)
