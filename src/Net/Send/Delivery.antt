-- ===== src/Net/Send/Delivery.antt =====
-- What NET_Send puts on the wire, and what it returns.
use tcp_svr.Base.{
  ℕ, zero, suc, ◌+◌, ◌≤◌, ◌<◌, Bytes, [], ◌∷◌, ◌++◌, some, length, take, drop, ℤ, pos, negsuc, to_ℕ,
  is_pos, true, false, ◌≡◌, refl, sym, ap, ◌∙◌, ◌⊎◌, inl, inr, arith, append_assoc, append-nil,
  take-append-take, drop-drop, length-drop, Bool-cases,
}
use tcp_svr.Os.{Os, Call, History, delivered, SendBounded}
use tcp_svr.Net.Send.{Sending, send_loop, sent, net_send}

-- The loop went from bytes `p` and history `h` to state `s` and history `h'`, taking `n` bytes.
record Sends (os : Os) (fd : ℤ) (p : Bytes) (h : History) (cnt : ℕ) (ret : ℤ) (s : Sending)
    (h' : History) (n : ℕ) : Type 0 where
  fits : n ≤ length p
  wire : delivered os h' ≡ delivered os h ++ take n p
  counted : s.cnt ≡ cnt + n
  left : s.rest ≡ drop n p
  ended :
      ((n ≡ length p) × ((is_pos s.ret ≡ true) ⊎ ((n ≡ 0) × (s.ret ≡ ret))))
      ⊎ ((g : History) × (n < length p)
          × (h' ≡ Call.send fd (drop n p) ∷ g)
          × (is_pos (os g (Call.send fd (drop n p))).ret ≡ false))

is_pos-to_ℕ : (r : ℤ) → is_pos r ≡ true → 0 < to_ℕ r
is_pos-to_ℕ r e = ground arith

take_none : (r : ℤ) (p : Bytes) → is_pos r ≡ false → take (to_ℕ r) p ≡ []
take_none (pos zero) p e = refl
take_none (pos (suc n)) p e = cc
take_none (negsuc n) p e = refl

module _ (os : Os) (fd : ℤ) (bounded : SendBounded os) where
  -- A round that takes bytes, followed by the rest of the loop.
  Sends-more :
      (p : Bytes) (h : History) (cnt n : ℕ) (ret r : ℤ) (s : Sending) (h' : History)
      → (os h (Call.send fd p)).ret ≡ r
      → is_pos r ≡ true
      → to_ℕ r ≤ length p
      → Sends os fd (drop (to_ℕ r) p) (Call.send fd p ∷ h) (cnt + to_ℕ r) r s h' n
      → Sends os fd p h cnt ret s h' (to_ℕ r + n)
  unfolding delivered
  Sends-more p h cnt n ret r s h' answer more fit rest = record {
    fits = omega (arith, rest.fits, length-drop (to_ℕ r) p);
    wire =
        rest.wire
        ∙ rw answer (
            append_assoc (delivered os h) _ _
            ∙ ap (◌++◌ (delivered os h)) (take-append-take (to_ℕ r) n p));
    counted = omega (arith, rest.counted);
    left = rest.left ∙ drop-drop (to_ℕ r) n p;
    ended = elim rest.ended [
      | inl (all, inl good) ↦ inl (omega (arith, length-drop (to_ℕ r) p), inl good)
      | inl (all, inr (z, same)) ↦ inl (omega (arith, length-drop (to_ℕ r) p), inl (rw same more))
      | inr (g, short, last, bad) ↦ inr (
        g,
        omega (arith, length-drop (to_ℕ r) p),
        rw (← drop-drop (to_ℕ r) n p) last,
        rw (← drop-drop (to_ℕ r) n p) bad,
      )
    ];
  }

  Sends-none :
      (p : Bytes) (h : History) (cnt : ℕ) (ret : ℤ)
      → is_pos (os h (Call.send fd p)).ret ≡ false
      → 0 < length p
      → Sends os fd p h cnt ret
          (record { ret = (os h (Call.send fd p)).ret; cnt = cnt; rest = p })
          (Call.send fd p ∷ h)
          0
  unfolding delivered
  Sends-none p h cnt ret bad some_left = record {
    fits = omega arith;
    wire = ap (◌++◌ (delivered os h)) (take_none (os h (Call.send fd p)).ret p bad);
    counted = omega arith;
    left = refl;
    ended = inr (h, some_left, refl, bad);
  }

  send_loop-Sends :
      (fuel : ℕ) (p : Bytes) (cnt : ℕ) (ret : ℤ) (h : History)
      → length p ≤ fuel
      → let out = send_loop os fd fuel p cnt ret h in
        (n : ℕ) × Sends os fd p h cnt ret out.0 out.1 n
  unfolding send_loop
  send_loop-Sends fuel [] cnt ret h f = (
    0,
    record {
      fits = omega arith;
      wire = sym (append-nil (delivered os h));
      counted = omega arith;
      left = refl;
      ended = inl (refl, inr (refl, refl));
    },
  )
  send_loop-Sends zero (b ∷ p) cnt ret h f = absurd (omega arith)
  send_loop-Sends (suc fuel) (b ∷ p) cnt ret h f =
      elim (Bool-cases (is_pos (os h (Call.send fd (b ∷ p))).ret)) [
        | inl more ↦
            let r = (os h (Call.send fd (b ∷ p))).ret in
            let step = bounded h fd (b ∷ p) in
            let (n, rest) =
              send_loop-Sends fuel (drop (to_ℕ r) (b ∷ p)) (cnt + to_ℕ r) r
                (Call.send fd (b ∷ p) ∷ h)
                (omega (arith, length-drop (to_ℕ r) (b ∷ p), is_pos-to_ℕ r more)) in
            (
              to_ℕ r + n,
              rw (more, send_loop) (Sends-more (b ∷ p) h cnt n ret r _ _ refl more step rest),
            )
        | inr bad ↦ (0, rw (bad, send_loop) (Sends-none (b ∷ p) h cnt ret bad (omega arith)))
      ]

drop_all : (n : ℕ) (p : Bytes) → length p ≤ n → drop n p ≡ []
drop_all zero [] h = refl
drop_all (suc n) [] h = refl
drop_all zero (b ∷ p) h = absurd (omega arith)
drop_all (suc n) (b ∷ p) h = drop_all n p (omega arith)

sent_all : (s : Sending) → s.rest ≡ [] → sent s ≡ s.ret
unfolding sent
sent_all s e = rw e

sent_some : (s : Sending) → 0 < length s.rest → sent s ≡ pos s.cnt
unfolding sent
sent_some s h = grind arith

-- NET_Send on a nonempty buffer puts a prefix of it on the wire, each byte once and in order, after
-- all that was there before, if send(2) never takes more than it is passed. Either the prefix is
-- the whole buffer and the result is positive, or the last call, made for exactly the bytes that
-- are left, took none and the result is the length of the prefix.
pub net_send-delivers :
    (os : Os) (fd : ℤ) (buf : Bytes) (h : History)
    → SendBounded os
    → 0 < length buf
    → let out = net_send os fd (some buf) h in
      (n : ℕ) × (delivered os out.1 ≡ delivered os h ++ take n buf)
      × (((n ≡ length buf) × (is_pos out.0 ≡ true))
          ⊎ ((g : History) × (n < length buf)
              × (out.0 ≡ pos n)
              × (out.1 ≡ Call.send fd (drop n buf) ∷ g)
              × (is_pos (os g (Call.send fd (drop n buf))).ret ≡ false)))
unfolding net_send
net_send-delivers os fd [] h bounded ne = absurd (omega arith)
net_send-delivers os fd (b ∷ p) h bounded ne =
    let (n, s) = send_loop-Sends os fd bounded (length (b ∷ p)) (b ∷ p) 0 (pos 0) h (omega arith) in
    let end = (send_loop os fd (length (b ∷ p)) (b ∷ p) 0 (pos 0) h).0 in
    let counted : end.cnt ≡ n = omega (arith, s.counted) in
    (
      n,
      s.wire,
      elim s.ended [
        | inl (all, inl good) ↦
            inl (all, rw (sent_all end (s.left ∙ drop_all n (b ∷ p) (omega arith))) good)
        | inl (all, inr (z, same)) ↦ absurd (omega arith)
        | inr (g, short, last, bad) ↦ inr (
          g,
          short,
          sent_some end (rw s.left (omega (arith, length-drop n (b ∷ p)))) ∙ ap pos counted,
          last,
          bad,
        )
      ],
    )
