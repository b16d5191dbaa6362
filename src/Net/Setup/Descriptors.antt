-- ===== src/Net/Setup/Descriptors.antt =====
-- Which descriptors a history leaves open, and what the routines that make a socket do to them.
use tcp_svr.Base.{
  ℕ, List, [], ◌∷◌, Bytes, ℤ, pos, negsuc, is_neg, eq_ℤ, true, false, ◌&&◌, not, if◌then◌else◌, ◌≡◌,
  ◌⊎◌, arith, refl, ap, suc, ◌+◌, ◌<◌, Bool-cases, inl, inr, none, ◌%◌, ◌^◌,
}
use tcp_svr.Os.{Os, Call, History, reuse_addr}
use tcp_svr.Net.Setup.{net_close_sock, net_ser_bind, net_ser_accept, net_conn_tcp_svr}

pub erase : ℤ → List ℤ → List ℤ
erase fd [] = []
erase fd (x ∷ l) = if eq_ℤ x fd then l else x ∷ erase fd l

opened : ℤ → List ℤ → List ℤ
opened fd l = if is_neg fd then l else fd ∷ l

-- What one call, answered by `ret`, makes of the open descriptors.
track : Call → ℤ → List ℤ → List ℤ
unfolding opened erase
track Call.stream_socket ret l = opened ret l
track Call.dgram_socket ret l = opened ret l
track (Call.accept fd) ret l = opened ret l
track (Call.close fd) ret l = erase fd l
track _ ret l = l

-- The descriptors that the code has opened and not closed, the latest first.
pub held : Os → History → List ℤ
unfolding track
held os [] = []
held os (c ∷ h) = track c (os h c).ret (held os h)

pub eq_ℤ_refl : (x : ℤ) → eq_ℤ x x ≡ true
eq_ℤ_refl (pos n) = ground arith
eq_ℤ_refl (negsuc n) = ground arith

-- NET_Ser_Accept returns the one descriptor that it opens, or an error having opened none.
pub net_ser_accept-held :
    (os : Os) (fd : ℤ) (timeout : ℕ) (h : History)
    → let out = net_ser_accept os fd timeout h in
      ((is_neg out.0.0 ≡ true) × (held os out.1 ≡ held os h))
      ⊎ ((is_neg out.0.0 ≡ false) × (held os out.1 ≡ out.0.0 ∷ held os h))
unfolding net_ser_accept held
net_ser_accept-held os fd timeout h = ground arith

-- If socket(2) fails by -1 only, NET_ConnTcpSvr returns the one descriptor that it has left open, or
-- an error with every descriptor that it opened closed again.
pub net_conn_tcp_svr-held :
    (os : Os) (svr : Bytes) (port : ℤ) (h : History)
    → ((g : History)
        → is_neg (os g Call.stream_socket).ret ≡ true
        → (os g Call.stream_socket).ret ≡ negsuc 0)
    → let out = net_conn_tcp_svr os svr port h in
      ((is_neg out.0 ≡ true) × (held os out.1 ≡ held os h))
      ⊎ ((is_neg out.0 ≡ false) × (held os out.1 ≡ out.0 ∷ held os h))
unfolding net_conn_tcp_svr net_close_sock held
net_conn_tcp_svr-held os svr port h minus_one =
    ground (arith, minus_one h, eq_ℤ_refl (os h Call.stream_socket).ret)

-- NET_Ser_Bind fails exactly where socket(2) fails. Where bind(2) or listen(2) fails it returns the
-- descriptor all the same, and leaves nothing open: the caller is handed a closed descriptor.
pub net_ser_bind-held :
    (os : Os) (port timeout_ms : ℕ) (h : History)
    → let s = (os h Call.stream_socket).ret in
      let h_opt = Call.setsockopt s reuse_addr ∷ Call.stream_socket ∷ h in
      let to_bind = Call.bind s none (port % 2 ^ 16) in
      let bound = not (is_neg (os h_opt to_bind).ret) in
      let listening = not (is_neg (os (to_bind ∷ h_opt) (Call.listen s 256)).ret) in
      let out = net_ser_bind os port timeout_ms h in
      (out.0 ≡ s)
      × (held os out.1
          ≡ (if not (is_neg s) && bound && listening then s ∷ held os h else held os h))
unfolding net_ser_bind net_close_sock held
net_ser_bind-held os port timeout_ms h = ground (arith, eq_ℤ_refl (os h Call.stream_socket).ret)

-- NET_CloseSock closes a descriptor that is not negative.
pub held-net_close_sock :
    (os : Os) (fd : ℤ) (h : History)
    → held os (net_close_sock os fd h).1 ≡ (if is_neg fd then held os h else erase fd (held os h))
unfolding held net_close_sock
held-net_close_sock os fd h = ground arith

-- How often a descriptor stands in a list.
pub count : ℤ → List ℤ → ℕ
count x [] = 0
count x (y ∷ l) = (if eq_ℤ y x then 1 else 0) + count x l

pub eq_ℤ_eq : (x y : ℤ) → eq_ℤ x y ≡ true → x ≡ y
eq_ℤ_eq (pos m) (pos n) e = ap pos (ground arith)
eq_ℤ_eq (negsuc m) (negsuc n) e = ap negsuc (ground arith)
eq_ℤ_eq (pos m) (negsuc n) e = cc
eq_ℤ_eq (negsuc m) (pos n) e = cc

pub count-cons : (x y : ℤ) (l : List ℤ) → count x (y ∷ l) ≡ (if eq_ℤ y x then 1 else 0) + count x l
unfolding count
count-cons x y l = refl

pub count-cons_self : (x : ℤ) (l : List ℤ) → count x (x ∷ l) ≡ suc (count x l)
unfolding count
count-cons_self x l = rw (eq_ℤ_refl x) (omega arith)

-- Closing a descriptor that is held takes one of it away.
pub count-erase :
    (x y : ℤ) (l : List ℤ)
    → 0 < count y l
    → count x l ≡ (if eq_ℤ y x then 1 else 0) + count x (erase y l)
unfolding count erase
count-erase x y [] p = absurd (omega arith)
count-erase x y (z ∷ l) p = elim (Bool-cases (eq_ℤ z y)) [
  | inl same ↦ rw (same, eq_ℤ_eq z y same)
  | inr other ↦
      let held_later : 0 < count y l = omega (arith, rw other at p) in
      rw other (omega (arith, count-erase x y l held_later))
]

pub erase-head : (x : ℤ) (l : List ℤ) → erase x (x ∷ l) ≡ l
unfolding erase
erase-head x l = rw (eq_ℤ_refl x)

pub count-nil : (x : ℤ) → count x [] ≡ 0
unfolding count
count-nil x = refl
