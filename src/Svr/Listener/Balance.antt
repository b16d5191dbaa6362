-- ===== src/Svr/Listener/Balance.antt =====
-- The sockets in the table of clients, and the descriptors that are open.
use tcp_svr.Base.{
  ℕ, zero, suc, ◌+◌, ◌<◌, Bytes, List, [], ◌∷◌, Option, none, some, set, length, replicate, ℤ,
  negsuc, is_neg, Bool, false, leb, eq_ℤ, if◌then◌else◌, ◌≡◌, refl, ap, ◌∙◌, arith, Bool-cases, inl,
  inr,
}
use tcp_svr.Os.{Os, History}
use tcp_svr.Net.Setup.{net_close_sock, net_ser_accept}
use tcp_svr.Net.Setup.Descriptors.{
  held, erase, count, count-nil, count-cons, count-cons_self, count-erase, erase-head,
  held-net_close_sock, net_ser_accept-held,
}
use tcp_svr.Svr.Listener.{
  max_tcp_client, Entity, Table, tcp_svr_create, tcp_svr_destroy, first_free, install, admit, sweep,
  listen_round, end_thread, Event, round, ended, serve, initial, tcp_svr_close,
}
use tcp_svr.Svr.Listener.Slots.{
  IsEntity, SlotsFrom, IsTable, age-zero, reap-cases, listen_round-IsTable, serve-IsTable,
  initial-IsTable, end_thread-SlotsFrom, length-end_thread,
}

-- The sockets of the clients in the table.
abbrev pub socks : Table → List ℤ
socks [] = []
socks (none ∷ t) = socks t
socks (some e ∷ t) = e.conn_tcp_sock ∷ socks t

-- Each descriptor is held as often as it stands in the table, and `extra` times more.
abbrev pub Balanced : Os → (ℤ → ℕ) → Table → History → Type 0
Balanced os extra t h = (fd : ℤ) → count fd (held os h) ≡ extra fd + count fd (socks t)

pub no_socks : (n : ℕ) → socks (replicate n none) ≡ []
no_socks zero = refl
no_socks (suc n) = no_socks n

module _ (os : Os) where
  held-destroy :
      (i : ℕ) (e : Entity) (h : History)
      → IsEntity i e
      → held os (tcp_svr_destroy os e h).1 ≡ erase e.conn_tcp_sock (held os h)
  unfolding tcp_svr_destroy
  held-destroy i e h f =
      held-net_close_sock os e.data_sock (net_close_sock os e.conn_tcp_sock h).1
      ∙ rw (f.no_data_sock) (held-net_close_sock os e.conn_tcp_sock h ∙ rw f.connected)

  -- One entity is taken out of the table and its socket closed.
  destroy-Balanced :
      (extra : ℤ → ℕ) (i : ℕ) (e : Entity) (t : Table) (h : History)
      → IsEntity i e
      → Balanced os extra (some e ∷ t) h
      → Balanced os extra t (tcp_svr_destroy os e h).1
  destroy-Balanced extra i e t h f b fd = rw (held-destroy i e h f) (
      let x = e.conn_tcp_sock in
      let p : 0 < count x (held os h) = omega (arith, b x, count-cons_self x (socks t)) in
      omega (arith, b fd, count-cons fd x (socks t), count-erase fd x (held os h) p))

  sweep-Balanced :
      (extra : ℤ → ℕ) (i : ℕ) (t : Table) (h : History)
      → SlotsFrom i t
      → Balanced os extra t h
      → Balanced os extra (sweep os t h).0 (sweep os t h).1
  unfolding sweep
  sweep-Balanced extra i [] h s b = b
  sweep-Balanced extra i (none ∷ t) h s b = sweep-Balanced extra (suc i) t h s b
  sweep-Balanced extra i (some e ∷ t) h (f, s) b =
      rw (age-zero e e.timeout f.no_handshake) (elim (reap-cases os e e.state h) [
        | inl gone ↦
            rw gone (sweep-Balanced extra (suc i) t _ s (destroy-Balanced extra i e t h f b))
        | inr kept ↦ rw kept (λ fd.
            let one : ℤ → ℕ = λ d. extra d + (if eq_ℤ e.conn_tcp_sock d then 1 else 0) in
            let rest =
              sweep-Balanced one (suc i) t h s
                (λ d. omega (arith, b d, count-cons d e.conn_tcp_sock (socks t))) fd in
            omega (arith, rest, count-cons fd e.conn_tcp_sock (socks (sweep os t h).0)))
      ])

  count-set :
      (fd : ℤ) (t : Table) (e : Entity)
      → first_free t < length t
      → count fd (socks (set t (first_free t) (some e)))
        ≡ (if eq_ℤ e.conn_tcp_sock fd then 1 else 0) + count fd (socks t)
  unfolding first_free
  count-set fd [] e p = absurd (omega arith)
  count-set fd (none ∷ t) e p = count-cons fd e.conn_tcp_sock (socks t)
  count-set fd (some d ∷ t) e p = omega (
    arith,
    count-set fd t e (omega arith),
    count-cons fd d.conn_tcp_sock (socks t),
    count-cons fd d.conn_tcp_sock (socks (set t (first_free t) (some e))),
  )

  -- The socket just accepted is closed again.
  close-Balanced :
      (extra : ℤ → ℕ) (sock : ℤ) (t : Table) (g h : History)
      → is_neg sock ≡ false
      → held os h ≡ sock ∷ held os g
      → Balanced os extra t g
      → Balanced os extra t (net_close_sock os sock h).1
  close-Balanced extra sock t g h c e b fd =
      rw (held-net_close_sock os sock h, c, e, erase-head sock (held os g)) (b fd)

  -- It goes into a free slot, or is closed if there is no entity for it.
  install-Balanced :
      (extra : ℤ → ℕ) (sock : ℤ) (t : Table) (o : Option Entity) (g h : History)
      → is_neg sock ≡ false
      → held os h ≡ sock ∷ held os g
      → first_free t < length t
      → ((e : Entity) → o ≡ some e → e.conn_tcp_sock ≡ sock)
      → Balanced os extra t g
      → let out = install os sock t (first_free t) o h in Balanced os extra out.0 out.1
  unfolding install
  install-Balanced extra sock t none g h c e p made b fd = close-Balanced extra sock t g h c e b fd
  install-Balanced extra sock t (some x) g h c e p made b fd =
      rw (e) (omega (arith, b fd, count-set fd t x p, count-cons fd sock (held os g), same_sock))
    where
      same_sock :
          ◌≡◌ {A = ℕ} (if eq_ℤ x.conn_tcp_sock fd then 1 else 0) (if eq_ℤ sock fd then 1 else 0)
      same_sock = rw (made x refl)

  created_sock :
      (allocated started : Bool) (sock : ℤ) (client : Bytes) (i : ℕ) (e : Entity)
      → tcp_svr_create allocated started sock client (negsuc 0) i ≡ some e
      → e.conn_tcp_sock ≡ sock
  unfolding tcp_svr_create
  created_sock allocated started sock client i e made = ground arith

  admit-Balanced :
      (extra : ℤ → ℕ) (allocated started : Bool) (sock : ℤ) (client : Bytes) (t : Table)
      (g h : History)
      → is_neg sock ≡ false
      → held os h ≡ sock ∷ held os g
      → IsTable t
      → Balanced os extra t g
      → let out = admit os allocated started sock client t h in Balanced os extra out.0 out.1
  unfolding admit
  admit-Balanced extra allocated started sock client t g h c e v b =
      elim (Bool-cases (leb max_tcp_client (first_free t))) [
        | inl crowded ↦ rw crowded (close-Balanced extra sock t g h c e b)
        | inr room ↦ rw room (
            install-Balanced extra sock t _ g h c e (below room)
              (λ x made. created_sock allocated started sock client (first_free t) x made) b)
      ]
    where
      below : leb max_tcp_client (first_free t) ≡ false → first_free t < length t
      below room = rw v.full_length (ground arith)

  pub listen_round-Balanced :
      (extra : ℤ → ℕ) (listener : ℤ) (allocated started : Bool) (t : Table) (h : History)
      → IsTable t
      → Balanced os extra t h
      → let out = listen_round os listener allocated started t h in Balanced os extra out.0 out.1
  unfolding listen_round
  listen_round-Balanced extra listener allocated started t h v b =
      let a = net_ser_accept os listener 5000 h in
      elim (net_ser_accept-held os listener 5000 h) [
        | inl (bad, same) ↦ rw bad (sweep-Balanced extra 0 t a.1 v.slots (rw same b))
        | inr (good, more) ↦
            rw good (admit-Balanced extra allocated started a.0.0 a.0.1 t h a.1 good more v b)
      ]

  pub socks-end_thread : (k : ℕ) (t : Table) → socks (end_thread k t) ≡ socks t
  unfolding end_thread
  socks-end_thread k [] = refl
  socks-end_thread zero (none ∷ t) = refl
  socks-end_thread zero (some e ∷ t) = refl
  socks-end_thread (suc k) (none ∷ t) = socks-end_thread k t
  socks-end_thread (suc k) (some e ∷ t) = ap (◌∷◌ e.conn_tcp_sock) (socks-end_thread k t)

  serve-Balanced_from :
      (extra : ℤ → ℕ) (listener : ℤ) (es : List Event) (t : Table) (h : History)
      → IsTable t
      → Balanced os extra t h
      → let out = serve os listener es t h in Balanced os extra out.0 out.1
  unfolding serve
  serve-Balanced_from extra listener [] t h v b = b
  serve-Balanced_from extra listener (round allocated started ∷ es) t h v b =
      let out = listen_round os listener allocated started t h in
      serve-Balanced_from extra listener es out.0 out.1
        (listen_round-IsTable os listener allocated started t h v)
        (listen_round-Balanced extra listener allocated started t h v b)
  serve-Balanced_from extra listener (ended i ∷ es) t h v b =
      serve-Balanced_from extra listener es (end_thread i t) h
        (record {
          full_length = length-end_thread i t ∙ v.full_length;
          slots = end_thread-SlotsFrom 0 i t v.slots;
        })
        (λ fd. rw (socks-end_thread i t) (b fd))

  pub close-all :
      (extra : ℤ → ℕ) (i : ℕ) (t : Table) (h : History)
      → SlotsFrom i t
      → Balanced os extra t h
      → Balanced os extra [] (tcp_svr_close os t h).1
  unfolding tcp_svr_close
  close-all extra i [] h s b = b
  close-all extra i (none ∷ t) h s b = close-all extra (suc i) t h s b
  close-all extra i (some e ∷ t) h (f, s) b =
      close-all extra (suc i) t _ s (destroy-Balanced extra i e t h f b)

-- From the start of the server on, whatever clients come, whichever threads end and whatever the
-- system answers, each descriptor is held as often as at the start and once more for each entity
-- whose socket it is: no client's socket is lost, and none is closed while its entity is listed.
pub serve-held :
    (os : Os) (listener : ℤ) (es : List Event) (h : History) (fd : ℤ)
    → let out = serve os listener es initial h in
      count fd (held os out.1) ≡ count fd (held os h) + count fd (socks out.0)
serve-held os listener es h fd =
    serve-Balanced_from os (λ d. count d (held os h)) listener es initial h initial-IsTable
      (λ d. rw (no_socks max_tcp_client, count-nil d) (omega arith)) fd

-- TcpSvr_close after any run of the server closes every client's socket: each descriptor is held as
-- often as before the run.
pub tcp_svr_close-held :
    (os : Os) (listener : ℤ) (es : List Event) (h : History) (fd : ℤ)
    → let out = serve os listener es initial h in
      count fd (held os (tcp_svr_close os out.0 out.1).1) ≡ count fd (held os h)
tcp_svr_close-held os listener es h fd =
    let out = serve os listener es initial h in
    let shut =
      close-all os (λ d. count d (held os h)) 0 out.0 out.1 (serve-IsTable os listener es h).slots
        (serve-held os listener es h) fd in
    omega (arith, shut, count-nil fd)
