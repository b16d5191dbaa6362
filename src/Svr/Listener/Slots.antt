-- ===== src/Svr/Listener/Slots.antt =====
-- The shape of the table of clients.
use tcp_svr.Base.{
  ℕ, zero, suc, ◌+◌, Bytes, List, [], ◌∷◌, Option, none, some, set, length, length-set, ℤ, negsuc,
  is_neg, Bool, false, leb, replicate, length-replicate, ◌≡◌, refl, ap, ◌∙◌, ◌⊎◌, arith, Bool-cases,
  inl, inr,
}
use tcp_svr.Os.{Os, History}
use tcp_svr.Net.Setup.{net_ser_accept}
use tcp_svr.Svr.Listener.{
  max_tcp_client, ThreadState, init, run, exit, pause, Entity, Table, tcp_svr_create,
  tcp_svr_destroy, first_free, install, admit, age, reap, sweep, listen_round, end_thread, Event,
  round, ended, serve, initial,
}

-- The entity of slot `i`, as the server makes it.
pub record IsEntity (i : ℕ) (e : Entity) : Type 0 where
  pub own_index : e.idx ≡ i
  pub own_session : e.session_id ≡ e.conn_tcp_sock
  pub connected : is_neg e.conn_tcp_sock ≡ false
  pub no_data_sock : e.data_sock ≡ negsuc 0
  pub no_handshake : e.timeout ≡ 0

abbrev pub SlotsFrom : ℕ → Table → Type 0
SlotsFrom i [] = Unit {0}
SlotsFrom i (none ∷ t) = SlotsFrom (suc i) t
SlotsFrom i (some e ∷ t) = IsEntity i e × SlotsFrom (suc i) t

pub record IsTable (t : Table) : Type 0 where
  pub full_length : length t ≡ max_tcp_client
  pub slots : SlotsFrom 0 t

pub age-zero : (e : Entity) (n : ℕ) → n ≡ 0 → age e n ≡ e
unfolding age
age-zero e zero h = refl
age-zero e (suc n) h = absurd (omega arith)

-- A slot that has been looked at holds its entity, or nothing if that had ended.
pub reap-cases :
    (os : Os) (e : Entity) (s : ThreadState) (h : History)
    → ((reap os e s h) ≡ (none, (tcp_svr_destroy os e h).1)) ⊎ ((reap os e s h) ≡ (some e, h))
unfolding reap
reap-cases os e exit h = inl refl
reap-cases os e init h = inr refl
reap-cases os e run h = inr refl
reap-cases os e pause h = inr refl

sweep-SlotsFrom :
    (os : Os) (i : ℕ) (t : Table) (h : History) → SlotsFrom i t → SlotsFrom i (sweep os t h).0
unfolding sweep
sweep-SlotsFrom os i [] h s = tt
sweep-SlotsFrom os i (none ∷ t) h s = sweep-SlotsFrom os (suc i) t h s
sweep-SlotsFrom os i (some e ∷ t) h (f, s) =
    rw (age-zero e e.timeout f.no_handshake) (elim (reap-cases os e e.state h) [
      | inl gone ↦ rw gone (sweep-SlotsFrom os (suc i) t _ s)
      | inr kept ↦ rw kept (f, sweep-SlotsFrom os (suc i) t h s)
    ])

pub length-sweep : (os : Os) (t : Table) (h : History) → length (sweep os t h).0 ≡ length t
unfolding sweep
length-sweep os [] h = refl
length-sweep os (none ∷ t) h = ap suc (length-sweep os t h)
length-sweep os (some e ∷ t) h = ap suc (length-sweep os t _)

set-SlotsFrom :
    (i k j : ℕ) (t : Table) (e : Entity)
    → i + k ≡ j
    → SlotsFrom i t
    → IsEntity j e
    → SlotsFrom i (set t k (some e))
set-SlotsFrom i k j [] e p s f = tt
set-SlotsFrom i zero j (none ∷ t) e p s f = let q : i ≡ j = omega arith in (rw q f, s)
set-SlotsFrom i zero j (some d ∷ t) e p s f = let q : i ≡ j = omega arith in (rw q f, s.1)
set-SlotsFrom i (suc k) j (none ∷ t) e p s f = set-SlotsFrom (suc i) k j t e (omega arith) s f
set-SlotsFrom i (suc k) j (some d ∷ t) e p s f =
    (s.0, set-SlotsFrom (suc i) k j t e (omega arith) s.1 f)

install-IsTable :
    (os : Os) (sock : ℤ) (t : Table) (i : ℕ) (o : Option Entity) (h : History)
    → IsTable t
    → ((e : Entity) → o ≡ some e → IsEntity i e)
    → IsTable (install os sock t i o h).0
unfolding install
install-IsTable os sock t i none h v f = v
install-IsTable os sock t i (some e) h v f = record {
  full_length = length-set t i (some e) ∙ v.full_length;
  slots = set-SlotsFrom 0 i i t e (omega arith) v.slots (f e refl);
}

pub tcp_svr_create-IsEntity :
    (allocated started : Bool) (sock : ℤ) (client : Bytes) (i : ℕ) (e : Entity)
    → is_neg sock ≡ false
    → tcp_svr_create allocated started sock client (negsuc 0) i ≡ some e
    → IsEntity i e
unfolding tcp_svr_create
tcp_svr_create-IsEntity allocated started sock client i e c made = ground arith

pub admit-IsTable :
    (os : Os) (allocated started : Bool) (sock : ℤ) (client : Bytes) (t : Table) (h : History)
    → is_neg sock ≡ false
    → IsTable t
    → IsTable (admit os allocated started sock client t h).0
unfolding admit
admit-IsTable os allocated started sock client t h c v =
    elim (Bool-cases (leb max_tcp_client (first_free t))) [
      | inl crowded ↦ rw crowded v
      | inr room ↦ rw room (
          install-IsTable os sock t (first_free t) _ h v (λ e made.
            tcp_svr_create-IsEntity allocated started sock client (first_free t) e c made))
    ]

pub end_thread-SlotsFrom : (i k : ℕ) (t : Table) → SlotsFrom i t → SlotsFrom i (end_thread k t)
unfolding end_thread
end_thread-SlotsFrom i k [] s = tt
end_thread-SlotsFrom i zero (none ∷ t) s = s
end_thread-SlotsFrom i zero (some e ∷ t) (f, s) = (
  record {
    own_index = f.own_index;
    own_session = f.own_session;
    connected = f.connected;
    no_data_sock = f.no_data_sock;
    no_handshake = f.no_handshake;
  },
  s,
)
end_thread-SlotsFrom i (suc k) (none ∷ t) s = end_thread-SlotsFrom (suc i) k t s
end_thread-SlotsFrom i (suc k) (some e ∷ t) (f, s) = (f, end_thread-SlotsFrom (suc i) k t s)

pub length-end_thread : (k : ℕ) (t : Table) → length (end_thread k t) ≡ length t
unfolding end_thread
length-end_thread k [] = refl
length-end_thread zero (none ∷ t) = refl
length-end_thread zero (some e ∷ t) = refl
length-end_thread (suc k) (o ∷ t) = ap suc (length-end_thread k t)

pub listen_round-IsTable :
    (os : Os) (listener : ℤ) (allocated started : Bool) (t : Table) (h : History)
    → IsTable t
    → IsTable (listen_round os listener allocated started t h).0
unfolding listen_round
listen_round-IsTable os listener allocated started t h v =
    let a = net_ser_accept os listener 5000 h in
    elim (Bool-cases (is_neg a.0.0)) [
      | inl bad ↦ rw bad (record {
        full_length = length-sweep os t a.1 ∙ v.full_length;
        slots = sweep-SlotsFrom os 0 t a.1 v.slots;
      })
      | inr good ↦ rw good (admit-IsTable os allocated started a.0.0 a.0.1 t a.1 good v)
    ]

initial-slots : (i n : ℕ) → SlotsFrom i (replicate n none)
initial-slots i zero = tt
initial-slots i (suc n) = initial-slots (suc i) n

pub initial-IsTable : IsTable initial
initial-IsTable = record {
  full_length = length-replicate {A = Option Entity} max_tcp_client none;
  slots = initial-slots 0 max_tcp_client;
}

pub serve-keeps :
    (os : Os) (listener : ℤ) (es : List Event) (t : Table) (h : History)
    → IsTable t
    → IsTable (serve os listener es t h).0
unfolding serve
serve-keeps os listener [] t h v = v
serve-keeps os listener (round allocated started ∷ es) t h v =
    let out = listen_round os listener allocated started t h in
    serve-keeps os listener es out.0 out.1
      (listen_round-IsTable os listener allocated started t h v)
serve-keeps os listener (ended i ∷ es) t h v =
    serve-keeps os listener es (end_thread i t) h (record {
      full_length = length-end_thread i t ∙ v.full_length;
      slots = end_thread-SlotsFrom 0 i t v.slots;
    })

-- Whatever clients come, whichever threads end and whatever the system answers, the table keeps its
-- 1000 slots, and each entity stands under its own index, with its own open socket as its session,
-- no data socket and no handshake timer.
pub serve-IsTable :
    (os : Os) (listener : ℤ) (es : List Event) (h : History)
    → IsTable (serve os listener es initial h).0
serve-IsTable os listener es h = serve-keeps os listener es initial h initial-IsTable
