-- ===== src/Svr/Listener/Open.antt =====
-- The sockets of the entities that the table of clients lists.
use tcp_svr.Base.{ℕ, suc, ◌<◌, ◌≤◌, ℤ, List, [], ◌∷◌, none, some, length, ◌≡◌, arith}
use tcp_svr.Os.{Os, History}
use tcp_svr.Net.Setup.Descriptors.{held, count, count-cons, count-cons_self}
use tcp_svr.Svr.Listener.{max_tcp_client, Entity, Table, Event, serve, initial}
use tcp_svr.Svr.Listener.Slots.{IsEntity, SlotsFrom, serve-IsTable}
use tcp_svr.Svr.Listener.Balance.{socks, serve-held}

-- The entity of slot `i`, with its socket open.
pub record IsOpen (os : Os) (h : History) (i : ℕ) (e : Entity) : Type 0 where
  pub entity : IsEntity i e
  pub open_sock : 0 < count e.conn_tcp_sock (held os h)

abbrev pub OpenFrom : Os → History → ℕ → Table → Type 0
OpenFrom os h i [] = Unit {0}
OpenFrom os h i (none ∷ t) = OpenFrom os h (suc i) t
OpenFrom os h i (some e ∷ t) = IsOpen os h i e × OpenFrom os h (suc i) t

SlotsFrom-OpenFrom :
    (os : Os) (h : History) (i : ℕ) (t : Table)
    → SlotsFrom i t
    → ((fd : ℤ) → count fd (socks t) ≤ count fd (held os h))
    → OpenFrom os h i t
SlotsFrom-OpenFrom os h i [] s own = tt
SlotsFrom-OpenFrom os h i (none ∷ t) s own = SlotsFrom-OpenFrom os h (suc i) t s own
SlotsFrom-OpenFrom os h i (some e ∷ t) (f, s) own = (
  record {
    entity = f;
    open_sock = omega (arith, own e.conn_tcp_sock, count-cons_self e.conn_tcp_sock (socks t));
  },
  SlotsFrom-OpenFrom os h (suc i) t s
      (λ fd. omega (arith, own fd, count-cons fd e.conn_tcp_sock (socks t))),
)

-- Whatever clients come, whichever threads end and whatever the system answers, the table keeps its 1000 slots, and each
-- entity stands under its own index, with a socket that is open as its session, no data socket and no handshake timer; and each
-- descriptor is held at least as often as entities have it.
pub serve-open :
    (os : Os) (listener : ℤ) (es : List Event) (h : History)
    → let out = serve os listener es initial h in
      (length out.0 ≡ max_tcp_client)
      × OpenFrom os out.1 0 out.0
      × ((fd : ℤ) → count fd (socks out.0) ≤ count fd (held os out.1))
serve-open os listener es h =
    let out = serve os listener es initial h in
    let v = serve-IsTable os listener es h in
    let own : (fd : ℤ) → count fd (socks out.0) ≤ count fd (held os out.1) =
      λ fd. omega (arith, serve-held os listener es h fd) in
    (v.full_length, SlotsFrom-OpenFrom os out.1 0 out.0 v.slots own, own)
