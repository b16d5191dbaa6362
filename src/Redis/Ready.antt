-- ===== src/Redis/Ready.antt =====
-- What holds between the calls of the wrapper.
use tcp_svr.Base.{
  ◌<◌, ◌^◌, arith, take_all, length, ap, ◌≤◌, negsuc, Bytes, [], ◌∷◌, Option, none, some, ℤ, pos,
  neg, Bool, true, false, if◌then◌else◌, ◌≡◌, refl, sym, subst, ◌∙◌, ◌⊎◌, inl, inr, Bool-cases,
  Option-cases,
}
use tcp_svr.Redis.Client.{
  Cmd, connect, select, auth, free, Reply, Server, Log, Conn, unlocked, dead, locked, Context, null,
  failed, good, give_up, init_select, wants_auth, auth_error, init_auth, init_new, redis_init,
  redis_uninit, reconnect, terminated, saved, can_read,
}
use tcp_svr.Redis.Calls.{exchange}

-- The database that the last SELECT sent on the latest connection names, whatever was answered.
unfoldable pub last_select : Log → Option ℤ
last_select [] = none
last_select (select n ∷ l) = some n
last_select (connect host port ∷ l) = none
last_select (c ∷ l) = last_select l

-- A number of an `int`.
unfoldable pub IsInt : ℤ → Type 0
IsInt (pos n) = n < 2 ^ 31
IsInt (negsuc n) = n < 2 ^ 31

-- The mutex exists exactly while there is a connection, and nobody holds it; the count of the queue is a number of an `int`; the
-- last SELECT names the database asked for, which is the one that a new connection would select; and the
-- names kept for a new connection are terminated.
pub record Ready (s : Conn) : Type 0 where
  pub mutex : s.lock ≡ (if s.connected then unlocked else dead)
  pub bounded : IsInt s.queue_size
  pub database : s.connected ≡ true → last_select s.log ≡ some s.db
  pub same_database : s.connected ≡ true → s.saved_db ≡ s.db
  pub host : terminated s.saved_host ≡ true
  pub pass : terminated s.saved_pass ≡ true

-- No fault, and all is ready again.
abbrev pub Goes : {A : Type 0} → Option (A × Conn) → Type 0
Goes none = ⊥
Goes (some (a, s)) = Ready s

-- Not connected.
record Down (s : Conn) : Type 0 where
  down : s.connected ≡ false
  no_mutex : s.lock ≡ dead
  bounded : IsInt s.queue_size
  host : terminated s.saved_host ≡ true
  pass : terminated s.saved_pass ≡ true

Down-log : (s : Conn) (l : Log) → Down s → Down (record s { log = l })
Down-log s l d = record {
  down = d.down;
  no_mutex = d.no_mutex;
  bounded = d.bounded;
  host = d.host;
  pass = d.pass;
}

pub not_both : {A : Type 0} (b : Bool) → b ≡ false → b ≡ true → A
not_both true e f = absurd (true≢false e)
  where
    true≢false : true ≡ false → ⊥
    true≢false e = cc
not_both false e f = absurd (false≢true f)
  where
    false≢true : false ≡ true → ⊥
    false≢true e = cc

Down-Ready : (s : Conn) → Down s → Ready s
Down-Ready s d = record {
  mutex = simp (d.down, d.no_mutex) refl;
  bounded = d.bounded;
  database = not_both s.connected d.down;
  same_database = not_both s.connected d.down;
  host = d.host;
  pass = d.pass;
}

-- A name that fits is kept whole.
terminated-saved : (name : Bytes) → terminated name ≡ true → terminated (saved name) ≡ true
unfolding terminated
terminated-saved name short =
    let fits : length name ≤ 128 = ground (arith, short) in
    ap terminated (take_all 128 name fits) ∙ short

init_select-Goes :
    (host pass : Bytes) (port db : ℤ) (s : Conn)
    → terminated host ≡ true
    → terminated pass ≡ true
    → Down s
    → Goes (init_select host port (some pass) db s)
unfolding init_select last_select
init_select-Goes host pass port db s named word d =
    simp (d.no_mutex, init_select)
      (record {
        mutex = refl;
        bounded = d.bounded;
        database = λ up. refl;
        same_database = λ up. refl;
        host = terminated-saved host named;
        pass = terminated-saved pass word;
      })

give_up-Goes : (e : ℤ) (s : Conn) → Down s → Goes (give_up e s)
unfolding give_up
give_up-Goes e s d = Down-Ready _ (Down-log s _ d)

init_auth-Goes :
    (r : Server) (host pass : Bytes) (port db : ℤ) (s : Conn)
    → terminated host ≡ true
    → terminated pass ≡ true
    → Down s
    → Goes (init_auth r host port (some pass) db s)
unfolding init_auth
init_auth-Goes r host pass port db s named open_word d =
    elim (Option-cases (wants_auth (some pass))) [
      | inl open_ ↦ simp (open_, init_auth) (init_select-Goes host pass port db s named open_word d)
      | inr (word, asked) ↦ elim (Option-cases (auth_error (r.replies s.log (auth word)))) [
        | inl fine ↦
            simp (asked, fine, init_auth)
              (init_select-Goes host pass port db _ named open_word (Down-log s _ d))
        | inr (e, bad) ↦ simp (asked, bad, init_auth) (give_up-Goes e _ (Down-log s _ d))
      ]
    ]

Context-cases : (c : Context) → (c ≡ null) ⊎ ((c ≡ failed) ⊎ (c ≡ good))
Context-cases null = inl refl
Context-cases failed = inr (inl refl)
Context-cases good = inr (inr refl)

init_new-Goes :
    (r : Server) (host pass : Bytes) (port db : ℤ) (s : Conn)
    → terminated host ≡ true
    → terminated pass ≡ true
    → Down s
    → Goes (init_new r host port (some pass) db s)
unfolding init_new
init_new-Goes r host pass port db s named open_word d =
    elim (Context-cases (r.connects s.log host port)) [
      | inl none_made ↦ rw (none_made, init_new) (Down-Ready _ (Down-log s _ d))
      | inr (inl broken) ↦ rw (broken, init_new) (give_up-Goes (neg 3) _ (Down-log s _ d))
      | inr (inr made) ↦
          rw (made, init_new)
            (init_auth-Goes r host pass port db _ named open_word (Down-log s _ d))
    ]

pub redis_init-Goes :
    (r : Server) (host pass : Bytes) (port db : ℤ) (s : Conn)
    → terminated host ≡ true
    → terminated pass ≡ true
    → Ready s
    → Goes (redis_init r host port (some pass) db s)
unfolding redis_init
redis_init-Goes r host pass port db s named open_word v = elim (Bool-cases s.connected) [
  | inl up ↦
      subst
        (λ (b : Bool). Goes (if b then some (pos 0, s) else init_new r host port (some pass) db s))
        (sym up) v
  | inr down ↦
      let d : Down s = record {
        down = down;
        no_mutex = v.mutex ∙ rw down refl;
        bounded = v.bounded;
        host = v.host;
        pass = v.pass;
      } in
      subst
        (λ (b : Bool). Goes (if b then some (pos 0, s) else init_new r host port (some pass) db s))
        (sym down) (init_new-Goes r host pass port db s named open_word d)
]

-- A connection that is there, between calls and within one.
abbrev pub idle : Conn → Conn
idle s = record s { connected = true; lock = unlocked }

abbrev pub holding : Conn → Conn
holding s = record s { connected = true; lock = locked }

pub idle_eq : (s : Conn) → Ready s → s.connected ≡ true → s ≡ idle s
idle_eq s v up =
    let lock : s.lock ≡ unlocked = v.mutex ∙ rw up refl in
    λ i. record s { connected = up i; lock = lock i }

pub Goes-then :
    {A B : Type 0} (o : Option (A × Conn)) (b : B)
    → Goes o
    → Goes (elim o [ none ↦ none | some (a, s) ↦ some (b, s) ])
Goes-then none b g = g
Goes-then (some (a, s)) b g = g

pub reconnect-Goes :
    (r : Server) (s : Conn)
    → IsInt s.queue_size
    → terminated s.saved_host ≡ true
    → terminated s.saved_pass ≡ true
    → Goes (reconnect r (holding s))
unfolding reconnect redis_uninit redis_init can_read
reconnect-Goes r s few named open_word =
    let s' : Conn = record s { connected = false; lock = dead; log = free ∷ s.log } in
    let d : Down s' = record {
      down = refl;
      no_mutex = refl;
      bounded = few;
      host = named;
      pass = open_word;
    } in
    rw (named, open_word)
      (init_new-Goes r s.saved_host s.saved_pass s.saved_port s.saved_db s' named open_word d)

-- A request after the lock is taken.
pub exchange-Goes :
    {A : Type 0} (r : Server) (c : Cmd) (change : ℤ → ℤ) (f : Reply → A) (lost : A) (s : Conn)
    → IsInt s.queue_size
    → IsInt (change s.queue_size)
    → last_select (c ∷ s.log) ≡ some s.db
    → s.saved_db ≡ s.db
    → terminated s.saved_host ≡ true
    → terminated s.saved_pass ≡ true
    → Goes (exchange r c change f lost (holding s))
unfolding exchange
exchange-Goes r c change f lost s few fits there here named open_word =
    elim (Option-cases (r.replies s.log c)) [
      | inl silent ↦
          rw (silent, exchange)
            (Goes-then (reconnect r (holding (record s { log = c ∷ s.log }))) lost
              (reconnect-Goes r (record s { log = c ∷ s.log }) few named open_word))
      | inr (a, got) ↦
          rw (got, exchange)
            (record {
              mutex = refl;
              bounded = fits;
              database = λ up. there;
              same_database = λ up. here;
              host = named;
              pass = open_word;
            })
    ]
