-- ===== src/Redis/Session/Safe.antt =====
-- Runs of the wrapper, and the faults in them.
use tcp_svr.Base.{
  ◌^◌, ◌-◌, zero, suc, negsuc, Bytes, codes, length, ◌==◌, ◌++◌, List, [], ◌∷◌, Option, none, some,
  ℤ, pos, neg, Bool, true, false, ◌≡◌, refl, sym, subst, ◌∙◌, inl, inr, arith, Bool-cases,
  Option-cases,
}
use tcp_svr.Redis.Client.{
  Cmd, lpop, select, rpush, append, Reply, Server, Conn, redis_uninit, reconnect, terminated,
}
use tcp_svr.Redis.Calls.{
  request, request6, redis_flushdb, plus_one, minus_one, is_full, redis_queue_rpush,
  redis_queue_lpop, redis_hset, redis_hget, redis_append, redis_setex, redis_get, redis_del,
  redis6_append, redis6_get, redis6_del, redis_dvr_db, int_reply,
}
use tcp_svr.Redis.Ready.{
  IsInt, Ready, Goes, last_select, redis_init-Goes, holding, idle_eq, Goes-then, reconnect-Goes,
  exchange-Goes, not_both,
}
use tcp_svr.Redis.Session.{
  Op, after, perform, perform_all, start, init, uninit, flush_db, push, pop, add, add6, set_field,
  get_field, set_for, read, remove, read6, remove6,
}

redis_uninit-Goes : (s : Conn) → Ready s → Goes (redis_uninit s)
unfolding redis_uninit
redis_uninit-Goes s v = elim (Bool-cases s.connected) [
  | inl up ↦
      subst (λ (x : Conn). Goes (redis_uninit x)) (sym (idle_eq s v up))
        (record {
          mutex = refl;
          bounded = v.bounded;
          database = not_both false refl;
          same_database = not_both false refl;
          host = v.host;
          pass = v.pass;
        })
  | inr down ↦ simp (down, redis_uninit) v
]

redis_flushdb-Goes : (r : Server) (s : Conn) → Ready s → Goes (redis_flushdb r s)
unfolding redis_flushdb last_select
redis_flushdb-Goes r s v = elim (Bool-cases s.connected) [
  | inl up ↦
      subst (λ (x : Conn). Goes (redis_flushdb r x)) (sym (idle_eq s v up))
        (record {
          mutex = refl;
          bounded = v.bounded;
          database = λ _. v.database up;
          same_database = λ _. v.same_database up;
          host = v.host;
          pass = v.pass;
        })
  | inr down ↦ simp (down, redis_flushdb) v
]

request-Goes :
    {A : Type 0} (r : Server) (c : Cmd) (f : Reply → A) (lost absent : A) (s : Conn)
    → last_select (c ∷ s.log) ≡ last_select s.log
    → Ready s
    → Goes (request r c f lost absent s)
unfolding request
request-Goes r c f lost absent s e v = elim (Bool-cases s.connected) [
  | inl up ↦
      subst (λ (x : Conn). Goes (request r c f lost absent x)) (sym (idle_eq s v up))
        (exchange-Goes r c _ f lost s v.bounded v.bounded (e ∙ v.database up) (v.same_database up)
          v.host v.pass)
  | inr down ↦ simp (down, request) v
]

request6-Goes :
    {A : Type 0} (r : Server) (c : Cmd) (f : Reply → A) (lost unselected absent : A) (s : Conn)
    → Ready s
    → Goes (request6 r c f lost unselected absent s)
unfolding request6 last_select
request6-Goes r c f lost unselected absent s v = elim (Bool-cases s.connected) [
  | inl up ↦
      subst (λ (x : Conn). Goes (request6 r c f lost unselected absent x)) (sym (idle_eq s v up))
        (elim (Option-cases (r.replies s.log (select redis_dvr_db))) [
          | inl silent ↦
              rw (silent, request6)
                (Goes-then (reconnect r (holding (record s { log = select redis_dvr_db ∷ s.log })))
                  unselected
                  (reconnect-Goes r (record s { log = select redis_dvr_db ∷ s.log }) v.bounded
                    v.host v.pass))
          | inr (a, got) ↦
              rw (got, request6)
                (record {
                  mutex = refl;
                  bounded = v.bounded;
                  database = λ _. refl;
                  same_database = λ _. v.same_database up;
                  host = v.host;
                  pass = v.pass;
                })
        ])
  | inr down ↦ simp (down, request6) v
]

plus_one-fits : (q : ℤ) → is_full q ≡ false → IsInt q → IsInt (plus_one q)
unfolding is_full plus_one IsInt
plus_one-fits (pos n) e h = ground (arith, e)
plus_one-fits (negsuc zero) e h = omega arith
plus_one-fits (negsuc (suc n)) e h = omega (arith, h)

minus_one-fits : (q : ℤ) → IsInt q → IsInt (minus_one q)
unfolding minus_one IsInt
minus_one-fits (pos zero) h = omega arith
minus_one-fits (pos (suc n)) h = omega (arith, h)
minus_one-fits (negsuc n) h = elim (Bool-cases (n == 2 ^ 31 - 1)) [
  | inl last ↦ rw last h
  | inr more ↦ rw more (ground (arith, more, h))
]

redis_queue_rpush-Goes :
    (r : Server) (key value : Option Bytes) (s : Conn)
    → Ready s
    → Goes (redis_queue_rpush r key value s)
unfolding redis_queue_rpush last_select
redis_queue_rpush-Goes r none value s v = v
redis_queue_rpush-Goes r (some key) none s v = v
redis_queue_rpush-Goes r (some key) (some value) s v = elim (Bool-cases s.connected) [
  | inl up ↦
      subst (λ (x : Conn). Goes (redis_queue_rpush r (some key) (some value) x))
        (sym (idle_eq s v up))
        (elim (Bool-cases (is_full s.queue_size)) [
          | inl full ↦ simp (full, redis_queue_rpush) (subst Ready (idle_eq s v up) v)
          | inr room ↦
              simp (room, redis_queue_rpush)
                (exchange-Goes r (rpush key value) plus_one _ _ s v.bounded
                  (plus_one-fits s.queue_size room v.bounded) (v.database up) (v.same_database up)
                  v.host v.pass)
        ])
  | inr down ↦ simp (down, redis_queue_rpush) v
]

redis_queue_lpop-Goes :
    (r : Server) (key : Option Bytes) (b : Bool) (s : Conn)
    → Ready s
    → Goes (redis_queue_lpop r key b s)
unfolding redis_queue_lpop last_select
redis_queue_lpop-Goes r none b s v = v
redis_queue_lpop-Goes r (some key) false s v = v
redis_queue_lpop-Goes r (some key) true s v = elim (Bool-cases s.connected) [
  | inl up ↦
      subst (λ (x : Conn). Goes (redis_queue_lpop r (some key) true x)) (sym (idle_eq s v up))
        (exchange-Goes r (lpop key) minus_one _ _ s v.bounded
          (minus_one-fits s.queue_size v.bounded) (v.database up) (v.same_database up) v.host
          v.pass)
  | inr down ↦ simp (down, redis_queue_lpop) v
]

redis6_append-Goes :
    (r : Server) (key value : Option Bytes) (s : Conn)
    → Ready s
    → Goes (redis6_append r key value s)
unfolding redis6_append
redis6_append-Goes r none value s v = v
redis6_append-Goes r (some key) none s v = v
redis6_append-Goes r (some key) (some value) s v = elim (Bool-cases (length key == 0)) [
  | inl empty ↦ rw (empty, redis6_append) v
  | inr named ↦
      rw (named, redis6_append)
        (request6-Goes r (append key (value ++ codes ",")) int_reply (neg 5) (pos 0) (neg 1) s v)
]

-- A host and a password of less than 128 bytes.
unfoldable pub Named : Op → Type 0
Named (init host port pass db) = (terminated host ≡ true) × (terminated pass ≡ true)
Named op = Unit {0}

unfoldable pub AllNamed : List Op → Type 0
AllNamed [] = Unit {0}
AllNamed (op ∷ ops) = Named op × AllNamed ops

-- The connection after a call that goes well.
Reaches : Option Conn → Type 0
Reaches o = (s : Conn) × (o ≡ some s) × Ready s

after-Reaches : {A : Type 0} (o : Option (A × Conn)) → Goes o → Reaches (after o)
unfolding Reaches
after-Reaches none g = absurd g
after-Reaches (some (a, s)) g = (s, refl, g)

perform-Reaches : (r : Server) (op : Op) (s : Conn) → Named op → Ready s → Reaches (perform r op s)
unfolding Named perform redis_hset redis_hget redis_append redis_setex redis_get redis_del
    redis6_get redis6_del last_select Reaches
perform-Reaches r (init host port pass db) s n v =
    after-Reaches _ (redis_init-Goes r host pass port db s n.0 n.1 v)
perform-Reaches r uninit s n v = after-Reaches _ (redis_uninit-Goes s v)
perform-Reaches r flush_db s n v = after-Reaches _ (redis_flushdb-Goes r s v)
perform-Reaches r (push key value) s n v = after-Reaches _ (redis_queue_rpush-Goes r key value s v)
perform-Reaches r (pop key b) s n v = after-Reaches _ (redis_queue_lpop-Goes r key b s v)
perform-Reaches r (add6 key value) s n v = after-Reaches _ (redis6_append-Goes r key value s v)
perform-Reaches r (add (some key) (some value)) s n v =
    after-Reaches _ (request-Goes r _ _ _ _ s refl v)
perform-Reaches r (add none value) s n v = (s, refl, v)
perform-Reaches r (add (some key) none) s n v = (s, refl, v)
perform-Reaches r (set_field (some key) (some field) (some value)) s n v =
    after-Reaches _ (request-Goes r _ _ _ _ s refl v)
perform-Reaches r (set_field none field value) s n v = (s, refl, v)
perform-Reaches r (set_field (some key) none value) s n v = (s, refl, v)
perform-Reaches r (set_field (some key) (some field) none) s n v = (s, refl, v)
perform-Reaches r (get_field (some key) (some field) true) s n v =
    after-Reaches _ (request-Goes r _ _ _ _ s refl v)
perform-Reaches r (get_field none field b) s n v = (s, refl, v)
perform-Reaches r (get_field (some key) none b) s n v = (s, refl, v)
perform-Reaches r (get_field (some key) (some field) false) s n v = (s, refl, v)
perform-Reaches r (set_for (some key) (some value) exptime) s n v =
    after-Reaches _ (request-Goes r _ _ _ _ s refl v)
perform-Reaches r (set_for none value exptime) s n v = (s, refl, v)
perform-Reaches r (set_for (some key) none exptime) s n v = (s, refl, v)
perform-Reaches r (read (some key)) s n v = after-Reaches _ (request-Goes r _ _ _ _ s refl v)
perform-Reaches r (read none) s n v = (s, refl, v)
perform-Reaches r (remove (some key)) s n v = after-Reaches _ (request-Goes r _ _ _ _ s refl v)
perform-Reaches r (remove none) s n v = (s, refl, v)
perform-Reaches r (read6 (some key)) s n v = after-Reaches _ (request6-Goes r _ _ _ _ _ s v)
perform-Reaches r (read6 none) s n v = (s, refl, v)
perform-Reaches r (remove6 (some key)) s n v = after-Reaches _ (request6-Goes r _ _ _ _ _ s v)
perform-Reaches r (remove6 none) s n v = (s, refl, v)

start-Ready : Ready start
unfolding IsInt terminated
start-Ready = record {
  mutex = refl;
  bounded = omega arith;
  database = not_both false refl;
  same_database = not_both false refl;
  host = refl;
  pass = refl;
}

perform_all-Reaches :
    (r : Server) (ops : List Op) (s : Conn) → AllNamed ops → Ready s → Reaches (perform_all r ops s)
unfolding perform_all Reaches AllNamed
perform_all-Reaches r [] s n v = (s, refl, v)
perform_all-Reaches r (op ∷ ops) s (n, ns) v =
    let (t, one, w) = perform-Reaches r op s n v in
    rw (one, perform_all) (perform_all-Reaches r ops t ns w)

-- Whatever calls follow each other, redis_queue_flush apart and each redis_Init with a password, if no host and no password has
-- 128 bytes or more, and whatever the Redis server answers, no call faults: the mutex is never taken twice, nor used when it does
-- not exist, and no name is read that has no terminator. After the run the mutex exists exactly while there is a connection,
-- and nobody holds it; the queue's count is a number of an `int`; and while there is a connection, the last SELECT that was
-- sent on it, whatever was answered, names the database it was opened for, also after requests in database 6.
pub perform_all-Ready :
    (r : Server) (ops : List Op)
    → AllNamed ops
    → (s : Conn) × (perform_all r ops start ≡ some s) × Ready s
unfolding Reaches
perform_all-Ready r ops named = perform_all-Reaches r ops start named start-Ready
