-- ===== src/Redis/Queue/Step.antt =====
-- What one call of redis_queue_rpush or redis_queue_lpop does, where the server answers.
use tcp_svr.Base.{
  ◌==◌, ◌-◌, ℕ, zero, suc, ◌+◌, ◌%◌, ◌^◌, ◌<◌, Bytes, List, [], ◌∷◌, ◌++◌, Option, none, some,
  length, length-append, ℤ, pos, negsuc, neg, true, false, leb, ltb, ◌≡◌, refl, sym, ap, ◌∙◌, arith,
  inl, inr, Bool-cases, subst,
}
use tcp_svr.Redis.Client.{Cmd, lpop, rpush, Reply, Log, Server, Conn, unlocked, locked, to_int}
use tcp_svr.Redis.Calls.{
  int_reply, str_reply, exchange, plus_one, minus_one, max_queue_size, is_full, redis_queue_rpush,
  redis_queue_lpop,
}
use tcp_svr.Redis.Queue.{
  popped_reply, tail, Lists, Op, push, pop, pushed, popped, perform, Model, answer, next, Counts,
  Shows,
}

is_full-Counts :
    (m : Model) (n : ℤ) → Counts m n → is_full n ≡ leb (max_queue_size + m.misses) (length m.queue)
unfolding Counts is_full
is_full-Counts m (pos n) c = ground (arith, c)
is_full-Counts m (negsuc n) c = ground (arith, c)

Counts-push :
    (m : Model) (n : ℤ) (v : Bytes)
    → Counts m n
    → Counts (record m { queue = m.queue ++ v ∷ [] }) (plus_one n)
unfolding Counts plus_one
Counts-push m (pos n) v c = omega (arith, length-append m.queue (v ∷ []))
Counts-push m (negsuc zero) v c = omega (arith, length-append m.queue (v ∷ []))
Counts-push m (negsuc (suc n)) v c = omega (arith, length-append m.queue (v ∷ []))

Counts-miss :
    (k : ℕ) (n : ℤ)
    → suc k < 2 ^ 31
    → Counts (record { queue = []; misses = k }) n
    → Counts (record { queue = []; misses = suc k }) (minus_one n)
unfolding Counts minus_one
Counts-miss k (pos zero) few c = omega arith
Counts-miss k (pos (suc n)) few c = omega arith
Counts-miss k (negsuc n) few c =
    let inside : (n == 2 ^ 31 - 1) ≡ false = ground (arith, few, c) in rw inside (omega (arith, c))

Counts-take :
    (k : ℕ) (v : Bytes) (q : List Bytes) (n : ℤ)
    → suc k < 2 ^ 31
    → Counts (record { queue = v ∷ q; misses = k }) n
    → Counts (record { queue = q; misses = k }) (minus_one n)
unfolding Counts minus_one
Counts-take k v q (pos zero) few c = omega arith
Counts-take k v q (pos (suc n)) few c = omega arith
Counts-take k v q (negsuc n) few c =
    let inside : (n == 2 ^ 31 - 1) ≡ false = ground (arith, few, c) in rw inside (omega (arith, c))

to_int-small : (n : ℕ) → n < 2 ^ 31 → to_int (pos n) ≡ pos n
unfolding to_int
to_int-small n h =
    let m : n % 2 ^ 32 ≡ n = omega arith in
    let small : ltb n (2 ^ 31) ≡ true = ground arith in rw (m, small) refl

-- What one call does, where the answers of the server fit in an int.
pub record Performed (r : Server) (key : Bytes) (content : Log → List Bytes) (op : Op) (m : Model)
    (s : Conn) : Type 0 where
  pub then_on : Conn
  pub done : perform r key op s ≡ some (answer op m, then_on)
  pub shows : Shows content (next op m) then_on

-- The connection with these fields spelled out.
abbrev pub standing : Conn → Conn
standing s = record s { connected = true; lock = unlocked }

pub standing_eq : (s : Conn) → s.connected ≡ true → s.lock ≡ unlocked → s ≡ standing s
standing_eq s up free i = record s { connected = up i; lock = free i }

-- A request that is answered.
exchange-answered :
    {A : Type 0} (r : Server) (c : Cmd) (change : ℤ → ℤ) (f : Reply → A) (lost : A) (a : Reply)
    (s : Conn)
    → r.replies s.log c ≡ some a
    → exchange r c change f lost (record s { connected = true; lock = locked })
      ≡ some (f a, record (standing s) { queue_size = change s.queue_size; log = c ∷ s.log })
unfolding exchange
exchange-answered r c change f lost a s e = rw (exchange, e) refl

module _ (r : Server) (key : Bytes) (content : Log → List Bytes) (laws : Lists r key content) where
  perform-pushed :
      (v : Bytes) (s s' : Conn) (ret : ℤ)
      → redis_queue_rpush r (some key) (some v) s ≡ some (ret, s')
      → perform r key (push v) s ≡ some (pushed v ret, s')
  unfolding perform
  perform-pushed v s s' ret e =
      ap (λ o. elim o [ none ↦ none | some (a, x) ↦ some (pushed v a, x) ]) e

  perform-popped :
      (s s' : Conn) (ret : ℤ) (o : Option Bytes)
      → redis_queue_lpop r (some key) true s ≡ some ((ret, o), s')
      → perform r key pop s ≡ some (popped ret o, s')
  unfolding perform
  perform-popped s s' ret o e =
      ap (λ o. elim o [ none ↦ none | some ((a, b), x) ↦ some (popped a b, x) ]) e

  after_pop : Conn → Conn
  after_pop s = record (standing s) { queue_size = minus_one s.queue_size; log = lpop key ∷ s.log }

  after_push : Bytes → Conn → Conn
  after_push v s = record (standing s) {
    queue_size = plus_one s.queue_size;
    log = rpush key v ∷ s.log;
  }

  rpush-standing :
      (v : Bytes) (m : Model) (s : Conn)
      → is_full s.queue_size ≡ false
      → content s.log ≡ m.queue
      → suc (length m.queue) < 2 ^ 31
      → redis_queue_rpush r (some key) (some v) (standing s)
        ≡ some (pos (suc (length m.queue)), after_push v s)
  unfolding redis_queue_rpush exchange int_reply after_push
  rpush-standing v m s room holds small = rw (room) (
      exchange-answered r (rpush key v) plus_one int_reply (neg 2) _ s (laws.push_answer s.log v)
      ∙ rw (holds, to_int-small (suc (length m.queue)) small) refl)

  lpop-standing :
      (q : List Bytes) (s : Conn)
      → content s.log ≡ q
      → redis_queue_lpop r (some key) true (standing s)
        ≡ some (str_reply (popped_reply q), after_pop s)
  unfolding redis_queue_lpop exchange after_pop
  lpop-standing q s holds =
      exchange-answered r (lpop key) minus_one str_reply (neg 2, none) _ s (laws.pop_answer s.log)
      ∙ ap (λ x. some (str_reply (popped_reply x), after_pop s)) holds

  push-standing :
      (v : Bytes) (m : Model) (s : Conn)
      → Counts m s.queue_size
      → content s.log ≡ m.queue
      → suc (length m.queue) < 2 ^ 31
      → Performed r key content (push v) m (standing s)
  unfolding redis_queue_rpush answer next after_push
  push-standing v m s counts holds small =
      elim (Bool-cases (leb (max_queue_size + m.misses) (length m.queue))) [
        | inl full ↦ record {
          then_on = standing s;
          done = rw full (
              perform-pushed v (standing s) (standing s) (neg 11)
                (rw (is_full-Counts m s.queue_size counts, full) refl));
          shows = rw full (record { up = refl; free = refl; counts = counts; holds = holds });
        }
        | inr room ↦ record {
          then_on = after_push v s;
          done = rw room (
              perform-pushed v (standing s) (after_push v s) _
                (rpush-standing v m s (is_full-Counts m s.queue_size counts ∙ room) holds small));
          shows = rw room (record {
            up = refl;
            free = refl;
            counts = Counts-push m s.queue_size v counts;
            holds = laws.push_content s.log v ∙ ap (λ q. q ++ v ∷ []) holds;
          });
        }
      ]

  pop-standing :
      (q : List Bytes) (k : ℕ) (s : Conn)
      → suc k < 2 ^ 31
      → Counts (record { queue = q; misses = k }) s.queue_size
      → content s.log ≡ q
      → Performed r key content pop (record { queue = q; misses = k }) (standing s)
  unfolding answer next str_reply popped_reply after_pop
  pop-standing [] k s few counts holds = record {
    then_on = after_pop s;
    done = perform-popped (standing s) (after_pop s) (neg 4) none (lpop-standing [] s holds);
    shows = record {
      up = refl;
      free = refl;
      counts = Counts-miss k s.queue_size few counts;
      holds = laws.pop_content s.log ∙ ap tail holds;
    };
  }
  pop-standing (v ∷ q) k s few counts holds = record {
    then_on = after_pop s;
    done =
        perform-popped (standing s) (after_pop s) (pos 1) (some v) (lpop-standing (v ∷ q) s holds);
    shows = record {
      up = refl;
      free = refl;
      counts = Counts-take k v q s.queue_size few counts;
      holds = laws.pop_content s.log ∙ ap tail holds;
    };
  }

  pub perform-Performed :
      (op : Op) (m : Model) (s : Conn)
      → Shows content m s
      → suc (length m.queue + m.misses) < 2 ^ 31
      → Performed r key content op m s
  perform-Performed (push v) m s w small =
      subst (Performed r key content (push v) m) (sym (standing_eq s w.up w.free))
        (push-standing v m s w.counts w.holds (omega arith))
  perform-Performed pop m s w small =
      subst (Performed r key content pop m) (sym (standing_eq s w.up w.free))
        (pop-standing m.queue m.misses s (omega arith) w.counts w.holds)
