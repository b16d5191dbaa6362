-- ===== src/Redis/Queue.antt =====
-- The Redis list as a queue: redis_queue_rpush, redis_queue_lpop and redis_queue_flush with a server that
-- answers them, and the count in gRedisQueueSize.
pub mod Step
pub mod Order
pub mod Flush
use tcp_svr.Base.{
  ℕ, zero, suc, ◌+◌, ◌%◌, ◌^◌, ◌≤◌, ◌<◌, Bytes, List, [], ◌∷◌, ◌++◌, Option, none, some, length,
  length-append, ℤ, pos, negsuc, neg, is_neg, to_ℕ, true, false, leb, ltb, not, ◌&&◌, if◌then◌else◌,
  ◌≡◌, refl, sym, ap, ◌∙◌, arith, inl, inr, Bool-cases, subst,
}
use tcp_svr.Redis.Client.{
  Cmd, lpop, rpush, integer, other, Reply, Log, Server, Conn, M, pure, ◌>>=◌, unlocked, locked,
  to_int, Mutex,
}
use tcp_svr.Redis.Calls.{
  int_reply, str_reply, exchange, plus_one, minus_one, max_queue_size, is_full, redis_queue_rpush,
  redis_queue_lpop,
}

-- What LPOP answers: the first element, or nil.
unfoldable pub popped_reply : List Bytes → Reply
popped_reply [] = record { sort = other; number = pos 0; str = none }
popped_reply (v ∷ q) = record { sort = other; number = pos 0; str = some v }

abbrev pub tail : List Bytes → List Bytes
tail [] = []
tail (v ∷ q) = q

-- The documented behaviour of RPUSH and LPOP of a key, `content` being its list: RPUSH appends and answers the new length,
-- LPOP takes the first element.
pub record Lists (r : Server) (key : Bytes) (content : Log → List Bytes) : Type 0 where
  pub push_answer :
      (l : Log) (v : Bytes)
      → r.replies l (rpush key v)
        ≡ some (record { sort = integer; number = pos (suc (length (content l))); str = none })
  pub push_content : (l : Log) (v : Bytes) → content (rpush key v ∷ l) ≡ content l ++ v ∷ []
  pub pop_answer : (l : Log) → r.replies l (lpop key) ≡ some (popped_reply (content l))
  pub pop_content : (l : Log) → content (lpop key ∷ l) ≡ tail (content l)

pub data Op : Type 0 where
  push : Bytes → Op
  pop : Op

-- What a call returned: of a push with its value, of a pop with the value stored.
pub data Answer : Type 0 where
  pushed : Bytes → ℤ → Answer
  popped : ℤ → Option Bytes → Answer

unfoldable pub perform : Server → Bytes → Op → M Answer
perform r key (push v) = redis_queue_rpush r (some key) (some v) >>= λ ret. pure (pushed v ret)
perform r key pop = redis_queue_lpop r (some key) true >>= λ (ret, o). pure (popped ret o)

pub run : Server → Bytes → List Op → M (List Answer)
run r key [] = pure []
run r key (op ∷ ops) = perform r key op >>= λ a. run r key ops >>= λ later. pure (a ∷ later)

-- The queue, and how many pops have found it empty.
pub record Model : Type 0 where
  pub queue : List Bytes
  pub misses : ℕ

unfoldable pub answer : Op → Model → Answer
answer (push v) m =
    if leb (max_queue_size + m.misses) (length m.queue)
    then pushed v (neg 11)
    else pushed v (pos (suc (length m.queue)))
answer pop m = elim m.queue [ [] ↦ popped (neg 4) none | v ∷ q ↦ popped (pos 1) (some v) ]

unfoldable pub next : Op → Model → Model
next (push v) m =
    if leb (max_queue_size + m.misses) (length m.queue)
    then m
    else record m { queue = m.queue ++ v ∷ [] }
next pop m = elim m.queue [
  | [] ↦ record { queue = []; misses = suc m.misses }
  | v ∷ q ↦ record { queue = q; misses = m.misses }
]

unfoldable pub answers : List Op → Model → List Answer
answers [] m = []
answers (op ∷ ops) m = answer op m ∷ answers ops (next op m)

unfoldable pub finish : List Op → Model → Model
finish [] m = m
finish (op ∷ ops) m = finish ops (next op m)

-- A count that is the length less the misses.
unfoldable pub Counts : Model → ℤ → Type 0
Counts m (pos n) = n + m.misses ≡ length m.queue
Counts m (negsuc n) = length m.queue + suc n ≡ m.misses

-- A connection that is there, nobody holding the lock, whose count and list are the model's.
pub record Shows (content : Log → List Bytes) (m : Model) (s : Conn) : Type 0 where
  pub up : s.connected ≡ true
  pub free : s.lock ≡ unlocked
  pub counts : Counts m s.queue_size
  pub holds : content s.log ≡ m.queue
