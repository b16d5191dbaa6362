-- ===== src/Tests/Queue.antt =====
-- A Redis server with one list, and runs of the queue on it.
use tcp_svr.Base.{
  suc, ◌+◌, ◌≤◌, Bytes, List, [], ◌∷◌, ◌++◌, codes, Option, none, some, length, ℤ, pos, true, ◌≡◌,
  refl, arith, map,
}
use tcp_svr.Redis.Client.{
  Cmd, rpush, lpop, Server, good, integer, other, Reply, Log, Conn, unlocked,
}
use tcp_svr.Redis.Calls.{max_queue_size, redis_queue_flush}
use tcp_svr.Redis.Queue.{
  Lists, popped_reply, tail, Op, push, pop, Answer, run, answers, finish, Counts, Shows,
}
use tcp_svr.Redis.Queue.Order.{asked, accepted, taken, missed, run-answers, run-fifo}
use tcp_svr.Redis.Queue.Flush.{redis_queue_flush-empties}

list_of : Log → List Bytes
list_of [] = []
list_of (rpush key v ∷ l) = list_of l ++ v ∷ []
list_of (lpop key ∷ l) = tail (list_of l)
list_of (c ∷ l) = list_of l

reply : List Bytes → Cmd → Option Reply
reply q (rpush key v) = some (record { sort = integer; number = pos (suc (length q)); str = none })
reply q (lpop key) = some (popped_reply q)
reply q c = some (record { sort = other; number = pos 0; str = none })

abbrev one_list : Server
one_list = record { connects = λ l host port. good; replies = λ l c. reply (list_of l) c }

one_list-Lists : (key : Bytes) → Lists one_list key list_of
unfolding reply list_of
one_list-Lists key = record {
  push_answer = λ l v. refl;
  push_content = λ l v. refl;
  pop_answer = λ l. refl;
  pop_content = λ l. refl;
}

abbrev open_conn : Log → ℤ → Conn
open_conn l n = record {
  connected = true;
  lock = unlocked;
  db = pos 2;
  queue_size = n;
  saved_host = codes "127.0.0.1";
  saved_port = pos 6379;
  saved_pass = [];
  saved_db = pos 2;
  log = l;
}

abbrev urls : Bytes
urls = codes "addurlque"

abbrev held : Log
held = rpush urls (codes "a") ∷ []

-- The first pop takes what is there, the second finds nothing.
abbrev calls : List Op
calls = pop ∷ pop ∷ push (codes "b") ∷ push (codes "c") ∷ pop ∷ []

run-answers_example :
    (s' : Conn) × (run one_list urls calls (open_conn held (pos 1))
      ≡ some (answers calls (record { queue = codes "a" ∷ []; misses = 0 }), s'))
    × Shows list_of (finish calls (record { queue = codes "a" ∷ []; misses = 0 })) s'
unfolding list_of Counts
run-answers_example =
    run-answers one_list urls list_of (one_list-Lists urls) calls
      (record { queue = codes "a" ∷ []; misses = 0 }) (open_conn held (pos 1))
      (record { up = refl; free = refl; counts = refl; holds = refl }) (omega arith)

run-fifo_example :
    (s' : Conn) × (l : List Answer) × (run one_list urls calls (open_conn held (pos 1))
      ≡ some (l, s'))
    × (map asked l ≡ calls)
    × (taken l ++ list_of s'.log ≡ list_of held ++ accepted l)
    × (length (list_of s'.log) ≤ max_queue_size + missed l)
unfolding list_of
run-fifo_example =
    run-fifo one_list urls list_of (one_list-Lists urls) calls (open_conn held (pos 1)) refl refl
      refl (omega arith) (omega arith)

redis_queue_flush-empties_example :
    (s' : Conn) × (redis_queue_flush one_list urls 2 (open_conn held (pos 1))
      ≡ some (some (pos 0), s'))
    × (list_of s'.log ≡ [])
    × (s'.queue_size ≡ pos 0)
    × (s'.lock ≡ unlocked)
unfolding list_of
redis_queue_flush-empties_example =
    redis_queue_flush-empties one_list urls list_of (one_list-Lists urls) 2 (open_conn held (pos 1))
      refl refl (omega arith)
