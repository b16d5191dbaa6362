-- ===== src/Tests/Cache.antt =====
-- A run of the Redis wrapper.
use tcp_svr.Base.{List, [], ◌∷◌, codes, Option, none, some, pos, true, ◌≡◌, refl}
use tcp_svr.Redis.Client.{terminated, Cmd, rpush, Server, good, integer, Reply, Conn}
use tcp_svr.Redis.Ready.{Ready}
use tcp_svr.Redis.Session.{Op, init, push, add6, read, pop, uninit, perform_all, start}
use tcp_svr.Redis.Session.Safe.{Named, AllNamed, perform_all-Ready}

-- A server that does not answer a push, and counts 1 for everything else.
abbrev no_push : Server
no_push = record { connects = λ l host port. good; replies = answers }
  where
    answers : List Cmd → Cmd → Option Reply
    answers l (rpush key value) = none
    answers l c = some (record { sort = integer; number = pos 1; str = none })

abbrev night : List Op
night =
    init (codes "127.0.0.1") (pos 6379) (codes "secret") (pos 2)
    ∷ push (some (codes "addurlque")) (some (codes "rtmp"))
    ∷ add6 (some (codes "k")) (some (codes "v"))
    ∷ read (some (codes "k"))
    ∷ pop (some (codes "addurlque")) true
    ∷ uninit
    ∷ []

night-AllNamed : AllNamed night
unfolding terminated Named AllNamed
night-AllNamed = ((refl, refl), (tt, (tt, (tt, (tt, (tt, tt))))))

perform_all-Ready_example : (s : Conn) × (perform_all no_push night start ≡ some s) × Ready s
perform_all-Ready_example = perform_all-Ready no_push night night-AllNamed
