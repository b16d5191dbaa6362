-- ===== src/Redis/Queue/Flush.antt =====
-- redis_queue_flush: its loop ends when the list is empty.
use tcp_svr.Base.{
  ℕ, zero, suc, ◌<◌, Bytes, List, [], ◌∷◌, some, length, pos, true, ◌≡◌, refl, sym, ap, ◌∙◌, arith,
  subst,
}
use tcp_svr.Redis.Client.{lpop, Log, Server, Conn, unlocked, locked}
use tcp_svr.Redis.Calls.{goes_on, flush_loop, redis_queue_flush, get_reply, str_reply}
use tcp_svr.Redis.Queue.{Lists, popped_reply, tail}
use tcp_svr.Redis.Queue.Step.{standing, standing_eq}

-- The loop goes on until the list is empty.
module _ (r : Server) (key : Bytes) (content : Log → List Bytes) (laws : Lists r key content) where
  goes_on-popped :
      (s : Conn)
      → goes_on (r.replies s.log (lpop key)) ≡ goes_on (some (popped_reply (content s.log)))
  goes_on-popped s = ap goes_on (laws.pop_answer s.log)

  flush_loop-empties :
      (fuel : ℕ) (q : List Bytes) (s : Conn)
      → content s.log ≡ q
      → length q < fuel
      → (l : Log) × (flush_loop r key fuel s ≡ (true, record s { log = l })) × (content l ≡ [])
  unfolding flush_loop goes_on get_reply str_reply popped_reply
  flush_loop-empties zero q s holds enough = absurd (omega arith)
  flush_loop-empties (suc fuel) [] s holds enough = (
    lpop key ∷ s.log,
    rw (goes_on-popped s ∙ ap (λ x. goes_on (some (popped_reply x))) holds) refl,
    laws.pop_content s.log ∙ ap tail holds,
  )
  flush_loop-empties (suc fuel) (v ∷ q) s holds enough =
      let (l, done, empty) =
        flush_loop-empties fuel q (record s { log = lpop key ∷ s.log })
          (laws.pop_content s.log ∙ ap tail holds) (omega arith) in
      (l, rw (goes_on-popped s ∙ ap (λ x. goes_on (some (popped_reply x))) holds) done, empty)

  flushed :
      (s : Conn) (l : Log) (fuel : ℕ)
      → flush_loop r key fuel (record s { connected = true; lock = locked })
        ≡ (true, record s { connected = true; lock = locked; log = l })
      → redis_queue_flush r key fuel (standing s)
        ≡ some (some (pos 0), record (standing s) { log = l; queue_size = pos 0 })
  unfolding redis_queue_flush
  flushed s l fuel done = rw (redis_queue_flush, done) refl

  -- redis_queue_flush, of a connection that is there, nobody holding the lock, and a server that answers
  -- LPOP as documented, ends after one more request than the list has elements: the result is 0, the list is empty,
  -- the count in gRedisQueueSize is 0, and nobody holds the lock.
  pub redis_queue_flush-empties :
      (fuel : ℕ) (s : Conn)
      → s.connected ≡ true
      → s.lock ≡ unlocked
      → length (content s.log) < fuel
      → (s' : Conn) × (redis_queue_flush r key fuel s ≡ some (some (pos 0), s'))
        × (content s'.log ≡ [])
        × (s'.queue_size ≡ pos 0)
        × (s'.lock ≡ unlocked)
  unfolding redis_queue_flush
  redis_queue_flush-empties fuel s up free enough =
      let (l, done, empty) =
        flush_loop-empties fuel (content s.log) (record s { connected = true; lock = locked }) refl
          enough in
      (
        record (standing s) { log = l; queue_size = pos 0 },
        subst
            (λ (x : Conn).
              redis_queue_flush r key fuel x
              ≡ some (some (pos 0), record (standing s) { log = l; queue_size = pos 0 }))
            (sym (standing_eq s up free)) (flushed s l fuel done),
        empty,
        refl,
        refl,
      )
