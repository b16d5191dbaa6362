-- ===== src/Redis/Queue/Order.antt =====
-- Runs of redis_queue_rpush and redis_queue_lpop: the order of the values and the length of the list.
use tcp_svr.Base.{
  ℕ, suc, ◌+◌, ◌^◌, ◌≤◌, ◌<◌, Bytes, List, [], ◌∷◌, ◌++◌, Option, none, some, length, length-append,
  pos, is_neg, true, leb, if◌then◌else◌, ◌≡◌, refl, sym, ap, ◌∙◌, arith, inl, inr, Bool-cases,
  subst, map, append_assoc, append-nil,
}
use tcp_svr.Redis.Client.{Log, Server, Conn, unlocked}
use tcp_svr.Redis.Calls.{max_queue_size}
use tcp_svr.Redis.Queue.Step.{perform-Performed}
use tcp_svr.Redis.Queue.{
  Lists, Op, push, pop, Answer, pushed, popped, perform, run, Model, answer, next, answers, finish,
  Counts, Shows,
}

-- The call that an answer is of.
pub asked : Answer → Op
asked (pushed v ret) = push v
asked (popped ret o) = pop

-- The values of the pushes that did not fail, and those that pops gave, in order.
unfoldable pub accepted : List Answer → List Bytes
accepted [] = []
accepted (pushed v ret ∷ l) = if is_neg ret then accepted l else (v ∷ accepted l)
accepted (popped ret o ∷ l) = accepted l

unfoldable pub taken : List Answer → List Bytes
taken [] = []
taken (pushed v ret ∷ l) = taken l
taken (popped ret none ∷ l) = taken l
taken (popped ret (some v) ∷ l) = v ∷ taken l

-- The pops that gave none.
unfoldable pub missed : List Answer → ℕ
missed [] = 0
missed (pushed v ret ∷ l) = missed l
missed (popped ret none ∷ l) = suc (missed l)
missed (popped ret (some v) ∷ l) = missed l

length-next :
    (op : Op) (m : Model)
    → length (next op m).queue + (next op m).misses ≤ length m.queue + m.misses + 1
unfolding next
length-next (push v) m = elim (Bool-cases (leb (max_queue_size + m.misses) (length m.queue))) [
  | inl full ↦ rw full (omega arith)
  | inr room ↦ rw room (omega (arith, length-append m.queue (v ∷ [])))
]
length-next pop m = shorter m.queue
  where
    shorter :
        (q : List Bytes)
        → length (next pop (record m { queue = q })).queue
            + (next pop (record m { queue = q })).misses
          ≤ length q + m.misses + 1
    shorter [] = omega arith
    shorter (v ∷ q) = omega arith

next-bounded :
    (op : Op) (m : Model)
    → length m.queue ≤ max_queue_size + m.misses
    → length (next op m).queue ≤ max_queue_size + (next op m).misses
unfolding next
next-bounded (push v) m h = elim (Bool-cases (leb (max_queue_size + m.misses) (length m.queue))) [
  | inl full ↦ rw full h
  | inr room ↦ rw room (ground (arith, room, length-append m.queue (v ∷ [])))
]
next-bounded pop m h = shorter m.queue h
  where
    shorter :
        (q : List Bytes)
        → length q ≤ max_queue_size + m.misses
        → length (next pop (record m { queue = q })).queue
          ≤ max_queue_size + (next pop (record m { queue = q })).misses
    shorter [] h = omega arith
    shorter (v ∷ q) h = omega arith

finish-bounded :
    (ops : List Op) (m : Model)
    → length m.queue ≤ max_queue_size + m.misses
    → length (finish ops m).queue ≤ max_queue_size + (finish ops m).misses
unfolding finish
finish-bounded [] m h = h
finish-bounded (op ∷ ops) m h = finish-bounded ops (next op m) (next-bounded op m h)

asked-answer : (op : Op) (m : Model) → asked (answer op m) ≡ op
unfolding asked answer
asked-answer (push v) m = elim (Bool-cases (leb (max_queue_size + m.misses) (length m.queue))) [
  | inl full ↦ rw full refl
  | inr room ↦ rw room refl
]
asked-answer pop m = either m.queue
  where
    either : (q : List Bytes) → asked (answer pop (record m { queue = q })) ≡ pop
    either [] = refl
    either (v ∷ q) = refl

asked-answers : (ops : List Op) (m : Model) → map asked (answers ops m) ≡ ops
unfolding answers
asked-answers [] m = refl
asked-answers (op ∷ ops) m = rw (asked-answer op m, asked-answers ops (next op m)) refl

-- What one call takes, leaves and accepts, whatever comes later.
abbrev Flows : Op → Model → Type 0
Flows op m =
    (later : List Answer) (rest : List Bytes)
    → taken later ++ rest ≡ (next op m).queue ++ accepted later
    → taken (answer op m ∷ later) ++ rest ≡ m.queue ++ accepted (answer op m ∷ later)

push-Flows : (v : Bytes) (m : Model) → Flows (push v) m
unfolding answer next taken accepted
push-Flows v m later rest e = elim (Bool-cases (leb (max_queue_size + m.misses) (length m.queue))) [
  | inl full ↦ rw full (e ∙ rw full refl)
  | inr room ↦ rw room (e ∙ rw room (append_assoc m.queue (v ∷ []) (accepted later)))
]

pop-Flows : (q : List Bytes) (k : ℕ) → Flows pop (record { queue = q; misses = k })
unfolding answer next taken accepted
pop-Flows [] k later rest e = e
pop-Flows (v ∷ q) k later rest e = ap (λ l. v ∷ l) e

next-Flows : (op : Op) (m : Model) → Flows op m
next-Flows (push v) m = push-Flows v m
next-Flows pop m = pop-Flows m.queue m.misses

answers-flow :
    (ops : List Op) (m : Model)
    → taken (answers ops m) ++ (finish ops m).queue ≡ m.queue ++ accepted (answers ops m)
unfolding answers finish taken accepted
answers-flow [] m = sym (append-nil m.queue)
answers-flow (op ∷ ops) m =
    next-Flows op m (answers ops (next op m)) (finish ops (next op m)).queue
      (answers-flow ops (next op m))

missed-answer :
    (op : Op) (m : Model) (later : List Answer)
    → m.misses + missed (answer op m ∷ later) ≡ (next op m).misses + missed later
unfolding answer next missed
missed-answer (push v) m later =
    elim (Bool-cases (leb (max_queue_size + m.misses) (length m.queue))) [
      | inl full ↦ rw full refl
      | inr room ↦ rw room refl
    ]
missed-answer pop m later = either m.queue
  where
    either :
        (q : List Bytes)
        → m.misses + missed (answer pop (record m { queue = q }) ∷ later)
          ≡ (next pop (record m { queue = q })).misses + missed later
    either [] = omega arith
    either (v ∷ q) = refl

missed-answers :
    (ops : List Op) (m : Model) → (finish ops m).misses ≡ m.misses + missed (answers ops m)
unfolding answers finish missed
missed-answers [] m = omega arith
missed-answers (op ∷ ops) m =
    missed-answers ops (next op m) ∙ sym (missed-answer op m (answers ops (next op m)))

run-step :
    (r : Server) (key : Bytes) (op : Op) (ops : List Op) (s s₁ s₂ : Conn) (a : Answer)
    (l : List Answer)
    → perform r key op s ≡ some (a, s₁)
    → run r key ops s₁ ≡ some (l, s₂)
    → run r key (op ∷ ops) s ≡ some (a ∷ l, s₂)
unfolding run
run-step r key op ops s s₁ s₂ a l e f =
    let rest : Answer → Option (List Answer × Conn) → Option (List Answer × Conn) =
      λ b o. elim o [ none ↦ none | some (later, x) ↦ some (b ∷ later, x) ] in
    ap (λ o. elim o [ none ↦ none | some (b, x) ↦ rest b (run r key ops x) ]) e ∙ ap (rest a) f

module _ (r : Server) (key : Bytes) (content : Log → List Bytes) (laws : Lists r key content) where
  -- A run of redis_queue_rpush and redis_queue_lpop, of a connection that is there, nobody holding the
  -- lock, and a server that answers RPUSH and LPOP as documented, has no fault and gives the answers of a queue that takes a value while its length, less
  -- the pops that found it empty, is below 2000; the server's list, and the count in gRedisQueueSize, are the
  -- queue's then too. The length, the pops that found it empty and the calls are below 2 ^ 31 together.
  pub run-answers :
      (ops : List Op) (m : Model) (s : Conn)
      → Shows content m s
      → length m.queue + m.misses + length ops < 2 ^ 31
      → (s' : Conn) × (run r key ops s ≡ some (answers ops m, s')) × Shows content (finish ops m) s'
  unfolding run answers finish
  run-answers [] m s w small = (s, refl, w)
  run-answers (op ∷ ops) m s w small =
      let p = perform-Performed r key content laws op m s w (omega arith) in
      let (s', done, w') =
        run-answers ops (next op m) p.then_on p.shows (omega (arith, length-next op m)) in
      (
        s',
        run-step r key op ops s p.then_on s' (answer op m) (answers ops (next op m)) p.done done,
        w',
      )

  -- A run of redis_queue_rpush and redis_queue_lpop, of a connection that is there, nobody holding the
  -- lock, with a server that answers RPUSH and LPOP as documented and a count in gRedisQueueSize that is the list's length, at most 2000, has no fault
  -- and answers each call. The values that pops gave, in their order, and then the list that is left, are the list from before
  -- and then the values of the pushes that did not fail, in theirs; and the list has at most
  -- 2000 elements, and one more for each pop that gave none. The length and the calls are below 2 ^ 31 together.
  pub run-fifo :
      (ops : List Op) (s : Conn)
      → s.connected ≡ true
      → s.lock ≡ unlocked
      → s.queue_size ≡ pos (length (content s.log))
      → length (content s.log) ≤ max_queue_size
      → length (content s.log) + length ops < 2 ^ 31
      → (s' : Conn) × (l : List Answer) × (run r key ops s ≡ some (l, s'))
        × (map asked l ≡ ops)
        × (taken l ++ content s'.log ≡ content s.log ++ accepted l)
        × (length (content s'.log) ≤ max_queue_size + missed l)
  unfolding Counts
  run-fifo ops s up free counts few small =
      let m : Model = record { queue = content s.log; misses = 0 } in
      let start : Shows content m s = record {
        up = up;
        free = free;
        counts = subst (Counts m) (sym counts) (omega arith);
        holds = refl;
      } in
      let (s', done, w) = run-answers ops m s start (omega arith) in
      (
        s',
        answers ops m,
        done,
        asked-answers ops m,
        ap (λ q. taken (answers ops m) ++ q) w.holds ∙ answers-flow ops m,
        omega (arith, ap length w.holds, finish-bounded ops m (omega arith), missed-answers ops m),
      )
