-- ===== src/Redis/Context/Kept.antt =====
-- The contexts and the replies that `_connect` of redis_api.cpp leaves.
use tcp_svr.Base.{
  ℕ, List, [], ◌∷◌, codes, Option, none, some, Bool, true, false, ◌≡◌, refl, sym, ap, subst, ◌∙◌,
  inl, inr, Bool-cases, Option-cases,
}
use tcp_svr.Redis.Client.{Reply}
use tcp_svr.Vos.Blocks.{without, without-head, given}
use tcp_svr.Redis.Context.{
  ConnectionType, conn_tcp, conn_unix, conn_fd, RedisCfg, Call, redis_connect, redis_connect_unix,
  redis_connect_fd, redis_command, redis_free, redis_free_keep_fd, free_reply_object, Answer,
  History, Hiredis, Ended, returned, exited, aborted, with_err, used, select_database, disconnect,
  open_context, connect_config, asserted, is_empty_db, ◌>>=◌,
}

abbrev numbered : Option (ℕ × Reply) → List ℕ → List ℕ
numbered none l = l
numbered (some p) l = p.0 ∷ l

-- What a call makes of the contexts and of the replies.
track : Call → Answer → List ℕ × List ℕ → List ℕ × List ℕ
track (redis_connect host port) a (cs, rs) = (given a.context cs, rs)
track (redis_connect_unix path) a (cs, rs) = (given a.context cs, rs)
track (redis_connect_fd fd) a (cs, rs) = (given a.context cs, rs)
track (redis_command c text) a (cs, rs) = (cs, numbered a.reply rs)
track (redis_free c) a (cs, rs) = (without c cs, rs)
track (redis_free_keep_fd c) a (cs, rs) = (without c cs, rs)
track (free_reply_object p) a (cs, rs) = (cs, without p rs)

-- The contexts and the replies that the library gave and was not given back.
pub live : Hiredis → History → List ℕ × List ℕ
live r [] = ([], [])
live r (c ∷ h) = track c (r h c) (live r h)

-- What is left behind, by how `_connect` ends.
pub Leaves : Hiredis → History → Ended (Option ℕ) → History → Type 0
Leaves r h (returned (some c)) h' = live r h' ≡ (c ∷ (live r h).0, (live r h).1)
Leaves r h (returned none) h' =
    (out : ℕ × ℕ) × (live r h' ≡ (out.0 ∷ (live r h).0, out.1 ∷ (live r h).1))
Leaves r h exited h' = live r h' ≡ live r h
Leaves r h aborted h' = (c : ℕ) × (live r h' ≡ (c ∷ (live r h).0, (live r h).1))

select_database-Leaves :
    (r : Hiredis) (c : ℕ) (h0 h : History)
    → live r h ≡ (c ∷ (live r h0).0, (live r h0).1)
    → Leaves r h0 (select_database r c h).0 (select_database r c h).1
unfolding select_database asserted Leaves live track
select_database-Leaves r c h0 h opened =
    let select = redis_command c (codes "SELECT 9") in
    let dbsize = redis_command c (codes "DBSIZE") in
    elim (Option-cases (r h select).reply) [
      | inl none1 ↦ rw none1 (c, rw (none1, opened) refl)
      | inr (p, some1) ↦
          let h2 = free_reply_object p.0 ∷ select ∷ h in
          elim (Option-cases (r h2 dbsize).reply) [
            | inl none2 ↦
                rw (some1, none2)
                  (c, rw (some1, none2, opened, without-head p.0 (live r h0).1) refl)
            | inr (q, some2) ↦ elim (Bool-cases (is_empty_db q.1)) [
              | inl empty ↦
                  rw (some1, some2, empty)
                    (rw
                      (
                        opened,
                        some1,
                        without-head p.0 (live r h0).1,
                        some2,
                        without-head q.0 (live r h0).1,
                      )
                      refl)
              | inr full ↦
                  rw (some1, some2, full)
                    ((c, q.0), rw (opened, some1, without-head p.0 (live r h0).1, some2) refl)
            ]
          ]
    ]

abbrev opened_in : Option (ℕ × Bool) → List ℕ × List ℕ → List ℕ × List ℕ
opened_in none l = l
opened_in (some c) l = (c.0 ∷ l.0, l.1)

with_err-opened :
    (a : Answer) (l : List ℕ × List ℕ) → (given a.context l.0, l.1) ≡ opened_in (with_err a) l
with_err-opened a l = elim (Option-cases a.context) [
  | inl nothing ↦ rw nothing refl
  | inr (c, got) ↦ rw got refl
]

-- A context opened is one more; a first context, for its descriptor, is given back.
open_context-opened :
    (r : Hiredis) (cfg : RedisCfg) (k : ConnectionType) (h : History)
    → (o : Option (ℕ × Bool)) × (h' : History) × (open_context r cfg k h ≡ (returned o, h'))
      × (live r h' ≡ opened_in o (live r h))
unfolding open_context disconnect live track
open_context-opened r cfg conn_tcp h =
    let c = redis_connect cfg.host cfg.port in
    (with_err (r h c), c ∷ h, refl, with_err-opened (r h c) (live r h))
open_context-opened r cfg conn_unix h =
    let c = redis_connect_unix cfg.path in
    (with_err (r h c), c ∷ h, refl, with_err-opened (r h c) (live r h))
open_context-opened r cfg conn_fd h =
    let first = redis_connect_unix cfg.path in
    elim (Option-cases (r h first).context) [
      | inl nothing ↦ (none, first ∷ h, rw nothing refl, rw nothing refl)
      | inr (d, got) ↦
          let kept = redis_free_keep_fd d ∷ first ∷ h in
          let again = redis_connect_fd (r (first ∷ h) (redis_free_keep_fd d)).fd in
          let back : live r kept ≡ live r h = rw (got, without-head d (live r h).0) refl in
          (
            with_err (r kept again),
            again ∷ kept,
            rw got refl,
            with_err-opened (r kept again) (live r kept)
                ∙ ap (opened_in (with_err (r kept again))) back,
          )
    ]

-- `_connect` gives back all contexts and replies but the context that it returns. Where database 9 is not empty it returns
-- a null pointer and leaves the context and a reply behind; where a failed `assert` ends the process, the context.
pub connect_config-Leaves :
    (r : Hiredis) (cfg : RedisCfg) (h : History)
    → Leaves r h (connect_config r cfg h).0 (connect_config r cfg h).1
unfolding connect_config Leaves live track
connect_config-Leaves r cfg h =
    let (o, h', done, all) = open_context-opened r cfg cfg.kind h in
    let same : connect_config r cfg h ≡ used r o h' = ap (λ out. ((λ _. out) >>= used r) h) done in
    subst (λ out. Leaves r h out.0 out.1) (sym same) (ends o h' all)
  where
    ends :
        (o : Option (ℕ × Bool)) (h' : History)
        → live r h' ≡ opened_in o (live r h)
        → let out = used r o h' in Leaves r h out.0 out.1
    ends none h' all = all
    ends (some (c, true)) h' all = rw (all, without-head c (live r h).0) refl
    ends (some (c, false)) h' all = select_database-Leaves r c h h' all
