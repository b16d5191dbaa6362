-- ===== src/Svr/Connection/Threads.antt =====
-- The threads of several connections, one round at a time in any order: what each socket is sent. A round is not cut by another
-- thread's; Request/Shared has what happens to a message where the calls of strtok are.
pub mod Own
pub mod Apart
use tcp_svr.Base.{
  ℕ, zero, suc, Bytes, List, [], ◌∷◌, ◌++◌, ℤ, Bool, true, false, eq_ℤ, if◌then◌else◌, ◌≡◌, refl,
  sym, ap, ◌∙◌,
}
use tcp_svr.Os.{Os, M, Call, Answer, History, taken}
use tcp_svr.Svr.Connection.{Round, again, leave, conn_round}
use tcp_svr.Svr.Connection.Stream.{due}

-- A connection's thread: its socket, `tickCount`, and whether it is in its loop.
pub record Thread : Type 0 where
  pub sock : ℤ
  pub count : ℕ
  pub running : Bool

pub after_round : Thread → Round → Thread
after_round t (again n) = record t { count = n }
after_round t (leave n) = record t { count = n; running = false }

-- A round of a thread that is in its loop.
unfoldable pub step : Os → Thread → M Thread
step os t h =
    let (r, h') = conn_round os t.sock t.count h in
    if t.running then (after_round t r, h') else (t, h)

-- The turn of one of the threads.
unfoldable pub turn : Os → ℕ → List Thread → M (List Thread)
turn os i [] h = ([], h)
turn os zero (t ∷ ts) h = let (t', h') = step os t h in (t' ∷ ts, h')
turn os (suc i) (t ∷ ts) h = let (ts', h') = turn os i ts h in (t ∷ ts', h')

-- The turns of a schedule.
unfoldable pub turns : Os → List ℕ → List Thread → M (List Thread)
turns os [] ts h = (ts, h)
turns os (i ∷ is) ts h = let (ts', h') = turn os i ts h in turns os is ts' h'

-- The socket that bytes go to or come from.
unfoldable pub is_on : ℤ → Call → Bool
is_on s (Call.send fd bs) = eq_ℤ fd s
is_on s (Call.recv fd n) = eq_ℤ fd s
is_on s c = true

-- What one socket was sent, and what it is owed.
unfoldable pub delivered_on : Os → ℤ → History → Bytes
delivered_on os s [] = []
delivered_on os s (c ∷ h) = delivered_on os s h ++ (if is_on s c then taken c (os h c) else [])

unfoldable pub owed_on : Os → ℤ → History → Bytes
owed_on os s [] = []
owed_on os s (c ∷ h) = owed_on os s h ++ (if is_on s c then due c (os h c) else [])
