-- ===== src/Vos/Blocks.antt =====
-- The blocks of memory that the routines of vos.cpp hold.
use tcp_svr.Base.{
  ℕ, List, [], ◌∷◌, Option, none, some, is_zero, true, ◌==◌, if◌then◌else◌, ◌≡◌, refl, arith,
  Bool-cases, inl, inr,
}
use tcp_svr.Vos.{
  Call, malloc, calloc, free, pthread_create, History, Libc, thread_size, os_create_thread,
  os_join_thread,
}

pub without : ℕ → List ℕ → List ℕ
without p [] = []
without p (x ∷ l) = if x == p then l else x ∷ without p l

abbrev pub given : Option ℕ → List ℕ → List ℕ
given none l = l
given (some p) l = p ∷ l

-- What a call makes of the blocks.
track : Call → Option ℕ → List ℕ → List ℕ
track (malloc n) b l = given b l
track (calloc n) b l = given b l
track (free p) b l = without p l
track c b l = l

-- The blocks that were allocated and not freed.
pub blocks : Libc → History → List ℕ
blocks l [] = []
blocks l (c ∷ h) = track c (l h c).block (blocks l h)

eq_refl : (n : ℕ) → (n == n) ≡ true
eq_refl n = ground arith

pub without-head : (p : ℕ) (l : List ℕ) → without p (p ∷ l) ≡ l
unfolding without
without-head p l = rw (eq_refl p) refl

-- osCreateThread, if malloc(3) gives a block: where pthread_create(3) succeeds, the thread's handle is that block, and
-- osJoinThread of the handle frees it; where it fails, there is no handle, and the block stays allocated whatever
-- osJoinThread is called with none.
pub os_create_thread-blocks :
    (l : Libc) (h : History) (p : ℕ)
    → (l h (malloc thread_size)).block ≡ some p
    → let started = is_zero (l (malloc thread_size ∷ h) (pthread_create p)).ret in
      let out = os_create_thread l h in
      let joined = os_join_thread l out.0 out.1 in
      (out.0 ≡ (if started then some p else none))
      × (blocks l out.1 ≡ p ∷ blocks l h)
      × (blocks l joined.1 ≡ (if started then blocks l h else p ∷ blocks l h))
unfolding os_create_thread os_join_thread blocks track
os_create_thread-blocks l h p given =
    elim (Bool-cases (is_zero (l (malloc thread_size ∷ h) (pthread_create p)).ret)) [
      | inl fine ↦ rw (given, fine) (refl, rw given refl, rw given (without-head p (blocks l h)))
      | inr failed ↦ rw (given, failed) (refl, rw given refl, rw given refl)
    ]
