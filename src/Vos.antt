-- ===== src/Vos.antt =====
-- ctcpsvr/vos.cpp: threads, semaphores and memory. The C library is a parameter: what it answers to a call by
-- all the calls made before.
pub mod Blocks
pub mod Rounded
use tcp_svr.Base.{
  ℕ, suc, ◌+◌, ◌-◌, ◌%◌, ◌^◌, Bytes, List, [], ◌∷◌, Option, none, some, length, ℤ, pos, negsuc,
  is_zero, leb, ltb, ◌==◌, if◌then◌else◌,
}

pub data Call : Type 0 where
  malloc calloc free : ℕ → Call
  pthread_create pthread_join : ℕ → Call
  sem_init : ℕ → ℤ → Call
  sem_trywait sem_wait sem_post sem_destroy : ℕ → Call

-- The address that an allocation gives, or a null pointer; what the other calls return.
pub record Answer : Type 0 where
  pub block : Option ℕ
  pub ret : ℤ

-- The latest call first.
abbrev pub History : Type 0
History = List Call

abbrev pub Libc : Type 0
Libc = History → Call → Answer

abbrev pub M : Type 0 → Type 0
M A = History → A × History

abbrev pub pure : {A : Type 0} → A → M A
pure a h = (a, h)

infixl 5 ◌>>=◌
abbrev pub ◌>>=◌ : {A B : Type 0} → M A → (A → M B) → M B
◌>>=◌ m f h = let (a, h') = m h in f a h'

abbrev pub ask : Libc → Call → M Answer
ask l c h = (l h c, c ∷ h)

-- sizeof (pthread_t), sizeof (sem_t)
abbrev pub thread_size : ℕ
thread_size = 8

abbrev pub semaphore_size : ℕ
semaphore_size = 32

-- `none` is a null pointer.
unfoldable pub os_create_thread : Libc → M (Option ℕ)
os_create_thread l = do
  a ← ask l (malloc thread_size)
  elim a.block [
    | none ↦ pure none
    | some p ↦ do b ← ask l (pthread_create p); pure (if is_zero b.ret then some p else none)
  ]

unfoldable pub os_join_thread : Libc → Option ℕ → M ℤ
os_join_thread l none = pure (pos 0)
os_join_thread l (some p) = do _ ← ask l (pthread_join p); _ ← ask l (free p); pure (pos 0)

-- A null name is a fault, of strlen(3).
unfoldable pub os_create_semaphore : Libc → Bytes → ℤ → M (Option ℕ)
os_create_semaphore l name level = do
  a ← ask l (malloc (semaphore_size + length name))
  elim a.block [ none ↦ pure none | some p ↦ do _ ← ask l (sem_init p level); pure (some p) ]

-- A call on a semaphore, where there is one.
abbrev on : Libc → (ℕ → Call) → Option ℕ → M ℤ
on l c none = pure (pos 0)
on l c (some p) = do a ← ask l (c p); pure a.ret

pub os_try_wait_semaphore : Libc → Option ℕ → M ℤ
os_try_wait_semaphore l s = on l sem_trywait s

pub os_wait_semaphore : Libc → Option ℕ → M ℤ
os_wait_semaphore l s = on l sem_wait s

pub os_post_semaphore : Libc → Option ℕ → M ℤ
os_post_semaphore l s = on l sem_post s

unfoldable pub os_destroy_semaphore : Libc → Option ℕ → M ℤ
os_destroy_semaphore l none = pure (pos 0)
os_destroy_semaphore l (some p) = do _ ← ask l (sem_destroy p); _ ← ask l (free p); pure (pos 0)

-- The `int` of osMalloc, raised to a multiple of 4096: the sum wraps around.
unfoldable pub rounded : ℤ → ℤ
rounded (pos n) =
    let m = n + (4096 - n % 4096) in
    if n % 4096 == 0 then pos n else if ltb m (2 ^ 31) then pos m else negsuc (2 ^ 32 - 1 - m)
rounded (negsuc n) =
    let low = 4095 - n % 4096 in
    if low == 0
    then negsuc n
    else if leb (suc n) (4096 - low)
    then pos (4096 - low - suc n)
    else negsuc (n - (4096 - low))

-- An `int` as a `size_t`
unfoldable pub to_size : ℤ → ℕ
to_size (pos n) = n
to_size (negsuc n) = 2 ^ 64 - 1 - n

unfoldable pub os_malloc : Libc → ℤ → M (Option ℕ)
os_malloc l size = do a ← ask l (calloc (to_size (rounded size))); pure a.block

unfoldable pub os_free : Libc → Option ℕ → M (Unit {0})
os_free l none = pure tt
os_free l (some p) = do _ ← ask l (free p); pure tt
