-- ===== src/Tests/Memory.antt =====
-- A C library whose allocations succeed.
use tcp_svr.Base.{
  ℕ, ◌+◌, ◌%◌, ◌≤◌, ◌<◌, [], ◌∷◌, some, none, is_zero, if◌then◌else◌, length, pos, ◌≡◌, refl, arith,
}
use tcp_svr.Vos.{
  calloc, malloc, pthread_create, thread_size, Libc, os_malloc, os_create_thread, os_join_thread,
}
use tcp_svr.Vos.Rounded.{os_malloc-multiple}
use tcp_svr.Vos.Blocks.{blocks, os_create_thread-blocks}

-- The blocks are numbered by the calls before.
abbrev plenty : Libc
plenty h c = record { block = some (length h); ret = pos 0 }

os_malloc-multiple_example :
    (m : ℕ) × ((os_malloc plenty (pos 5000) []).1 ≡ calloc m ∷ [])
    × (m % 4096 ≡ 0)
    × (5000 ≤ m)
    × (m < 5000 + 4096)
os_malloc-multiple_example = os_malloc-multiple plenty 5000 [] (omega arith)

os_create_thread-blocks_example :
    let started = is_zero (plenty (malloc thread_size ∷ []) (pthread_create 0)).ret in
    let out = os_create_thread plenty [] in
    let joined = os_join_thread plenty out.0 out.1 in
    (out.0 ≡ (if started then some 0 else none))
    × (blocks plenty out.1 ≡ 0 ∷ blocks plenty [])
    × (blocks plenty joined.1 ≡ (if started then blocks plenty [] else 0 ∷ blocks plenty []))
os_create_thread-blocks_example = os_create_thread-blocks plenty [] 0 refl
