-- ===== src/Vos/Rounded.antt =====
-- The size that osMalloc asks for.
use tcp_svr.Base.{
  ℕ, ◌+◌, ◌-◌, ◌%◌, ◌^◌, ◌≤◌, ◌<◌, pos, ltb, ◌==◌, true, false, ◌≡◌, refl, arith, Bool-cases, inl,
  inr, ◌∷◌,
}
use tcp_svr.Vos.{rounded, to_size, Libc, History, os_malloc, calloc}

-- osMalloc of a size that is not negative and at most 2 ^ 31 - 4096 makes one call of calloc(3), for the least multiple of 4096 that is not
-- below the size; for a size of 0 that is 0.
pub os_malloc-multiple :
    (l : Libc) (n : ℕ) (h : History)
    → n ≤ 2 ^ 31 - 4096
    → (m : ℕ) × ((os_malloc l (pos n) h).1 ≡ calloc m ∷ h)
      × (m % 4096 ≡ 0)
      × (n ≤ m)
      × (m < n + 4096)
unfolding os_malloc rounded to_size
os_malloc-multiple l n h small = elim (Bool-cases (n % 4096 == 0)) [
  | inl whole ↦ (n, rw whole refl, ground (arith, whole), omega arith, omega arith)
  | inr part ↦
      let fits : ltb (n + (4096 - n % 4096)) (2 ^ 31) ≡ true = ground arith in
      let below : n + (4096 - n % 4096) < n + 4096 = ground (arith, part) in
      (n + (4096 - n % 4096), rw (part, fits) refl, omega arith, omega arith, below)
]

-- Above that, up to the greatest `int`, the sum wraps around: calloc(3) is asked for 2 ^ 64 - 2 ^ 31 bytes.
pub os_malloc-wraps :
    (l : Libc) (n : ℕ) (h : History)
    → 2 ^ 31 - 4096 < n
    → n < 2 ^ 31
    → (os_malloc l (pos n) h).1 ≡ calloc (2 ^ 64 - 2 ^ 31) ∷ h
unfolding os_malloc rounded to_size
os_malloc-wraps l n h low high =
    let part : (n % 4096 == 0) ≡ false = ground arith in
    let over : ltb (n + (4096 - n % 4096)) (2 ^ 31) ≡ false = ground arith in
    let sum : n + (4096 - n % 4096) ≡ 2 ^ 31 = omega arith in rw (part, over, sum) refl
