-- ===== src/Cfg/Number/Pointer.antt =====
-- `cfg_getint` and `cfg_getint2`, which pass their pointer to an `int` on as a pointer to a `long`: a `long` has 8 bytes, the
-- low byte first, and an `int` 4. `none` is a fault, a store outside the memory among them.
use tcp_svr.Base.{
  ℕ, zero, suc, ◌+◌, ◌-◌, ◌/◌, ◌%◌, ◌^◌, ◌<◌, Bytes, [], ◌∷◌, ◌++◌, Option, none, some, length,
  take, drop, ℤ, pos, negsuc, is_zero, true, false, length-append, leb, if◌then◌else◌, ◌≡◌, refl,
  sym, ap, ◌∙◌, arith, append_assoc,
}
use tcp_svr.Cfg.Entry.{Config}
use tcp_svr.Cfg.Number.{cfg_getlong, cfg_getlong2}

low_bytes : ℕ → ℕ → Bytes
low_bytes zero n = []
low_bytes (suc k) n = n % 256 ∷ low_bytes k (n / 256)

-- The two's complement of a number.
pub long_bytes : ℤ → Bytes
long_bytes (pos n) = low_bytes 8 n
long_bytes (negsuc n) = low_bytes 8 (2 ^ 64 - 1 - n % 2 ^ 64)

-- *valptr = ..., where `valptr` is the index of a byte of the memory
pub store_long : ℕ → ℤ → Bytes → Option Bytes
store_long at v mem =
    if leb (at + 8) (length mem)
    then some (take at mem ++ (long_bytes v ++ drop (at + 8) mem))
    else none

stored_long : ℤ → ℕ → ℤ → Bytes → Option (ℤ × Bytes)
stored_long ret at v mem = elim (store_long at v mem) [ none ↦ none | some mem' ↦ some (ret, mem') ]

-- With a result other than 0 nothing is stored.
getint_stored : ℕ → Bytes → Option (ℤ × ℤ) → Option (ℤ × Bytes)
getint_stored at mem none = none
getint_stored at mem (some (ret, v)) = elim (is_zero ret) [
  | true ↦ stored_long ret at v mem
  | false ↦ some (ret, mem)
]

pub cfg_getint : Config → Option Bytes → Option Bytes → ℕ → Bytes → Option (ℤ × Bytes)
cfg_getint c s i at mem = getint_stored at mem (cfg_getlong c s i (pos 0))

getint2_stored : ℕ → Bytes → Option (ℤ × ℤ) → Option (ℤ × Bytes)
getint2_stored at mem none = none
getint2_stored at mem (some (ret, v)) = stored_long ret at v mem

pub cfg_getint2 : Config → Option Bytes → Option Bytes → ℤ → ℕ → Bytes → Option (ℤ × Bytes)
cfg_getint2 c s i default at mem = getint2_stored at mem (cfg_getlong2 c s i default)

-- The upper half of a small number is 0.
long_bytes-small :
    (n : ℕ) (rest : Bytes)
    → n < 2 ^ 31
    → long_bytes (pos n) ++ rest ≡ take 4 (long_bytes (pos n)) ++ (0 ∷ 0 ∷ 0 ∷ 0 ∷ rest)
unfolding long_bytes low_bytes
long_bytes-small n rest small =
    let gone : n / 256 / 256 / 256 / 256 ≡ 0 = omega arith in rw gone refl

take-append_length : (xs ys : Bytes) → take (length xs) (xs ++ ys) ≡ xs
take-append_length [] ys = refl
take-append_length (x ∷ xs) ys = ap (λ l. x ∷ l) (take-append_length xs ys)

drop-append_length : (n : ℕ) (xs ys : Bytes) → length xs ≡ n → drop n (xs ++ ys) ≡ ys
drop-append_length zero [] ys e = refl
drop-append_length zero (x ∷ xs) ys e = absurd (omega (arith, e))
drop-append_length (suc n) [] ys e = absurd (omega (arith, e))
drop-append_length (suc n) (x ∷ xs) ys e = drop-append_length n xs ys (omega (arith, e))

store_long-inside :
    (front over rest : Bytes) (v : ℤ)
    → length over ≡ 8
    → store_long (length front) v (front ++ (over ++ rest)) ≡ some (front ++ (long_bytes v ++ rest))
unfolding store_long
store_long-inside front over rest v eight =
    let inside : leb (length front + 8) (length (front ++ (over ++ rest))) ≡ true =
      ground (arith, length-append front (over ++ rest), length-append over rest) in
    let behind : drop (length front + 8) (front ++ (over ++ rest)) ≡ rest =
      ap (drop (length front + 8)) (sym (append_assoc front over rest))
      ∙ drop-append_length (length front + 8) (front ++ over) rest
          (omega (arith, length-append front over, eight)) in
    rw (inside, take-append_length front (over ++ rest), behind) refl

store_long-outside :
    (front over : Bytes) (v : ℤ)
    → length over < 8
    → store_long (length front) v (front ++ over) ≡ none
unfolding store_long
store_long-outside front over v short =
    let outside : leb (length front + 8) (length (front ++ over)) ≡ false =
      ground (arith, length-append front over) in
    rw outside refl

-- `cfg_getint2` into a variable at the end of the memory is a fault, whatever the file holds; with a variable of 4 bytes
-- behind it, that one is 0 after a number from 0 to 2 ^ 31 - 1 was read.
pub cfg_getint2-overwrites :
    (c : Config) (s i : Option Bytes) (default : ℤ) (ret : ℤ) (n : ℕ)
    (front variable behind rest : Bytes)
    → n < 2 ^ 31
    → length variable ≡ 4
    → length behind ≡ 4
    → cfg_getlong2 c s i default ≡ some (ret, pos n)
    → (cfg_getint2 c s i default (length front) (front ++ variable) ≡ none)
      × (cfg_getint2 c s i default (length front) (front ++ (variable ++ (behind ++ rest)))
          ≡ some (ret, front ++ (take 4 (long_bytes (pos n)) ++ (0 ∷ 0 ∷ 0 ∷ 0 ∷ rest))))
unfolding cfg_getint2 getint2_stored stored_long
cfg_getint2-overwrites c s i default ret n front variable behind rest small four more read =
    let inside =
      store_long-inside front (variable ++ behind) rest (pos n)
        (omega (arith, length-append variable behind)) in
    rw read (
      rw (getint2_stored, stored_long, store_long-outside front variable (pos n) (omega arith))
          refl,
      rw (getint2_stored, stored_long, ← append_assoc variable behind rest, inside)
          (ap (λ l. some (ret, front ++ l)) (long_bytes-small n rest small)),
    )
