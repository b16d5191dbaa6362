-- ===== src/Cfg/Number.antt =====
-- Numbers in configuration files: `sprintf` with %d and %ld, `atoi`, and the functions of cfgfile.cpp that get
-- and set numbers. `none` is a fault: a text that is longer than its buffer, a null pointer, or a number
-- that `atoi` leaves undefined. `before` is what the caller's variable holds before a call.
pub mod Decimal
pub mod Session
pub mod Pointer
use tcp_svr.Base.{
  ℕ, zero, suc, ◌+◌, ◌-◌, ◌*◌, ◌/◌, ◌%◌, ◌^◌, Bytes, List, [], ◌∷◌, ◌++◌, Option, none, some,
  length, ℤ, pos, negsuc, neg, is_zero, to_ℕ, codes, Bool, true, false, ◌==◌, leb, ltb, not, ◌&&◌,
  if◌then◌else◌,
}
use tcp_svr.Cfg.Entry.{Config, ◌>>=◌}
use tcp_svr.Cfg.Text.{is_space}
use tcp_svr.Cfg.Cursor.{Outcome, cfg_find}
use tcp_svr.Cfg.Write.{cfg_write}
use tcp_svr.Cfg.Disk.{Disk}
use tcp_svr.Cfg.File.{Opened, cfg_init}
use tcp_svr.Cfg.File.Api.{cfg_getstring, with_state, cfg_write_str}

-- The digits of a number, on fuel.
unfoldable pub decimal_from : ℕ → ℕ → Bytes
decimal_from zero n = []
decimal_from (suc fuel) n =
    let front = decimal_from fuel (n / 10) in
    if ltb n 10 then (b'0' + n) ∷ [] else front ++ (b'0' + n % 10) ∷ []

-- Each digit but the last divides the number by ten.
unfoldable pub decimal : ℕ → Bytes
decimal n = decimal_from (suc n) n

-- %d and %ld
unfoldable pub print_number : ℤ → Bytes
print_number (pos n) = decimal n
print_number (negsuc n) = b'-' ∷ decimal (suc n)

-- %x
pub hex_from : ℕ → ℕ → Bytes
hex_from zero n = []
hex_from (suc fuel) n =
    let front = hex_from fuel (n / 16) in
    let digit = if ltb (n % 16) 10 then b'0' + n % 16 else b'a' + (n % 16 - 10) in
    if ltb n 16 then digit ∷ [] else front ++ digit ∷ []

-- "0x%0x" of an `int`, which is printed as unsigned
pub print_hex : ℕ → Bytes
print_hex n = codes "0x" ++ hex_from (suc n) n

unfoldable pub is_digit : ℕ → Bool
is_digit b = leb b'0' b && leb b b'9'

unfoldable pub digits_value : ℕ → Bytes → ℕ
digits_value acc [] = acc
digits_value acc (b ∷ bs) =
    let value = digits_value (acc * 10 + (b - b'0')) bs in if is_digit b then value else acc

unfoldable pub skip_spaces : Bytes → Bytes
skip_spaces [] = []
skip_spaces (b ∷ bs) = if is_space b then skip_spaces bs else b ∷ bs

-- The numbers of an `int`; the others are undefined.
unfoldable pub int_of : Bool → ℕ → Option ℤ
int_of true n = if leb n (2 ^ 31) then some (neg n) else none
int_of false n = if ltb n (2 ^ 31) then some (pos n) else none

unfoldable pub signed_value : Bytes → Option ℤ
signed_value [] = some (pos 0)
signed_value (b ∷ bs) =
    if b == b'-'
    then int_of true (digits_value 0 bs)
    else if b == b'+'
    then int_of false (digits_value 0 bs)
    else int_of false (digits_value 0 (b ∷ bs))

unfoldable pub atoi : Bytes → Option ℤ
atoi s = signed_value (skip_spaces s)

-- The conversion to an unsigned type of `w` bits.
unfoldable pub to_unsigned : ℕ → ℤ → ℤ
to_unsigned w (pos n) = pos (n % 2 ^ w)
to_unsigned w (negsuc n) = pos (2 ^ w - 1 - n % 2 ^ w)

-- `code` and `other` are returned and stored where nothing is found; `convert` is the assignment.
pub get_number : (ℤ → ℤ) → ℤ → ℤ → Option Outcome → Option (ℤ × ℤ)
get_number convert code other none = none
get_number convert code other (some (negsuc n, c)) = some (code, other)
get_number convert code other (some (pos n, c)) = do
  v ← c.cur_value
  x ← atoi v
  some (pos 0, convert x)

-- `long` has the numbers of `int`.
abbrev as_long : ℤ → ℤ
as_long x = x

unfoldable pub cfg_getlong : Config → Option Bytes → Option Bytes → ℤ → Option (ℤ × ℤ)
cfg_getlong c s i before = get_number as_long (neg 2) before (cfg_find c s i)

unfoldable pub cfg_getlong2 : Config → Option Bytes → Option Bytes → ℤ → Option (ℤ × ℤ)
cfg_getlong2 c s i default = get_number as_long (pos 0) default (cfg_find c s i)

pub cfg_getshort : Config → Option Bytes → Option Bytes → ℤ → Option (ℤ × ℤ)
cfg_getshort c s i before = get_number (to_unsigned 16) (neg 2) before (cfg_find c s i)

pub cfg_getshort2 : Config → Option Bytes → Option Bytes → ℤ → Option (ℤ × ℤ)
cfg_getshort2 c s i default = get_number (to_unsigned 16) (pos 0) default (cfg_find c s i)

pub cfg_getbyte : Config → Option Bytes → Option Bytes → ℤ → Option (ℤ × ℤ)
cfg_getbyte c (some s) (some i) before =
    get_number (to_unsigned 8) (neg 2) (pos 255) (cfg_find c (some s) (some i))
cfg_getbyte c _ _ before = some (neg 1, before)

pub cfg_getbyte2 : Config → Option Bytes → Option Bytes → ℤ → Option (ℤ × ℤ)
cfg_getbyte2 c s i default = get_number (to_unsigned 8) (pos 0) default (cfg_find c s i)

-- A number printed into 16 bytes and written.
pub write_number : Config → Option Bytes → Option Bytes → ℤ → Option Outcome
write_number c s i value =
    if ltb (length (print_number value)) 16
    then cfg_write c s i (some (print_number value))
    else none

pub cfg_writelong : Config → Option Bytes → Option Bytes → ℤ → Option Outcome
cfg_writelong c s i value = write_number c s i value

pub cfg_writeint : Config → Option Bytes → Option Bytes → ℤ → Option Outcome
cfg_writeint c s i value = write_number c s i value

pub cfg_writeshort : Config → Option Bytes → Option Bytes → ℤ → Option Outcome
cfg_writeshort c s i value = write_number c s i (to_unsigned 16 value)

pub cfg_writebyte : Config → Option Bytes → Option Bytes → ℤ → Option Outcome
cfg_writebyte c s i value = write_number c s i (to_unsigned 8 value)

-- What the text of a value leads to: it is copied into 64 bytes first. `found` is for a result of 0.
unfoldable pub number_from : (ℤ → ℤ) → ℤ → Option (ℤ × Bytes) → Option (ℤ × ℤ)
number_from convert other none = none
number_from convert other (some (ret, text)) =
    if leb 64 (length text) then none else elim (is_zero ret) [
      | true ↦ (atoi text >>= λ x. some (ret, convert x))
      | false ↦ some (ret, other)
    ]

module _ (d : Disk) where
  -- The part behind `cfg_init`; `other` is stored where the key is missing.
  unfoldable pub number_in :
      (ℤ → ℤ) → ℤ → Option Bytes → Option Bytes → ℤ → Opened d → Option ((ℤ × ℤ) × d.State)
  number_in convert other s i before none = none
  number_in convert other s i before (some ((ret, none), st)) = some ((ret, before), st)
  number_in convert other s i before (some ((ret, some h), st)) =
      with_state d st (number_from convert other (cfg_getstring h.conf s i))

  -- `Cfg_ReadInt`
  unfoldable pub cfg_read_int :
      d.State → Option Bytes → Option Bytes → Option Bytes → ℤ → ℤ → Option ((ℤ × ℤ) × d.State)
  cfg_read_int st f s i before default =
      number_in (λ x. x) default s i before (cfg_init d st f false)

  -- `Cfg_ReadShort`
  pub cfg_read_short :
      d.State → Option Bytes → Option Bytes → Option Bytes → ℤ → Option ((ℤ × ℤ) × d.State)
  cfg_read_short st f s i before =
      number_in (to_unsigned 16) before s i before (cfg_init d st f false)

  -- `Cfg_Readbyte`
  pub cfg_readbyte :
      d.State → Option Bytes → Option Bytes → Option Bytes → ℤ → Option ((ℤ × ℤ) × d.State)
  cfg_readbyte st f s i before =
      number_in (to_unsigned 8) (pos 255) s i before (cfg_init d st f false)

  -- `Cfg_WriteInt`: a `long` prints into 64 bytes.
  unfoldable pub cfg_write_int :
      d.State → Option Bytes → Option Bytes → Option Bytes → ℤ → Option (ℤ × d.State)
  cfg_write_int st f s i value = cfg_write_str d st f s i (some (print_number value))

  -- `Cfg_WriteHexInt`
  pub cfg_write_hex_int :
      d.State → Option Bytes → Option Bytes → Option Bytes → ℤ → Option (ℤ × d.State)
  cfg_write_hex_int st f s i value =
      cfg_write_str d st f s i (some (print_hex (to_ℕ (to_unsigned 32 value))))
