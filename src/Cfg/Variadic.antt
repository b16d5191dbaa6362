-- ===== src/Cfg/Variadic.antt =====
-- `cfg_get_item` and `cfg_write_item`, which scan and print by a format. The variables and the arguments of the caller
-- have types of their own; vsscanf(3) and vsnprintf(3) are parameters. `none` is a fault of `cfg_find` or `cfg_write`, or
-- a null pointer to scan.
pub mod ReadBack
use tcp_svr.Base.{
  ℕ, ◌-◌, Bytes, Option, none, some, take, ℤ, zero, suc, pos, negsuc, neg, Bool, true, false,
  if◌then◌else◌,
}
use tcp_svr.Cfg.Entry.{Config}
use tcp_svr.Cfg.Cursor.{Outcome, cfg_find}
use tcp_svr.Cfg.Write.{cfg_write}

-- CFG_MAX_LINE_LENGTH
abbrev pub max_line_length : ℕ
max_line_length = 1024

abbrev is_positive : ℤ → Bool
is_positive (pos zero) = false
is_positive (pos (suc n)) = true
is_positive (negsuc n) = false

-- `vsscanf` takes a text, a format and what the variables hold, and returns how many it has set, and what they hold then.
module _ {V : Type 0} (vsscanf : Bytes → Bytes → V → ℤ × V) where
  -- Behind the search.
  unfoldable pub scan_found : Bytes → V → Option Outcome → Option (ℤ × V)
  scan_found fmt before none = none
  scan_found fmt before (some (negsuc n, c)) = some (neg 1, before)
  scan_found fmt before (some (pos n, c)) = elim c.cur_value [
    | none ↦ none
    | some v ↦
        let (ret, after) = vsscanf v fmt before in
        some (if is_positive ret then pos 0 else neg 1, after)
  ]

  unfoldable pub cfg_get_item : Config → Option Bytes → Option Bytes → Bytes → V → Option (ℤ × V)
  cfg_get_item c none i fmt before = some (neg 1, before)
  cfg_get_item c (some s) none fmt before = some (neg 1, before)
  cfg_get_item c (some s) (some i) fmt before = scan_found fmt before (cfg_find c (some s) (some i))

-- `vsnprintf` takes a format and the arguments, and gives the text that it prints where there is room, up to a NUL, or
-- `none` for a negative result.
module _ {V : Type 0} (vsnprintf : Bytes → V → Option Bytes) where
  unfoldable pub cfg_write_item : Config → Option Bytes → Option Bytes → Bytes → V → Option Outcome
  cfg_write_item c s i fmt args = elim (vsnprintf fmt args) [
    | none ↦ some (neg 1, c)
    | some text ↦ cfg_write c s i (some (take (max_line_length - 1) text))
  ]
