-- ===== src/Cfg/File/Api.antt =====
-- `cfg_getstring`, `cfg_getstring2` and the functions of the "API" part of cfgfile.cpp that read and write
-- a text by its file, section and key. An outcome of `none` is a fault, or a parser that does not end.
use tcp_svr.Base.{
  ℕ, Bytes, [], Option, none, some, length, ℤ, pos, negsuc, neg, true, false, leb, if◌then◌else◌,
}
use tcp_svr.Cfg.Entry.{Config}
use tcp_svr.Cfg.Cursor.{Outcome, cfg_find}
use tcp_svr.Cfg.Write.{cfg_write}
use tcp_svr.Cfg.Disk.{Disk}
use tcp_svr.Cfg.File.{Handle, cfg_init, Opened, cfg_commit}

-- strcpy (valptr, pconfig->value): the result of the caller and the text stored.
unfoldable pub copied : ℤ → Option Bytes → Option (ℤ × Bytes)
copied ret none = none
copied ret (some v) = some (ret, v)

-- `code` and `other` are what the callers return and store where nothing is found.
unfoldable pub get_found : ℤ → Bytes → Option Outcome → Option (ℤ × Bytes)
get_found code other none = none
get_found code other (some (negsuc n, c)) = some (code, other)
get_found code other (some (pos n, c)) = copied (pos 0) c.cur_value

unfoldable pub cfg_getstring : Config → Option Bytes → Option Bytes → Option (ℤ × Bytes)
cfg_getstring c s i = get_found (neg 1) [] (cfg_find c s i)

unfoldable pub cfg_getstring2 : Config → Option Bytes → Option Bytes → Bytes → Option (ℤ × Bytes)
cfg_getstring2 c s i default = get_found (pos 0) default (cfg_find c s i)

-- `Cfg_ReadString`: a value that does not fit is not stored.
unfoldable pub fit_value : ℕ → Bytes → Option Bytes → Option (ℤ × Bytes)
fit_value size default none = none
fit_value size default (some v) =
    if leb size (length v) then some (neg 6, default) else some (pos 0, v)

unfoldable pub fit_found : ℕ → Bytes → Option Outcome → Option (ℤ × Bytes)
fit_found size default none = none
fit_found size default (some (negsuc n, c)) = some (neg 5, default)
fit_found size default (some (pos n, c)) = fit_value size default c.cur_value

module _ (d : Disk) where
  unfoldable pub with_state : {A : Type 0} → d.State → Option A → Option (A × d.State)
  with_state st none = none
  with_state st (some a) = some (a, st)

  -- Cfg_ReadStr behind `cfg_init`
  unfoldable pub read_str_in :
      Option Bytes → Option Bytes → Bytes → Opened d → Option ((ℤ × Bytes) × d.State)
  read_str_in s i default none = none
  read_str_in s i default (some ((ret, none), st)) = some ((ret, default), st)
  read_str_in s i default (some ((ret, some h), st)) =
      with_state st (cfg_getstring2 h.conf s i default)

  -- `Cfg_ReadStr`: the result and the text at `valptr`
  unfoldable pub cfg_read_str :
      d.State → Option Bytes → Option Bytes → Option Bytes → Bytes → Option ((ℤ × Bytes) × d.State)
  cfg_read_str st f s i default = read_str_in s i default (cfg_init d st f false)

  unfoldable pub commit_written : d.State → Handle → Option Outcome → Option (ℤ × d.State)
  commit_written st h none = none
  commit_written st h (some (_, c)) =
      let ((ret, _), st') = cfg_commit d st (record h { conf = c }) in some (ret, st')

  -- Cfg_WriteStr behind `cfg_init`
  unfoldable pub write_str_in :
      Option Bytes → Option Bytes → Option Bytes → Opened d → Option (ℤ × d.State)
  write_str_in s i value none = none
  write_str_in s i value (some ((ret, none), st)) = some (ret, st)
  write_str_in s i value (some ((ret, some h), st)) =
      commit_written st h (cfg_write h.conf s i value)

  unfoldable pub cfg_write_str :
      d.State → Option Bytes → Option Bytes → Option Bytes → Option Bytes → Option (ℤ × d.State)
  cfg_write_str st f s i value = write_str_in s i value (cfg_init d st f true)

  -- `Cfg_RemoveKey`
  pub cfg_remove_key : d.State → Option Bytes → Option Bytes → Option Bytes → Option (ℤ × d.State)
  cfg_remove_key st f s i = cfg_write_str st f s i none

  -- `Cfg_WriteString`
  pub cfg_write_string :
      Option Bytes → Option Bytes → Option Bytes → Option Bytes → d.State → Option (ℤ × d.State)
  cfg_write_string s i value f st = cfg_write_str st f s i value

  pub ini_setstr : d.State → Option Bytes → Option Bytes → Option Bytes → Option (ℤ × d.State)
  ini_setstr st f i value = cfg_write_str st f none i value

  get_str_in : Option Bytes → Option Bytes → Bytes → Opened d → Option ((ℤ × Bytes) × d.State)
  get_str_in s i before none = none
  get_str_in s i before (some ((ret, none), st)) = some ((ret, before), st)
  get_str_in s i before (some ((ret, some h), st)) = with_state st (cfg_getstring h.conf s i)

  -- `before` is what `val` holds before the call.
  pub ini_getstr : d.State → Option Bytes → Option Bytes → Bytes → Option ((ℤ × Bytes) × d.State)
  ini_getstr st f i before = get_str_in none i before (cfg_init d st f false)

  -- Cfg_ReadString behind `cfg_init`
  unfoldable pub read_string_in :
      Bytes → Bytes → Bytes → ℕ → Opened d → Option ((ℤ × Bytes) × d.State)
  read_string_in s i default size none = none
  read_string_in s i default size (some ((ret, none), st)) = some ((neg 3, default), st)
  read_string_in s i default size (some ((ret, some h), st)) =
      with_state st (fit_found size default (cfg_find h.conf (some s) (some i)))

  -- `Cfg_ReadString`; `before` is what `str` holds before the call.
  unfoldable pub cfg_read_string :
      d.State
      → Option Bytes
      → Option Bytes
      → Option Bytes
      → Bytes
      → ℕ
      → Option Bytes
      → Option ((ℤ × Bytes) × d.State)
  cfg_read_string st (some s) (some i) (some default) before size (some f) =
      if leb size (length default)
      then some ((neg 2, before), st)
      else read_string_in s i default size (cfg_init d st (some f) false)
  cfg_read_string st _ _ _ before size _ = some ((neg 1, before), st)
