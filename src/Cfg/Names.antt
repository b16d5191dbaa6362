-- ===== src/Cfg/Names.antt =====
-- `Cfg_GetSections` and `Cfg_GetKeys`: the names that they hand over, in order, to the caller's array, whose
-- length they do not know, and how many. `none` is a null pointer passed to strcmp(3), or a parser that
-- does not end.
pub mod Sections
pub mod Keys
use tcp_svr.Base.{
  ℕ, zero, suc, Bytes, List, [], ◌∷◌, Option, none, some, length, ℤ, pos, is_zero, Bool, true,
  false, not, if◌then◌else◌,
}
use tcp_svr.Cfg.Entry.{Config, ◌>>=◌}
use tcp_svr.Cfg.Cursor.{Outcome, cfg_rewind, cfg_nextentry}
use tcp_svr.Cfg.Listing.{cfg_next_section, key_in}
use tcp_svr.Cfg.Disk.{Disk}
use tcp_svr.Cfg.File.{Opened, cfg_init}
use tcp_svr.Cfg.File.Api.{with_state}

-- A round of the loop of `Cfg_GetSections`; `loop` is the rest of it.
unfoldable pub section_names_round : Outcome → (Config → Option (List Bytes)) → Option (List Bytes)
section_names_round (ret, c) loop =
    if not (is_zero ret)
    then some []
    else elim c.cur_section [ none ↦ some [] | some s ↦ (loop c >>= λ names. some (s ∷ names)) ]

unfoldable pub section_names : ℕ → Config → Option (List Bytes)
section_names zero c = none
section_names (suc fuel) c =
    cfg_next_section c >>= λ out. section_names_round out (section_names fuel)

unfoldable pub key_names_round :
    Bytes → Outcome → (Config → Option (List Bytes)) → Option (List Bytes)
key_names_round s (ret, c) loop =
    if not (is_zero ret)
    then some []
    else (key_in s c >>= λ key. elim key [
      | none ↦ loop c
      | some i ↦ (loop c >>= λ names. some (i ∷ names))
    ])

unfoldable pub key_names : ℕ → Bytes → Config → Option (List Bytes)
key_names zero s c = none
key_names (suc fuel) s c = key_names_round s (cfg_nextentry c) (key_names fuel s)

-- The result, and the names handed over.
abbrev pub Handed : Type 0
Handed = ℤ × List Bytes

unfoldable pub count_names : Option (List Bytes) → Option Handed
count_names none = none
count_names (some names) = some (pos (length names), names)

-- The rewinding and the loop; the result stays 0 where the rewinding fails.
unfoldable pub names_of : (ℕ → Config → Option (List Bytes)) → Config → Option Handed
names_of loop c =
    let (ret, c') = cfg_rewind c in
    if is_zero ret then count_names (loop (suc (length c.entries)) c') else some (pos 0, [])

module _ (d : Disk) where
  unfoldable pub names_in :
      (ℕ → Config → Option (List Bytes)) → Opened d → Option (Handed × d.State)
  names_in loop none = none
  names_in loop (some ((ret, none), st)) = some ((ret, []), st)
  names_in loop (some ((ret, some h), st)) = with_state d st (names_of loop h.conf)

  unfoldable pub cfg_get_sections : d.State → Option Bytes → Option (Handed × d.State)
  cfg_get_sections st f = names_in section_names (cfg_init d st f false)

  unfoldable pub cfg_get_keys : d.State → Option Bytes → Bytes → Option (Handed × d.State)
  cfg_get_keys st f s = names_in (λ fuel. key_names fuel s) (cfg_init d st f false)
