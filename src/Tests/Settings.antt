-- ===== src/Tests/Settings.antt =====
-- The search of a configuration, and changes of it.
use tcp_svr.Base.{
  Bytes, List, [], ◌∷◌, codes, none, some, pos, true, false, refl, str_eq, ◌&&◌, if◌then◌else◌, ◌≡◌,
  subst, arith,
}
use tcp_svr.Cfg.Entry.{Entry, error, Config, dynamic_entry}
use tcp_svr.Cfg.Cursor.{cfg_find, remove_quotes, skip_quotes, cut_quote}
use tcp_svr.Cfg.Write.{is_comment, cfg_write}
use tcp_svr.Cfg.Write.Delete.{remove, Valued}
use tcp_svr.Cfg.Write.Delete.Sound.{cfg_write-removes}
use tcp_svr.Cfg.Write.Delete.Section.{remove_section, fronted}
use tcp_svr.Cfg.Write.Delete.Emptied.{cfg_write-remove_section}
use tcp_svr.Cfg.Write.PutKey.{PlainKeys}
use tcp_svr.Cfg.Write.ReadBack.{cfg_write-updates}
use tcp_svr.Cfg.Cursor.Items.{items}
use tcp_svr.Cfg.Cursor.Items.Find.{is_key, lookup, Answers, cfg_find-lookup}

abbrev of : List Entry → Config
of es = record {
  entries = es;
  max_entries = 103;
  dirty = false;
  valid = true;
  eof = false;
  kind = error;
  cursor = 0;
  cur_section = none;
  cur_id = none;
  cur_value = none;
}

-- [net] port=9000, with the key in quotes
abbrev net : Config
net = of (
    dynamic_entry (some (codes "net")) none none
    ∷ dynamic_entry none (some (codes "'port'")) (some (codes "9000"))
    ∷ [])

abbrev keys : Config
keys = of (
    dynamic_entry none (some (codes "host")) (some (codes "a"))
    ∷ dynamic_entry none (some (codes "port")) (some (codes "9000"))
    ∷ [])

-- The lookup of the file finds the value.
cfg_find-lookup_example :
    Answers
      (lookup (codes "net") (codes "port") (items net.entries))
      net
      (cfg_find net (some (codes "net")) (some (codes "port")))
cfg_find-lookup_example = cfg_find-lookup net (codes "net") (codes "port") refl

cfg_write-updates_example :
    (c' : Config) × (cfg_write net (some (codes "net")) (some (codes "host")) (some (codes "a"))
      ≡ some (pos 0, c'))
    × ((t j : Bytes)
        → lookup t j (items c'.entries) ≡ (
            if str_eq (codes "net") t && str_eq (codes "host") j
            then some (codes "a")
            else lookup t j (items net.entries)))
unfolding is_key PlainKeys dynamic_entry remove_quotes skip_quotes cut_quote str_eq
cfg_write-updates_example =
    cfg_write-updates net (codes "net") (codes "host") (codes "a") refl (λ _. omega arith) refl
      net-PlainKeys
  where
    quoted : (i : Bytes) → codes "'port'" ≡ i → is_key i (codes "host") ≡ str_eq i (codes "host")
    quoted i e = subst (λ (x : Bytes). is_key x (codes "host") ≡ str_eq x (codes "host")) e refl

    net-PlainKeys : PlainKeys (codes "host") net.entries
    net-PlainKeys = ((λ i e. cc), ((λ i e. quoted i cc), tt))

cfg_write-removes_example :
    (c' : Config) × (cfg_write net (some (codes "net")) (some (codes "'port'")) none
      ≡ some (pos 0, c'))
    × (items c'.entries ≡ remove (codes "net") (codes "'port'") (items net.entries))
unfolding Valued dynamic_entry str_eq
cfg_write-removes_example =
    cfg_write-removes net (codes "net") (codes "'port'") refl (λ e. cc, (λ e. refl, tt))

-- A second section.
abbrev two : Config
two = of (
    dynamic_entry (some (codes "net")) none none
    ∷ dynamic_entry none (some (codes "port")) (some (codes "9000"))
    ∷ dynamic_entry (some (codes "log")) none none
    ∷ [])

cfg_write-remove_section_example :
    (c' : Config) × (cfg_write two (some (codes "log")) none none ≡ some (pos 0, c'))
    × (items c'.entries ≡ remove_section (codes "log") (items two.entries))
unfolding fronted dynamic_entry str_eq is_comment
cfg_write-remove_section_example = cfg_write-remove_section two (codes "log") none refl refl
