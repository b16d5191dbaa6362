-- ===== src/Cfg/File/Copy.antt =====
-- Reading a copy that `cfg_copy` has made of a configuration.
use tcp_svr.Base.{Bytes, some, pos, true, ◌≡◌, refl, ap, ◌∙◌}
use tcp_svr.Cfg.Cursor.Items.{items}
use tcp_svr.Cfg.Cursor.Items.Find.{lookup}
use tcp_svr.Cfg.Output.{cfg_outputformatted}
use tcp_svr.Cfg.Output.Formatted.{all_formatted, cfg_parse-cfg_outputformatted}
use tcp_svr.Cfg.Disk.{Disk, Serves, Accepts, Keeps}
use tcp_svr.Cfg.File.{Handle, zeroed, open_output, cfg_copy}
use tcp_svr.Cfg.File.Api.{cfg_read_str}
use tcp_svr.Cfg.File.Loaded.{value_or, items-as_parsed, cfg_read_str-Serves}

module _ (d : Disk) where
  -- `cfg_copy` of a valid configuration whose entries a formatted file can hold, to a file that exists and can be read and written, returns 0, and
  -- `Cfg_ReadStr` of the copy then returns 0 and gives the value that a key has in the configuration, written to its own file or not, or
  -- the default where it has none.
  pub cfg_copy-cfg_read_str :
      (st : d.State) (h : Handle) (f old : Bytes)
      → Keeps d
      → Serves d st f old
      → Accepts d st f
      → h.conf.valid ≡ true
      → all_formatted h.conf.entries ≡ true
      → (st' : d.State) × (cfg_copy d st h f ≡ (pos 0, st'))
        × ((s k default : Bytes)
            → cfg_read_str d st' (some f) (some s) (some k) default
              ≡ some ((pos 0, value_or (lookup s k (items h.conf.entries)) default), st'))
  unfolding cfg_copy open_output
  cfg_copy-cfg_read_str st h f old keeps w a ok p =
      let text = cfg_outputformatted h.conf.entries in
      let st' = d.printed st f text in
      let (c, parses, valid, same) = cfg_parse-cfg_outputformatted h.conf.entries zeroed refl p in
      (
        st',
        rw (ok, a.can_open, a.can_lock, a.can_truncate) refl,
        λ s k default.
            cfg_read_str-Serves d st' f text c s k default (keeps st f old text w a) parses valid
            ∙ ap (λ l. some ((pos 0, value_or (lookup s k l) default), st'))
                (ap items same ∙ items-as_parsed h.conf.entries),
      )
