-- ===== src/Cfg/File/Loaded.antt =====
-- Reading through a file that holds printable entries.
use tcp_svr.Base.{
  ℕ, Bytes, List, [], ◌∷◌, Option, none, some, length, ℤ, pos, Bool, true, false, ◌≡◌, refl, ap,
  ◌∙◌, map, inl, inr, Option-cases,
}
use tcp_svr.Cfg.Entry.{Entry, Config}
use tcp_svr.Cfg.Cursor.Items.{items, item_of}
use tcp_svr.Cfg.Cursor.Items.Find.{lookup, Answers, cfg_find-lookup}
use tcp_svr.Cfg.Parse.{cfg_parse}
use tcp_svr.Cfg.Output.{cfg_output}
use tcp_svr.Cfg.Output.Printable.{all_printable}
use tcp_svr.Cfg.Output.RoundTrip.{as_parsed, stored_all, stored_all-entries, cfg_parse-stored_all}
use tcp_svr.Cfg.Disk.{Disk, Serves}
use tcp_svr.Cfg.File.{
  Handle, zeroed, refresh_stat, refresh_read, refresh_parsed, cfg_refresh, cfg_freeimage, init_done,
  init_new, cfg_init,
}
use tcp_svr.Cfg.File.Api.{copied, get_found, cfg_getstring2, with_state, read_str_in, cfg_read_str}

-- The file is the printed text of these entries.
pub record Holds (d : Disk) (st : d.State) (f : Bytes) (es : List Entry) : Type 0 where
  pub serves : Serves d st f (cfg_output es)
  pub printable : all_printable es ≡ true

-- The configuration of such a file.
abbrev pub loaded : List Entry → Config
loaded es = record (stored_all zeroed (map as_parsed es)) { valid = true }

pub loaded-entries : (es : List Entry) → (loaded es).entries ≡ map as_parsed es
loaded-entries es = stored_all-entries zeroed (map as_parsed es)

pub items-as_parsed : (es : List Entry) → items (map as_parsed es) ≡ items es
unfolding items
items-as_parsed [] = refl
items-as_parsed (e ∷ es) = elim (Option-cases (item_of e.section e.id e.value)) [
  | inl nothing ↦ rw (nothing, items, items-as_parsed es) refl
  | inr (it, one) ↦ rw (one, items, items-as_parsed es) refl
]

-- The handle that such a file is opened with.
abbrev pub handle_of : Bytes → List Entry → ℕ → Handle
handle_of f es mtime = record {
  file = f;
  image = some (cfg_output es);
  size = length (cfg_output es);
  mtime = mtime;
  conf = loaded es;
}

-- The value, or what the caller gave.
abbrev pub value_or : Option Bytes → Bytes → Bytes
value_or none default = default
value_or (some v) default = v

pub get_found-Answers :
    (o : Option Bytes) (c : Config) (default : Bytes) (out : Option (ℤ × Config))
    → Answers o c out
    → get_found (pos 0) default out ≡ some (pos 0, value_or o default)
unfolding get_found copied
get_found-Answers none c default out (c', done, same) = rw done refl
get_found-Answers (some v) c default out (c', done, shown, same) = rw (done, get_found, shown) refl

module _ (d : Disk) where
  cfg_refresh-Serves :
      (st : d.State) (f t : Bytes) (c : Config) (w : Serves d st f t)
      → cfg_parse t zeroed ≡ some (pos 0, c)
      → cfg_refresh d st (record { file = f; image = none; size = 0; mtime = 0; conf = zeroed })
        ≡ some
            (pos 0, record { file = f; image = some t; size = length t; mtime = w.mtime; conf = c })
  unfolding cfg_refresh refresh_stat refresh_read refresh_parsed cfg_freeimage
  cfg_refresh-Serves st f t c w parses = rw (w.can_open, w.can_lock, w.stats, w.reads, parses) refl

  -- `cfg_init` of a file whose text the parser reads.
  pub cfg_init-Serves :
      (st : d.State) (f t : Bytes) (create : Bool) (c : Config) (w : Serves d st f t)
      → cfg_parse t zeroed ≡ some (pos 0, c)
      → cfg_init d st (some f) create
        ≡ some (
          (
            pos 0,
            some (record { file = f; image = some t; size = length t; mtime = w.mtime; conf = c }),
          ),
          st,
        )
  unfolding cfg_init init_new init_done
  cfg_init-Serves st f t create c w parses =
      rw (w.is_present, w.memory, cfg_refresh-Serves st f t c w parses) refl

  -- `Cfg_ReadStr` of such a file.
  pub cfg_read_str-Serves :
      (st : d.State) (f t : Bytes) (c : Config) (s k default : Bytes)
      → Serves d st f t
      → cfg_parse t zeroed ≡ some (pos 0, c)
      → c.valid ≡ true
      → cfg_read_str d st (some f) (some s) (some k) default
        ≡ some ((pos 0, value_or (lookup s k (items c.entries)) default), st)
  unfolding cfg_read_str read_str_in with_state cfg_getstring2
  cfg_read_str-Serves st f t c s k default w parses ok =
      rw
        (
          cfg_init-Serves st f t false c w parses,
          get_found-Answers _ c default _ (cfg_find-lookup c s k ok),
        )
        refl

  -- `cfg_init` of a file that holds printable entries loads it.
  pub cfg_init-Holds :
      (st : d.State) (f : Bytes) (create : Bool) (es : List Entry) (w : Holds d st f es)
      → cfg_init d st (some f) create ≡ some ((pos 0, some (handle_of f es w.serves.mtime)), st)
  cfg_init-Holds st f create es w =
      cfg_init-Serves st f (cfg_output es) create (loaded es) w.serves
        (cfg_parse-stored_all es zeroed refl w.printable)

  -- `Cfg_ReadStr` of a file that holds the printed text of printable entries returns 0 and stores the
  -- value that the key has in the section, or the default where it has none; the file system stays.
  pub cfg_read_str-lookup :
      (st : d.State) (f : Bytes) (es : List Entry) (s k default : Bytes)
      → Holds d st f es
      → cfg_read_str d st (some f) (some s) (some k) default
        ≡ some ((pos 0, value_or (lookup s k (items es)) default), st)
  cfg_read_str-lookup st f es s k default w =
      cfg_read_str-Serves st f (cfg_output es) (loaded es) s k default w.serves
        (cfg_parse-stored_all es zeroed refl w.printable) refl
      ∙ ap (λ l. some ((pos 0, value_or (lookup s k l) default), st))
          (ap items (loaded-entries es) ∙ items-as_parsed es)
