-- ===== src/Cfg/File/Session.antt =====
-- Writing a value to a file and reading it again, through the functions that open the file for one call.
use tcp_svr.Base.{
  suc, ◌+◌, ◌≤◌, Bytes, List, [], ◌∷◌, some, length, length-append, pos, true, false, ltb, ◌&&◌,
  str_eq, if◌then◌else◌, ◌≡◌, refl, sym, ap, ◌∙◌, subst, map, arith,
}
use tcp_svr.Cfg.Entry.{Entry, Config, stored, grown}
use tcp_svr.Cfg.Cursor.Items.{items}
use tcp_svr.Cfg.Cursor.Items.Find.{is_key, lookup}
use tcp_svr.Cfg.Write.PutKey.{PlainKeys}
use tcp_svr.Cfg.Write.ReadBack.{cfg_write-updates}
use tcp_svr.Cfg.Write.Kept.{Every, Fits, Left, cfg_write-Left}
use tcp_svr.Cfg.File.Tidy.{
  IsPrintable, IsBare, Every-IsPrintable, all_printable-Every, Every-as_parsed, IsPrintable-Fits,
  IsBare-Fits, IsPrintable-as_parsed,
}
use tcp_svr.Cfg.Output.{cfg_output}
use tcp_svr.Cfg.Output.Printable.{header_ok, key_ok, value_ok}
use tcp_svr.Cfg.Output.RoundTrip.{as_parsed, stored_all}
use tcp_svr.Cfg.Disk.{Disk, Accepts, Keeps}
use tcp_svr.Cfg.File.{Handle, zeroed, open_output, cfg_commit}
use tcp_svr.Cfg.File.Api.{commit_written, write_str_in, cfg_write_str, cfg_read_str}
use tcp_svr.Cfg.File.Loaded.{
  Holds, handle_of, loaded, loaded-entries, items-as_parsed, cfg_init-Holds, value_or,
  cfg_read_str-lookup,
}

stored_all-room :
    (c : Config) (es : List Entry)
    → c.max_entries ≡ 103
    → length c.entries + length es ≤ 103
    → (stored_all c es).max_entries ≡ 103
unfolding stored_all stored grown
stored_all-room c [] m h = m
stored_all-room c (e ∷ es) m h =
    let fits : ltb 103 (length c.entries + 1) ≡ false = ground arith in
    stored_all-room (stored c e) es (rw (m, fits) refl)
      (omega (arith, length-append c.entries (e ∷ [])))

length-as_parsed : (es : List Entry) → length (map as_parsed es) ≡ length es
length-as_parsed [] = refl
length-as_parsed (e ∷ es) = ap suc (length-as_parsed es)

-- The room that a loaded file has.
loaded-room : (es : List Entry) → 1 ≤ length es → length es ≤ 101 → (loaded es).max_entries ≡ 103
unfolding stored_all stored grown
loaded-room [] low high = absurd (omega arith)
loaded-room (e ∷ es) low high =
    stored_all-room (stored zeroed (as_parsed e)) (map as_parsed es) refl
      (omega (arith, length-as_parsed es))

PlainKeys-as_parsed :
    (k : Bytes) (es : List Entry) → PlainKeys k es → PlainKeys k (map as_parsed es)
unfolding PlainKeys
PlainKeys-as_parsed k [] p = tt
PlainKeys-as_parsed k (e ∷ es) (p, ps) = (p, PlainKeys-as_parsed k es ps)

-- A key that `cfg_write` updates, in entries that a file can hold.
pub record Settable (es : List Entry) (s k : Bytes) : Type 0 where
  pub title : header_ok s ≡ true
  pub key : key_ok k ≡ true
  pub bare : is_key k k ≡ true
  pub spelled : PlainKeys k es
  pub room : length es ≤ 101

module _ (d : Disk) where
  cfg_commit-done :
      (P : Entry → Type 0) (c : Config) (st : d.State) (h : Handle)
      → Accepts d st h.file
      → Left P c h.conf
      → cfg_commit d st h ≡ (
        (pos 0, record h { conf = record h.conf { dirty = false } }),
        d.printed st h.file (cfg_output h.conf.entries),
      )
  unfolding cfg_commit open_output
  cfg_commit-done P c st h a l =
      rw (l.still_valid, l.is_dirty, a.can_open, a.can_lock, a.can_truncate) refl

  -- What a call of `Cfg_WriteStr` does to a file.
  pub record Written (st st' : d.State) (f : Bytes) (es es' : List Entry) (s k v : Bytes)
      : Type 0 where
    pub done : cfg_write_str d st (some f) (some s) (some k) (some v) ≡ some (pos 0, st')
    pub holds : Holds d st' f es'
    pub updates :
        (t j : Bytes)
        → lookup t j (items es')
          ≡ (if str_eq s t && str_eq k j then some v else lookup t j (items es))
    pub longer : length es' ≤ length es + 2
    pub text : Bytes
    pub prints : st' ≡ d.printed st f text
    pub keeps_bare : Every IsBare es → Every IsBare es'

  -- `Cfg_WriteStr` of a printable section, key and value to a file that holds the printed text of at most
  -- 101 printable entries, and can be written, returns 0, and the file then holds the printed text of
  -- printable entries whose lookups are the old ones with this key updated. The key is spelled without
  -- quotes wherever it stands.
  pub cfg_write_str-Written :
      (st : d.State) (f : Bytes) (es : List Entry) (s k v : Bytes)
      → Keeps d
      → Holds d st f es
      → Accepts d st f
      → Settable es s k
      → value_ok v ≡ true
      → (st' : d.State) × (es' : List Entry) × Written st st' f es es' s k v
  unfolding cfg_write_str write_str_in commit_written
  cfg_write_str-Written st f es s k v keeps w a q good =
      let whole = loaded-entries es in
      let room : 1 ≤ length (loaded es).entries
          → length (loaded es).entries + 2 ≤ (loaded es).max_entries =
        λ n. omega (
          arith,
          loaded-room es (omega (arith, ap length whole, length-as_parsed es)) q.room,
          ap length whole,
          length-as_parsed es,
          q.room,
        ) in
      let spelled = subst (PlainKeys k) (sym whole) (PlainKeys-as_parsed k es q.spelled) in
      let (c', wrote, updates) = cfg_write-updates (loaded es) s k v refl room q.bare spelled in
      let left : (P : Entry → Type 0)
          → ((e : Entry) → P e → P (as_parsed e))
          → Fits P s k v
          → Every P es
          → Left P (loaded es) c' =
        λ P parsed fits p.
          cfg_write-Left P (loaded es) c' s k v (pos 0) refl fits
            (subst (Every P) (sym whole) (Every-as_parsed P es parsed p)) wrote in
      let printable =
        left IsPrintable IsPrintable-as_parsed (IsPrintable-Fits s k v q.title q.key good)
          (Every-IsPrintable es w.printable) in
      (
        d.printed st f (cfg_output c'.entries),
        c'.entries,
        record {
          done =
              rw
                (
                  cfg_init-Holds d st f true es w,
                  wrote,
                  cfg_commit-done IsPrintable (loaded es) st
                      (record (handle_of f es w.serves.mtime) { conf = c' }) a printable,
                )
                refl;
          holds = record {
            serves = keeps st f (cfg_output es) (cfg_output c'.entries) w.serves a;
            printable = all_printable-Every c'.entries printable.every;
          };
          updates = λ t j.
              updates t j
              ∙ ap (λ l. if str_eq s t && str_eq k j then some v else lookup t j l)
                  (ap items whole ∙ items-as_parsed es);
          longer = omega (arith, printable.longer, ap length whole, length-as_parsed es);
          text = cfg_output c'.entries;
          prints = refl;
          keeps_bare = λ b. (left IsBare (λ e p. p) (IsBare-Fits s k v q.bare) b).every;
        },
      )

  -- After `Cfg_WriteStr` of a printable section, key and value to a file that holds the printed text of at
  -- most 101 printable entries and can be written, if the key is spelled without quotes wherever it stands,
  -- `Cfg_ReadStr` with any section and key returns 0 and gives the new value for the written ones, and for
  -- all others what stood in the file before or else the default.
  pub cfg_write_str-cfg_read_str :
      (st : d.State) (f : Bytes) (es : List Entry) (s k v : Bytes)
      → Keeps d
      → Holds d st f es
      → Accepts d st f
      → Settable es s k
      → value_ok v ≡ true
      → (st' : d.State) × (cfg_write_str d st (some f) (some s) (some k) (some v)
          ≡ some (pos 0, st'))
        × ((t j default : Bytes)
            → cfg_read_str d st' (some f) (some t) (some j) default
              ≡ some (
                (
                  pos 0,
                  value_or
                      (if str_eq s t && str_eq k j then some v else lookup t j (items es))
                      default,
                ),
                st',
              ))
  cfg_write_str-cfg_read_str st f es s k v keeps w a q good =
      let (st', es', x) = cfg_write_str-Written st f es s k v keeps w a q good in
      (
        st',
        x.done,
        λ t j default.
            cfg_read_str-lookup d st' f es' t j default x.holds
            ∙ ap (λ o. some ((pos 0, value_or o default), st')) (x.updates t j),
      )
