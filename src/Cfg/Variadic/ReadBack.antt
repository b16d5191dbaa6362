-- ===== src/Cfg/Variadic/ReadBack.antt =====
-- What `cfg_get_item` scans after `cfg_write_item` has printed.
use tcp_svr.Base.{
  ◌+◌, ◌≤◌, Bytes, List, [], ◌∷◌, Option, none, some, length, take, ℤ, pos, neg, true, str_eq, ◌&&◌,
  if◌then◌else◌, ◌≡◌, refl, sym, ap, ◌∙◌, inl, inr, Bool-cases,
}
use tcp_svr.Cfg.Entry.{Entry, Config}
use tcp_svr.Cfg.Cursor.{Outcome}
use tcp_svr.Cfg.Cursor.Items.{items}
use tcp_svr.Cfg.Cursor.Items.Find.{is_key, lookup, Answers, cfg_find-lookup}
use tcp_svr.Cfg.Write.PutKey.{PlainKeys}
use tcp_svr.Cfg.Write.{cfg_write}
use tcp_svr.Cfg.Write.ReadBack.{cfg_write-updates}
use tcp_svr.Cfg.Write.Kept.{Every, cfg_write-Left}
use tcp_svr.Cfg.Variadic.{is_positive, scan_found, cfg_get_item, cfg_write_item}

abbrev Any : Entry → Type 0
Any e = Unit {0}

Every-Any : (es : List Entry) → Every Any es
unfolding Every
Every-Any [] = tt
Every-Any (e ∷ es) = (tt, Every-Any es)

-- `cfg_write` leaves a valid configuration valid.
cfg_write-valid :
    (c c' : Config) (s k v : Bytes)
    → c.valid ≡ true
    → cfg_write c (some s) (some k) (some v) ≡ some (pos 0, c')
    → c'.valid ≡ true
cfg_write-valid c c' s k v ok done =
    (cfg_write-Left Any c c' s k v (pos 0) ok
      (record { title = tt; new = tt; changed = λ e a b p. tt; moved = λ e. tt })
      (Every-Any c.entries) done).still_valid

module _ {V : Type 0} (vsscanf : Bytes → Bytes → V → ℤ × V) where
  -- The scan of a value, or what a missing one leaves.
  pub scanned : Bytes → V → Option Bytes → ℤ × V
  scanned fmt before none = (neg 1, before)
  scanned fmt before (some v) =
      let (ret, after) = vsscanf v fmt before in (if is_positive ret then pos 0 else neg 1, after)

  scan_found-Answers :
      (o : Option Bytes) (c : Config) (fmt : Bytes) (before : V) (out : Option Outcome)
      → Answers o c out
      → scan_found vsscanf fmt before out ≡ some (scanned fmt before o)
  unfolding scan_found scanned
  scan_found-Answers none c fmt before out (c', done, same) = rw done refl
  scan_found-Answers (some v) c fmt before out (c', done, shown, same) =
      rw (done, scan_found, shown) refl

  cfg_get_item-lookup :
      (c : Config) (s k fmt : Bytes) (before : V)
      → c.valid ≡ true
      → cfg_get_item vsscanf c (some s) (some k) fmt before
        ≡ some (scanned fmt before (lookup s k (items c.entries)))
  unfolding cfg_get_item
  cfg_get_item-lookup c s k fmt before ok =
      scan_found-Answers _ c fmt before _ (cfg_find-lookup c s k ok)

module _ {V W : Type 0} (vsscanf : Bytes → Bytes → V → ℤ × V)
    (vsnprintf : Bytes → W → Option Bytes) where
  -- `cfg_write_item` to a valid configuration, of a text that can be printed, if the array is empty or has room for two more entries, and the key is
  -- spelled without quotes wherever it stands in the file, succeeds with no fault; `cfg_get_item` of the key then scans the first
  -- 1023 bytes of the text, and of any other key gives what it gave before.
  pub cfg_write_item-cfg_get_item :
      (c : Config) (s k wf text : Bytes) (args : W)
      → c.valid ≡ true
      → (1 ≤ length c.entries → length c.entries + 2 ≤ c.max_entries)
      → is_key k k ≡ true
      → PlainKeys k c.entries
      → vsnprintf wf args ≡ some text
      → (c' : Config) × (cfg_write_item vsnprintf c (some s) (some k) wf args ≡ some (pos 0, c'))
        × ((t j rf : Bytes) (before : V)
            → cfg_get_item vsscanf c' (some t) (some j) rf before ≡ (
                if str_eq s t && str_eq k j
                then some (scanned vsscanf rf before (some (take 1023 text)))
                else cfg_get_item vsscanf c (some t) (some j) rf before))
  unfolding cfg_write_item
  cfg_write_item-cfg_get_item c s k wf text args ok room own plain printed =
      let (c', done, looks) = cfg_write-updates c s k (take 1023 text) ok room own plain in
      let written : Option Bytes → Option Outcome = λ o. elim o [
        | none ↦ some (neg 1, c)
        | some v ↦ cfg_write c (some s) (some k) (some (take 1023 v))
      ] in
      let ok' = cfg_write-valid c c' s k (take 1023 text) ok done in
      (
        c',
        ap written printed ∙ done,
        λ t j rf before.
            cfg_get_item-lookup vsscanf c' t j rf before ok'
            ∙ ap (λ o. some (scanned vsscanf rf before o)) (looks t j)
            ∙ elim (Bool-cases (str_eq s t && str_eq k j)) [
              | inl same ↦ rw same refl
              | inr other ↦ rw other (sym (cfg_get_item-lookup vsscanf c t j rf before ok))
            ],
      )
