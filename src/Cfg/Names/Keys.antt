-- ===== src/Cfg/Names/Keys.antt =====
-- The keys that `Cfg_GetKeys` hands over.
use tcp_svr.Base.{
  ℕ, zero, suc, ◌<◌, Bytes, List, [], ◌∷◌, Option, none, some, length, pos, neg, false, str_eq,
  if◌then◌else◌, ◌≡◌, refl, sym, ap, map, ◌∙◌, arith, inl, inr, Bool-cases,
}
use tcp_svr.Cfg.Entry.{Entry, Config, error, stored, ◌>>=◌}
use tcp_svr.Cfg.Cursor.Items.{Item, sect, def, cont, items, Shows, KeepsSection, nextentry-Next}
use tcp_svr.Cfg.Listing.{key_in}
use tcp_svr.Cfg.Listing.Titles.{Reads, cfg_rewind-valid}
use tcp_svr.Cfg.Disk.{Disk}
use tcp_svr.Cfg.File.{zeroed}
use tcp_svr.Cfg.Output.RoundTrip.{as_parsed, stored_all}
use tcp_svr.Cfg.File.Api.{with_state}
use tcp_svr.Cfg.File.Loaded.{Holds, loaded, loaded-entries, items-as_parsed, cfg_init-Holds}
use tcp_svr.Cfg.Names.{key_names_round, key_names, count_names, names_of, names_in, cfg_get_keys}

-- The keys of the sections with a name, behind a section that may be none; a key behind none is a fault.
unfoldable pub keys_under : Bytes → Option Bytes → List Item → Option (List Bytes)
keys_under s current [] = some []
keys_under s current (sect t ∷ its) = keys_under s (some t) its
keys_under s current (cont v ∷ its) = keys_under s current its
keys_under s none (def i v ∷ its) = none
keys_under s (some t) (def i v ∷ its) =
    let later = keys_under s (some t) its in
    if str_eq t s then (later >>= λ names. some (i ∷ names)) else later

round-keys_under :
    (s : Bytes) (old : Option Bytes) (it : Item) (rest : List Item) (c' : Config)
    (loop : Config → Option (List Bytes))
    → Shows it c'
    → KeepsSection it old c'
    → loop c' ≡ keys_under s c'.cur_section rest
    → key_names_round s (pos 0, c') loop ≡ keys_under s old (it ∷ rest)
unfolding key_names_round key_in keys_under
round-keys_under s old (sect t) rest c' loop (k, shown) kept later =
    rw k (later ∙ ap (λ o. keys_under s o rest) shown)
round-keys_under s old (cont v) rest c' loop (k, shown) kept later =
    rw k (later ∙ ap (λ o. keys_under s o rest) kept)
round-keys_under s none (def i v) rest c' loop (k, shown, value) kept later = rw (k, kept) refl
round-keys_under s (some t) (def i v) rest c' loop (k, shown, value) kept later =
    elim (Bool-cases (str_eq t s)) [
      | inl here ↦
          rw (k, kept, here, shown)
            (ap (λ o. o >>= λ names. some (i ∷ names)) (later ∙ ap (λ o. keys_under s o rest) kept))
      | inr other ↦ rw (k, kept, other) (later ∙ ap (λ o. keys_under s o rest) kept)
    ]

key_names-keys_under :
    (fuel : ℕ) (s : Bytes) (es : List Entry) (c : Config)
    → length es < fuel
    → Reads c es
    → key_names fuel s c ≡ keys_under s c.cur_section (items es)
unfolding key_names key_names_round keys_under
key_names-keys_under zero s es c f r = absurd (omega arith)
key_names-keys_under (suc fuel) s es c f r = elim (nextentry-Next c es r.ok r.going r.place) [
  | inl (c', nothing, done, same) ↦
      ap (λ o. key_names_round s o (key_names fuel s)) done ∙ ended c' nothing
  | inr (c', it, rest, reads, a) ↦
      let r' : Reads c' rest = record {
        ok = a.still_valid ∙ r.ok;
        going = a.not_eof ∙ r.going;
        place = a.place;
      } in
      ap (λ o. key_names_round s o (key_names fuel s)) reads
      ∙ round-keys_under s c.cur_section it (items rest) c' (key_names fuel s) a.shown a.keeps
          (key_names-keys_under fuel s rest c' (omega (arith, a.shorter)) r')
      ∙ ap (keys_under s c.cur_section) (sym a.first)
]
  where
    ended :
        (c' : Config)
        → items es ≡ []
        → key_names_round s (neg 1, c') (key_names fuel s) ≡ keys_under s c.cur_section (items es)
    ended c' nothing = ap (keys_under s c.cur_section) (sym nothing)

stored_all-cur_section :
    (c : Config) (es : List Entry) → (stored_all c es).cur_section ≡ c.cur_section
unfolding stored_all stored
stored_all-cur_section c [] = refl
stored_all-cur_section c (e ∷ es) = stored_all-cur_section (stored c e) es

module _ (d : Disk) where
  with_state-count_names :
      (st : d.State) (o : Option (List Bytes))
      → with_state d st (count_names o) ≡ (o >>= λ names. some ((pos (length names), names), st))
  unfolding with_state count_names
  with_state-count_names st none = refl
  with_state-count_names st (some names) = refl

  -- `Cfg_GetKeys` of a file that holds the printed text of printable entries hands over the keys that stand in the sections of the
  -- name given, in order, and returns how many there are; where a key stands in front of the first section it passes a null pointer
  -- to strcmp(3), whatever the name.
  pub cfg_get_keys-keys_under :
      (st : d.State) (f s : Bytes) (es : List Entry)
      → Holds d st f es
      → cfg_get_keys d st (some f) s
        ≡ (keys_under s none (items es) >>= λ names. some ((pos (length names), names), st))
  unfolding cfg_get_keys names_in names_of
  cfg_get_keys-keys_under st f s es w =
      let same = ap items (loaded-entries es) ∙ items-as_parsed es in
      let c = loaded es in
      let unset = stored_all-cur_section zeroed (map as_parsed es) in
      let listed =
        key_names-keys_under (suc (length c.entries)) s c.entries
          (record c { eof = false; kind = error; cursor = 0 }) (omega arith)
          (record { ok = refl; going = refl; place = refl }) in
      rw (cfg_init-Holds d st f false es w, cfg_rewind-valid c refl, listed)
        (with_state-count_names st (keys_under s c.cur_section (items c.entries))
          ∙ ap (λ o. o >>= λ names. some ((pos (length names), names), st))
              (ap (λ o. keys_under s o (items c.entries)) unset ∙ ap (keys_under s none) same))
