-- ===== src/Cfg/Names/Sections.antt =====
-- The sections that `Cfg_GetSections` hands over.
use tcp_svr.Base.{
  ℕ, zero, suc, ◌<◌, Bytes, List, some, length, length-drop, pos, false, ◌≡◌, refl, ap, ◌∙◌, arith,
  inl, inr,
}
use tcp_svr.Cfg.Entry.{Entry, Config, error}
use tcp_svr.Cfg.Cursor.Items.{items}
use tcp_svr.Cfg.Listing.{cfg_next_section}
use tcp_svr.Cfg.Listing.Titles.{titles, Reads, NextTitle, section_loop-NextTitle, cfg_rewind-valid}
use tcp_svr.Cfg.Disk.{Disk}
use tcp_svr.Cfg.File.Api.{with_state}
use tcp_svr.Cfg.File.Loaded.{Holds, loaded, loaded-entries, items-as_parsed, cfg_init-Holds}
use tcp_svr.Cfg.Names.{
  section_names_round, section_names, count_names, names_of, names_in, cfg_get_sections,
}

section_names-titles :
    (fuel : ℕ) (es : List Entry) (c : Config)
    → length es < fuel
    → Reads c es
    → section_names fuel c ≡ some (titles (items es))
unfolding section_names section_names_round cfg_next_section NextTitle
section_names-titles zero es c f r = absurd (omega arith)
section_names-titles (suc fuel) es c f r =
    let inner : length es < suc (length c.entries) =
      omega (arith, length-drop c.cursor c.entries, ap length r.place) in
    elim (section_loop-NextTitle (suc (length c.entries)) es c inner r) [
      | inl (c', nothing, done) ↦ rw (done, nothing, section_names, section_names_round) refl
      | inr (c', s, rest, done, whole, shown, less, r') ↦
          rw
            (
              done,
              whole,
              section_names,
              section_names_round,
              shown,
              section_names-titles fuel rest c' (omega (arith, less)) r',
            )
            refl
    ]

module _ (d : Disk) where
  -- `Cfg_GetSections` of a file that holds the printed text of printable entries hands over the names of
  -- its sections, in order, and returns how many there are.
  pub cfg_get_sections-titles :
      (st : d.State) (f : Bytes) (es : List Entry)
      → Holds d st f es
      → cfg_get_sections d st (some f)
        ≡ some ((pos (length (titles (items es))), titles (items es)), st)
  unfolding cfg_get_sections names_in names_of with_state count_names
  cfg_get_sections-titles st f es w =
      let same = ap items (loaded-entries es) ∙ items-as_parsed es in
      let c = loaded es in
      let listed =
        section_names-titles (suc (length c.entries)) c.entries
          (record c { eof = false; kind = error; cursor = 0 }) (omega arith)
          (record { ok = refl; going = refl; place = refl })
        ∙ ap (λ l. some (titles l)) same in
      rw (cfg_init-Holds d st f false es w, cfg_rewind-valid c refl, listed) refl
