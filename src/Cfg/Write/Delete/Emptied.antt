-- ===== src/Cfg/Write/Delete/Emptied.antt =====
-- `cfg_write` with no key: a section goes.
use tcp_svr.Base.{
  Bytes, List, [], ◌∷◌, ◌++◌, Option, none, some, pos, true, ◌≡◌, refl, sym, ap, ◌∙◌, subst,
}
use tcp_svr.Cfg.Entry.{Entry, Config, is_some, ◌>>=◌}
use tcp_svr.Cfg.Cursor.{Outcome}
use tcp_svr.Cfg.Cursor.Items.{Item, items}
use tcp_svr.Cfg.Write.{
  names, find_section, split_section, strip, delete_between, write_found, write_missing,
  write_valid, cfg_write,
}
use tcp_svr.Cfg.Write.Sections.{Finds, find_section-Finds}
use tcp_svr.Cfg.Write.Delete.{items-append, Strips, strip-Strips, none_some}
use tcp_svr.Cfg.Write.Delete.Sound.{has_section-found}
use tcp_svr.Cfg.Write.Delete.Section.{
  next_items, remove_section, fronted, split_section-next, Passes, strip-Passes, DropsAt,
  find_section-DropsAt,
}

-- Success, with the items as given.
Leaves : List Item → Option Outcome → Type 0
Leaves a out = (c' : Config) × (out ≡ some (pos 0, c')) × (items c'.entries ≡ a)

drop_between-Leaves :
    (c : Config) (before passed next : List Entry)
    → is_some (strip before) ≡ true
    → items passed ≡ []
    → Leaves (items before ++ items next) (delete_between c before (passed ++ next))
unfolding delete_between Leaves Strips
drop_between-Leaves c before passed next stays nothing =
    from_strip (strip before) stays (strip-Strips before)
  where
    from_strip :
        (o : Option (List Entry × List Entry))
        → is_some o ≡ true
        → Strips before o
        → Leaves (items before ++ items next) (
            o >>= λ (kept, _).
            some (pos 0, record c { dirty = true; entries = kept ++ (passed ++ next) }))
    from_strip none e p = none_some e
    from_strip (some (kept, x)) e p = (
      record c { dirty = true; entries = kept ++ (passed ++ next) },
      refl,
      items-append kept (passed ++ next)
          ∙ ap (◌++◌ (items kept))
              (items-append passed next ∙ ap (λ (l : List Item). l ++ items next) nothing)
          ∙ ap (λ (l : List Item). l ++ items next) p,
    )

found-Leaves :
    (c : Config) (s : Bytes) (value : Option Bytes) (before : List Entry) (x : Entry)
    (behind : List Entry)
    → names x.section s ≡ true
    → is_some (strip before) ≡ true
    → Leaves (items before ++ next_items (items behind)) (write_found c none value before x behind)
unfolding write_found Leaves Strips Passes
found-Leaves c s value before x behind named stays =
    let own = (split_section behind).0 in
    let next = (split_section behind).1 in
    let upper = before ++ x ∷ own in
    subst (λ (a : List Item). Leaves (items before ++ a) (write_found c none value before x behind))
      (split_section-next behind)
      (from_strip own next (strip upper) (strip-Strips upper) (strip-Passes upper))
  where
    from_strip :
        (own next : List Entry) (o : Option (List Entry × List Entry))
        → Strips (before ++ x ∷ own) o
        → Passes o
        → Leaves
            (items before ++ items next)
            (o >>= λ (_, comments). delete_between c before (comments ++ next))
    from_strip own next none (p, q) r = none_some (sym q ∙ has_section-found s before x own named)
    from_strip own next (some (kept, passed)) p r = drop_between-Leaves c before passed next stays r

valid-Leaves :
    (c : Config) (s : Bytes) (value : Option Bytes) (o : Option (List Entry × Entry × List Entry))
    → fronted s c.entries ≡ true
    → Finds s c.entries o
    → DropsAt s c.entries o
    → Leaves (remove_section s (items c.entries)) (elim o [
      | none ↦ some (write_missing c s none value)
      | some (before, e, behind) ↦ write_found c none value before e behind
    ])
unfolding Leaves Finds DropsAt write_missing
valid-Leaves c s value none u f p = (c, refl, sym p)
valid-Leaves c s value (some (before, x, behind)) u f p =
    let (c', done, left) = found-Leaves c s value before x behind f.named (p.stays u) in
    (c', done, left ∙ sym p.removed)

-- `cfg_write` with no key, if something other than comments stands in front of the section or there is no
-- such section, succeeds with no fault whatever the value, and takes out of the file's items the first
-- section of the name with all that belongs to it, and nothing else.
pub cfg_write-remove_section :
    (c : Config) (s : Bytes) (value : Option Bytes)
    → c.valid ≡ true
    → fronted s c.entries ≡ true
    → (c' : Config) × (cfg_write c (some s) none value ≡ some (pos 0, c'))
      × (items c'.entries ≡ remove_section s (items c.entries))
unfolding cfg_write write_valid Leaves
cfg_write-remove_section c s value ok u =
    let (c', done, left) =
      valid-Leaves c s value (find_section s c.entries) u (find_section-Finds s c.entries)
        (find_section-DropsAt s c.entries) in
    (c', simp ok done, left)
