-- ===== src/Cfg/Write/Delete/Sound.antt =====
-- The deletion of a key by `cfg_write`, against the items of the file.
use tcp_svr.Base.{
  Bytes, List, [], ◌∷◌, ◌++◌, Option, none, some, pos, Bool, true, false, ◌||◌, str_eq, ◌≡◌, refl,
  sym, ap, str_eq_refl, ◌∙◌, inl, inr, Bool-cases, Option-cases, append_assoc, subst,
}
use tcp_svr.Cfg.Entry.{Entry, Config, is_some, ◌>>=◌}
use tcp_svr.Cfg.Cursor.Items.{Item, sect, item_of, items}
use tcp_svr.Cfg.Write.{
  names, find_section, split_key, strip, delete_between, write_found, write_missing, write_valid,
  cfg_write,
}
use tcp_svr.Cfg.Write.Readings.{names-some}
use tcp_svr.Cfg.Write.Sections.{items-section}
use tcp_svr.Cfg.Cursor.{Outcome}
use tcp_svr.Cfg.Write.Delete.{
  remove_in, remove, Valued, items-append, has_section, Strips, strip-Strips, show, items-show,
  show-append, Cuts, split_key-Cuts, none_some,
}

remove-passed :
    (s k : Bytes) (e : Entry) (es : List Entry)
    → names e.section s ≡ false
    → remove s k (items (e ∷ es)) ≡ show e (remove s k (items es))
unfolding items remove item_of show
remove-passed s k e es other = elim (Option-cases e.section) [
  | inl untitled ↦ elim (Option-cases e.value) [
    | inl empty ↦ elim (Option-cases e.id) [
      | inl bare ↦ simp (untitled, bare, empty, items, show) refl
      | inr (i, keyed) ↦ simp (untitled, keyed, empty, items, show) refl
    ]
    | inr (w, full) ↦ elim (Option-cases e.id) [
      | inl bare ↦ simp (untitled, bare, full, items, show, remove) refl
      | inr (i, keyed) ↦ simp (untitled, keyed, full, items, show, remove) refl
    ]
  ]
  | inr (t, titled) ↦
      let apart : str_eq t s ≡ false =
        subst (λ (o : Option Bytes). names o s ≡ false) titled other in
      simp (titled, items, show, remove, apart) refl
]

-- Where the section stands, and what is removed.
record Removes (s k : Bytes) (es before : List Entry) (x : Entry) (behind : List Entry)
    : Type 0 where
  whole : es ≡ before ++ x ∷ behind
  named : names x.section s ≡ true
  removed : remove s k (items es) ≡ items before ++ sect s ∷ remove_in k (items behind)

RemovesAt : Bytes → Bytes → List Entry → Option (List Entry × Entry × List Entry) → Type 0
RemovesAt s k es none = remove s k (items es) ≡ items es
RemovesAt s k es (some (before, x, behind)) = Removes s k es before x behind

later-RemovesAt :
    (s k : Bytes) (e : Entry) (es : List Entry) (o : Option (List Entry × Entry × List Entry))
    → names e.section s ≡ false
    → RemovesAt s k es o
    → RemovesAt s k (e ∷ es) (o >>= λ (before, x, behind). some (e ∷ before, x, behind))
unfolding RemovesAt
later-RemovesAt s k e es none other p =
    remove-passed s k e es other ∙ ap (show e) p ∙ sym (items-show e es)
later-RemovesAt s k e es (some (before, x, behind)) other p = record {
  whole = ap (◌∷◌ e) p.whole;
  named = p.named;
  removed =
      remove-passed s k e es other
      ∙ ap (show e) p.removed
      ∙ sym (show-append e (items before) _)
      ∙ ap (λ (l : List Item). l ++ sect s ∷ remove_in k (items behind))
          (sym (items-show e before));
}

find_section-RemovesAt : (s k : Bytes) (es : List Entry) → RemovesAt s k es (find_section s es)
unfolding find_section RemovesAt remove items
find_section-RemovesAt s k [] = refl
find_section-RemovesAt s k (e ∷ es) = elim (Bool-cases (names e.section s)) [
  | inl here ↦
      rw (here, find_section)
        (record {
          whole = refl;
          named = here;
          removed = rw (items-section e s es here) (at_once (items es));
        })
  | inr other ↦
      rw (other, find_section)
        (later-RemovesAt s k e es (find_section s es) other (find_section-RemovesAt s k es))
]
  where
    at_once : (a : List Item) → remove s k (sect s ∷ a) ≡ sect s ∷ remove_in k a
    at_once a = rw (str_eq_refl s) refl

pub has_section-found :
    (s : Bytes) (before : List Entry) (x : Entry) (own : List Entry)
    → names x.section s ≡ true
    → has_section (before ++ x ∷ own) ≡ true
unfolding has_section
has_section-found s [] x own named = rw (names-some x.section s named) refl
has_section-found s (e ∷ before) x own named =
    rw (has_section-found s before x own named) (or_true (is_some e.section))
  where
    or_true : (b : Bool) → (b || true) ≡ true
    or_true true = refl
    or_true false = refl

Valued-behind :
    (k : Bytes) (before : List Entry) (x : Entry) (behind : List Entry)
    → Valued k (before ++ x ∷ behind)
    → Valued k behind
unfolding Valued
Valued-behind k [] x behind (u, us) = us
Valued-behind k (e ∷ before) x behind (u, us) = Valued-behind k before x behind us

-- Success, with the items as given.
Leaves : List Item → Option Outcome → Type 0
Leaves a out = (c' : Config) × (out ≡ some (pos 0, c')) × (items c'.entries ≡ a)

delete_between-Leaves :
    (c : Config) (upper lower : List Entry)
    → has_section upper ≡ true
    → Leaves (items (upper ++ lower)) (delete_between c upper lower)
unfolding delete_between Leaves Strips
delete_between-Leaves c upper lower titled = from_strip (strip upper) (strip-Strips upper)
  where
    from_strip :
        (o : Option (List Entry × List Entry))
        → Strips upper o
        → Leaves
            (items (upper ++ lower))
            (o >>= λ (kept, _). some (pos 0, record c { dirty = true; entries = kept ++ lower }))
    from_strip none (p, q) = none_some (sym q ∙ titled)
    from_strip (some (kept, passed)) p = (
      record c { dirty = true; entries = kept ++ lower },
      refl,
      items-append kept lower
          ∙ ap (λ (l : List Item). l ++ items lower) p
          ∙ sym (items-append upper lower),
    )

found-Leaves :
    (c : Config) (s k : Bytes) (before : List Entry) (x : Entry) (behind : List Entry)
    (o : Option (List Entry × List Entry))
    → Removes s k c.entries before x behind
    → Cuts k behind o
    → Leaves (remove s k (items c.entries)) (elim o [
      | none ↦ some (pos 0, c)
      | some (own, next) ↦ delete_between c (before ++ x ∷ own) next
    ])
unfolding Leaves Cuts
found-Leaves c s k before x behind none f p = (
  c,
  refl,
  ap items f.whole
      ∙ items-append before (x ∷ behind)
      ∙ ap (◌++◌ (items before)) (items-section x s behind f.named ∙ ap (◌∷◌ (sect s)) (sym p))
      ∙ sym f.removed,
)
found-Leaves c s k before x behind (some (own, next)) f p =
    let (c', done, left) =
      delete_between-Leaves c (before ++ x ∷ own) next (has_section-found s before x own f.named) in
    (
      c',
      done,
      left
          ∙ ap items (append_assoc before (x ∷ own) next)
          ∙ items-append before (x ∷ own ++ next)
          ∙ ap (◌++◌ (items before))
              (items-section x s (own ++ next) f.named ∙ ap (◌∷◌ (sect s)) (sym p))
          ∙ sym f.removed,
    )

valid-Leaves :
    (c : Config) (s k : Bytes) (o : Option (List Entry × Entry × List Entry))
    → Valued k c.entries
    → RemovesAt s k c.entries o
    → Leaves (remove s k (items c.entries)) (elim o [
      | none ↦ some (write_missing c s (some k) none)
      | some (before, e, behind) ↦ write_found c (some k) none before e behind
    ])
unfolding Leaves RemovesAt write_missing write_found
valid-Leaves c s k none u f = (c, refl, sym f)
valid-Leaves c s k (some (before, x, behind)) u f =
    found-Leaves c s k before x behind (split_key k behind) f
      (split_key-Cuts k behind (Valued-behind k before x behind (subst (Valued k) f.whole u)))

-- `cfg_write` of a key with no value, if every entry of that key has a value, succeeds with no fault, and
-- takes out of the file's items the first definition of the key in the first section of the name,
-- and nothing else: with no such definition the items stay as they were.
pub cfg_write-removes :
    (c : Config) (s k : Bytes)
    → c.valid ≡ true
    → Valued k c.entries
    → (c' : Config) × (cfg_write c (some s) (some k) none ≡ some (pos 0, c'))
      × (items c'.entries ≡ remove s k (items c.entries))
unfolding cfg_write write_valid Leaves
cfg_write-removes c s k ok u =
    let (c', done, left) =
      valid-Leaves c s k (find_section s c.entries) u (find_section-RemovesAt s k c.entries) in
    (c', simp ok done, left)
