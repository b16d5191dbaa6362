-- ===== src/Cfg/Write/Delete/Section.antt =====
-- The deletion of a section by `cfg_write`, against the items of the file.
use tcp_svr.Base.{
  Bytes, List, [], ◌∷◌, ◌++◌, Option, none, some, Bool, true, false, str_eq, if◌then◌else◌, ◌≡◌,
  refl, sym, ap, str_eq_refl, ◌∙◌, inl, inr, Bool-cases, Option-cases, subst,
}
use tcp_svr.Cfg.Entry.{Entry, is_some, ◌>>=◌}
use tcp_svr.Cfg.Cursor.Items.{Item, sect, def, cont, item_of, items}
use tcp_svr.Cfg.Write.{names, find_section, split_section, is_comment, strip}
use tcp_svr.Cfg.Write.Readings.{not_some}
use tcp_svr.Cfg.Write.Sections.{items-section}
use tcp_svr.Cfg.Write.Delete.{Strips, strip-Strips, show, items-show, show-append, none_some}

-- The items from the next section on.
pub next_items : List Item → List Item
next_items [] = []
next_items (sect t ∷ a) = sect t ∷ a
next_items (def i v ∷ a) = next_items a
next_items (cont v ∷ a) = next_items a

-- The first section with a name is taken out, with what belongs to it.
pub remove_section : Bytes → List Item → List Item
remove_section s [] = []
remove_section s (sect t ∷ a) = if str_eq t s then next_items a else sect t ∷ remove_section s a
remove_section s (def i v ∷ a) = def i v ∷ remove_section s a
remove_section s (cont v ∷ a) = cont v ∷ remove_section s a

-- Something other than comments stands in front of the section, if it is there.
unfoldable pub fronted : Bytes → List Entry → Bool
fronted s [] = true
fronted s (e ∷ es) =
    if names e.section s then false else if is_comment e then fronted s es else true

next_items-own :
    (e : Entry) (es : List Entry)
    → is_some e.section ≡ false
    → next_items (items (e ∷ es)) ≡ next_items (items es)
unfolding items next_items item_of
next_items-own e es top = elim (Option-cases e.value) [
  | inl empty ↦ elim (Option-cases e.id) [
    | inl bare ↦ simp (not_some e.section top, bare, empty, items) refl
    | inr (i, keyed) ↦ simp (not_some e.section top, keyed, empty, items) refl
  ]
  | inr (w, full) ↦ elim (Option-cases e.id) [
    | inl bare ↦ simp (not_some e.section top, bare, full, items, next_items) refl
    | inr (i, keyed) ↦ simp (not_some e.section top, keyed, full, items, next_items) refl
  ]
]

next_items-section :
    (e : Entry) (es : List Entry)
    → is_some e.section ≡ true
    → next_items (items (e ∷ es)) ≡ items (e ∷ es)
unfolding items next_items item_of
next_items-section e es next = elim (Option-cases e.section) [
  | inl untitled ↦ none_some (subst (λ (o : Option Bytes). is_some o ≡ true) untitled next)
  | inr (t, titled) ↦ simp (titled, items, next_items) refl
]

pub split_section-next : (es : List Entry) → items (split_section es).1 ≡ next_items (items es)
unfolding split_section items next_items
split_section-next [] = refl
split_section-next (e ∷ es) = elim (Bool-cases (is_some e.section)) [
  | inl next ↦ rw (next, split_section) (sym (next_items-section e es next))
  | inr top ↦ rw (top, split_section) (split_section-next es ∙ sym (next_items-own e es top))
]

-- What the walk over comments passes has no items.
unfoldable pub Passes : Option (List Entry × List Entry) → Type 0
Passes none = Unit {0}
Passes (some (kept, passed)) = items passed ≡ []

pub strip-Passes : (x : List Entry) → Passes (strip x)
unfolding strip Passes Strips
strip-Passes [] = tt
strip-Passes (e ∷ es) = above (strip es) (strip-Passes es) (strip-Strips es)
  where
    above :
        (o : Option (List Entry × List Entry))
        → Passes o
        → Strips es o
        → Passes (elim o [
          | some (kept, passed) ↦ some (e ∷ kept, passed)
          | none ↦ if is_comment e then none else some (e ∷ [], es)
        ])
    above (some (kept, passed)) p q = p
    above none p (q, r) = elim (Bool-cases (is_comment e)) [
      | inl comment ↦ rw comment tt
      | inr other ↦ rw other q
    ]

-- The walk ends at something other than a comment.
strip-stops : (e : Entry) (es : List Entry) → is_comment e ≡ false → is_some (strip (e ∷ es)) ≡ true
unfolding strip
strip-stops e es other = elim (Option-cases (strip es)) [
  | inl passed ↦ rw (passed, other, strip) refl
  | inr (k, above) ↦ rw (above, strip) refl
]

strip-later :
    (e : Entry) (es : List Entry) → is_some (strip es) ≡ true → is_some (strip (e ∷ es)) ≡ true
unfolding strip
strip-later e es above = elim (Option-cases (strip es)) [
  | inl passed ↦
      none_some (subst (λ (o : Option (List Entry × List Entry)). is_some o ≡ true) passed above)
  | inr (k, found) ↦ rw (found, strip) refl
]

remove_section-passed :
    (s : Bytes) (e : Entry) (es : List Entry)
    → names e.section s ≡ false
    → remove_section s (items (e ∷ es)) ≡ show e (remove_section s (items es))
unfolding items remove_section item_of show
remove_section-passed s e es other = elim (Option-cases e.section) [
  | inl untitled ↦ elim (Option-cases e.value) [
    | inl empty ↦ elim (Option-cases e.id) [
      | inl bare ↦ simp (untitled, bare, empty, items, show) refl
      | inr (i, keyed) ↦ simp (untitled, keyed, empty, items, show) refl
    ]
    | inr (w, full) ↦ elim (Option-cases e.id) [
      | inl bare ↦ simp (untitled, bare, full, items, show, remove_section) refl
      | inr (i, keyed) ↦ simp (untitled, keyed, full, items, show, remove_section) refl
    ]
  ]
  | inr (t, titled) ↦
      let apart : str_eq t s ≡ false =
        subst (λ (o : Option Bytes). names o s ≡ false) titled other in
      simp (titled, items, show, remove_section, apart) refl
]

-- Where the section stands, and what is removed.
pub record Drops (s : Bytes) (es before : List Entry) (x : Entry) (behind : List Entry)
    : Type 0 where
  pub removed : remove_section s (items es) ≡ items before ++ next_items (items behind)
  pub stays : fronted s es ≡ true → is_some (strip before) ≡ true

unfoldable pub DropsAt : Bytes → List Entry → Option (List Entry × Entry × List Entry) → Type 0
DropsAt s es none = remove_section s (items es) ≡ items es
DropsAt s es (some (before, x, behind)) = Drops s es before x behind

later-DropsAt :
    (s : Bytes) (e : Entry) (es : List Entry) (o : Option (List Entry × Entry × List Entry))
    → names e.section s ≡ false
    → DropsAt s es o
    → DropsAt s (e ∷ es) (o >>= λ (before, x, behind). some (e ∷ before, x, behind))
unfolding DropsAt fronted
later-DropsAt s e es none other p =
    remove_section-passed s e es other ∙ ap (show e) p ∙ sym (items-show e es)
later-DropsAt s e es (some (before, x, behind)) other p = record {
  removed =
      remove_section-passed s e es other
      ∙ ap (show e) p.removed
      ∙ sym (show-append e (items before) _)
      ∙ ap (λ (l : List Item). l ++ next_items (items behind)) (sym (items-show e before));
  stays = λ f. elim (Bool-cases (is_comment e)) [
    | inl comment ↦ strip-later e before (p.stays (rw (other, comment) at f))
    | inr plain ↦ strip-stops e before plain
  ];
}

pub find_section-DropsAt : (s : Bytes) (es : List Entry) → DropsAt s es (find_section s es)
unfolding find_section DropsAt remove_section items fronted
find_section-DropsAt s [] = refl
find_section-DropsAt s (e ∷ es) = elim (Bool-cases (names e.section s)) [
  | inl here ↦
      rw (here, find_section)
        (record {
          removed = rw (items-section e s es here) (at_once (items es));
          stays = λ f. none_some (rw here at f);
        })
  | inr other ↦
      rw (other, find_section)
        (later-DropsAt s e es (find_section s es) other (find_section-DropsAt s es))
]
  where
    at_once : (a : List Item) → remove_section s (sect s ∷ a) ≡ next_items a
    at_once a = rw (str_eq_refl s) refl
