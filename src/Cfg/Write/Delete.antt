-- ===== src/Cfg/Write/Delete.antt =====
-- The parts of the deletion of a key by `cfg_write`, against the items of the file.
pub mod Sound
pub mod Section
pub mod Emptied
use tcp_svr.Base.{
  ℕ, zero, suc, Bytes, List, [], ◌∷◌, ◌++◌, Option, none, some, ℤ, pos, Bool, true, false, ◌||◌,
  ◌&&◌, str_eq, not, if◌then◌else◌, ◌≡◌, refl, sym, ap, str_eq_refl, ◌∙◌, ◌⊎◌, inl, inr, arith,
  Bool-cases, Option-cases, append_assoc, append-nil, subst,
}
use tcp_svr.Cfg.Entry.{Entry, Config, is_some, ◌>>=◌}
use tcp_svr.Cfg.Cursor.Items.{Item, sect, def, cont, item_of, items}
use tcp_svr.Cfg.Write.{
  names, find_section, split_key, is_comment, strip, delete_between, write_found, write_missing,
  write_valid, cfg_write,
}
use tcp_svr.Cfg.Write.Readings.{not_some, names-some}
use tcp_svr.Cfg.Write.Sections.{items-section}

-- The first definition of a key is taken out of a section's items.
pub remove_in : Bytes → List Item → List Item
remove_in k [] = []
remove_in k (sect t ∷ a) = sect t ∷ a
remove_in k (def i v ∷ a) = if str_eq i k then a else def i v ∷ remove_in k a
remove_in k (cont v ∷ a) = cont v ∷ remove_in k a

-- Out of the first section with a name.
pub remove : Bytes → Bytes → List Item → List Item
remove s k [] = []
remove s k (sect t ∷ a) = if str_eq t s then sect t ∷ remove_in k a else sect t ∷ remove s k a
remove s k (def i v ∷ a) = def i v ∷ remove s k a
remove s k (cont v ∷ a) = cont v ∷ remove s k a

-- Every entry of the key has a value.
unfoldable pub Valued : Bytes → List Entry → Type 0
Valued k [] = Unit {0}
Valued k (e ∷ es) = (names e.id k ≡ true → is_some e.value ≡ true) × Valued k es

pub items-append : (x y : List Entry) → items (x ++ y) ≡ items x ++ items y
unfolding items
items-append [] y = refl
items-append (e ∷ x) y = elim (Option-cases (item_of e.section e.id e.value)) [
  | inl nothing ↦ rw (nothing, items) (items-append x y)
  | inr (it, one) ↦ rw (one, items) (ap (◌∷◌ it) (items-append x y))
]

items-cong : (e : Entry) (x y : List Entry) → items x ≡ items y → items (e ∷ x) ≡ items (e ∷ y)
unfolding items
items-cong e x y p =
    ap (λ (l : List Item). elim (item_of e.section e.id e.value) [ none ↦ l | some it ↦ it ∷ l ]) p

pub has_section : List Entry → Bool
has_section [] = false
has_section (e ∷ es) = is_some e.section || has_section es

-- The walk over comments leaves the items as they are, and ends if there is a section.
pub Strips : List Entry → Option (List Entry × List Entry) → Type 0
Strips x none = (items x ≡ []) × (has_section x ≡ false)
Strips x (some (kept, passed)) = items kept ≡ items x

pub none_some : {A : Type 0} → false ≡ true → A
none_some e = absurd (no e)
  where
    no : false ≡ true → ⊥
    no e = cc

only_comment :
    (sc i v : Option Bytes) (b : Bool)
    → (not (is_some sc || is_some i || is_some v) && b) ≡ true
    → (item_of sc i v ≡ none) × (is_some sc ≡ false)
unfolding item_of
only_comment none none none b c = (refl, refl)
only_comment none none (some v) b c = cc
only_comment none (some i) v b c = cc
only_comment (some sc) i v b c = cc

pub comment-nothing :
    (e : Entry) (x : List Entry)
    → is_comment e ≡ true
    → (items (e ∷ x) ≡ items x) × (is_some e.section ≡ false)
unfolding is_comment items
comment-nothing e x c = elim (Option-cases e.comment) [
  | inl bare ↦ none_some (rw bare at c)
  | inr (text, full) ↦
      let (nothing, plain) = only_comment e.section e.id e.value _ (rw full at c) in
      (rw (nothing, items) refl, plain)
]

above-Strips :
    (e : Entry) (es : List Entry) (o : Option (List Entry × List Entry))
    → Strips es o
    → Strips (e ∷ es) (elim o [
      | some (kept, passed) ↦ some (e ∷ kept, passed)
      | none ↦ if is_comment e then none else some (e ∷ [], es)
    ])
unfolding Strips has_section items
above-Strips e es (some (kept, passed)) p = items-cong e kept es p
above-Strips e es none (p, q) = elim (Bool-cases (is_comment e)) [
  | inl comment ↦
      let (skip, plain) = comment-nothing e es comment in rw comment (skip ∙ p, rw (plain, q) refl)
  | inr other ↦ rw other (items-cong e [] es (sym p))
]

pub strip-Strips : (x : List Entry) → Strips x (strip x)
unfolding strip Strips has_section items
strip-Strips [] = (refl, refl)
strip-Strips (e ∷ es) = above-Strips e es (strip es) (strip-Strips es)

-- An entry in front, as it shows among the items.
pub show : Entry → List Item → List Item
show e a = elim (item_of e.section e.id e.value) [ none ↦ a | some it ↦ it ∷ a ]

pub items-show : (e : Entry) (es : List Entry) → items (e ∷ es) ≡ show e (items es)
unfolding items show
items-show e es = refl

pub show-append : (e : Entry) (a b : List Item) → show e a ++ b ≡ show e (a ++ b)
unfolding show
show-append e a b = elim (Option-cases (item_of e.section e.id e.value)) [
  | inl nothing ↦ rw (nothing, show) refl
  | inr (it, one) ↦ rw (one, show) refl
]

-- An entry that is neither a section nor of the key.
remove_in-passed :
    (k : Bytes) (e : Entry) (es : List Entry)
    → is_some e.section ≡ false
    → names e.id k ≡ false
    → remove_in k (items (e ∷ es)) ≡ show e (remove_in k (items es))
unfolding items remove_in item_of show
remove_in-passed k e es top other = elim (Option-cases e.value) [
  | inl empty ↦ elim (Option-cases e.id) [
    | inl bare ↦ simp (not_some e.section top, bare, empty, items, show) refl
    | inr (i, keyed) ↦ simp (not_some e.section top, keyed, empty, items, show) refl
  ]
  | inr (w, full) ↦ elim (Option-cases e.id) [
    | inl bare ↦ simp (not_some e.section top, bare, full, items, show, remove_in) refl
    | inr (i, keyed) ↦
        let apart : str_eq i k ≡ false =
          subst (λ (o : Option Bytes). names o k ≡ false) keyed other in
        simp (not_some e.section top, keyed, full, items, show, remove_in, apart) refl
  ]
]

-- The first entry of the key.
remove_in-named :
    (k : Bytes) (e : Entry) (es : List Entry)
    → is_some e.section ≡ false
    → names e.id k ≡ true
    → is_some e.value ≡ true
    → remove_in k (items (e ∷ es)) ≡ items es
unfolding items remove_in item_of
remove_in-named k e es top same full = elim (Option-cases e.value) [
  | inl empty ↦ none_some (subst (λ (o : Option Bytes). is_some o ≡ true) empty full)
  | inr (w, value) ↦
      simp (not_some e.section top, names-some e.id k same, value, items, remove_in, str_eq_refl k)
        refl
]

pub Cuts : Bytes → List Entry → Option (List Entry × List Entry) → Type 0
Cuts k es none = remove_in k (items es) ≡ items es
Cuts k es (some (own, next)) = remove_in k (items es) ≡ items (own ++ next)

later-Cuts :
    (k : Bytes) (e : Entry) (es : List Entry) (o : Option (List Entry × List Entry))
    → is_some e.section ≡ false
    → names e.id k ≡ false
    → Cuts k es o
    → Cuts k (e ∷ es) (o >>= λ (own, next). some (e ∷ own, next))
unfolding Cuts
later-Cuts k e es none top other p =
    remove_in-passed k e es top other ∙ ap (show e) p ∙ sym (items-show e es)
later-Cuts k e es (some (own, next)) top other p =
    remove_in-passed k e es top other ∙ ap (show e) p ∙ sym (items-show e (own ++ next))

pub split_key-Cuts : (k : Bytes) (es : List Entry) → Valued k es → Cuts k es (split_key k es)
unfolding split_key Cuts Valued items remove_in
split_key-Cuts k [] u = refl
split_key-Cuts k (e ∷ es) (u, us) = elim (Bool-cases (is_some e.section)) [
  | inl next ↦ rw (next, split_key) (section_stays next)
  | inr top ↦ elim (Bool-cases (names e.id k)) [
    | inl same ↦ rw (top, same, split_key) (remove_in-named k e es top same (u same))
    | inr other ↦
        rw (top, other, split_key)
          (later-Cuts k e es (split_key k es) top other (split_key-Cuts k es us))
  ]
]
  where
    section_stays : is_some e.section ≡ true → remove_in k (items (e ∷ es)) ≡ items (e ∷ es)
    section_stays next = elim (Option-cases e.section) [
      | inl untitled ↦ none_some (subst (λ (o : Option Bytes). is_some o ≡ true) untitled next)
      | inr (t, titled) ↦ simp (titled, items, remove_in) refl
    ]
