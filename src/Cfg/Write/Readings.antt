-- ===== src/Cfg/Write/Readings.antt =====
-- How an entry that is changed, added or passed over shows in the readings of a file.
use tcp_svr.Base.{
  Bytes, List, [], ◌∷◌, ◌++◌, Option, none, some, true, false, str_eq_eq, ◌≡◌, refl, ap, ◌⊎◌, inl,
  inr, Option-cases,
}
use tcp_svr.Cfg.Entry.{Entry, is_some, dynamic_entry}
use tcp_svr.Cfg.Cursor.Items.{Item, sect, def, cont, item_of, items}
use tcp_svr.Cfg.Cursor.Items.Find.{is_key, lookup_in, lookup}
use tcp_svr.Cfg.Write.{names, with_value, inserted}

-- Both readings of two lists of items agree.
pub record Same (t j : Bytes) (a b : List Item) : Type 0 where
  pub outside : lookup t j a ≡ lookup t j b
  pub inside : lookup_in j a ≡ lookup_in j b

pub Same-cons :
    (t j : Bytes) (it : Item) (a b : List Item) → Same t j a b → Same t j (it ∷ a) (it ∷ b)
unfolding lookup lookup_in
Same-cons t j (sect s) a b e = record { outside = rw (e.outside, e.inside) refl; inside = refl }
Same-cons t j (def i v) a b e = record { outside = e.outside; inside = rw e.inside refl }
Same-cons t j (cont v) a b e = record { outside = e.outside; inside = e.inside }

pub Same-entry :
    (t j : Bytes) (e : Entry) (x y : List Entry)
    → Same t j (items x) (items y)
    → Same t j (items (e ∷ x)) (items (e ∷ y))
unfolding items
Same-entry t j e x y p = elim (Option-cases (item_of e.section e.id e.value)) [
  | inl nothing ↦ rw (nothing, items) p
  | inr (it, one) ↦ rw (one, items) (Same-cons t j it (items x) (items y) p)
]

pub Same-entries :
    (t j : Bytes) (b x y : List Entry)
    → Same t j (items x) (items y)
    → Same t j (items (b ++ x)) (items (b ++ y))
Same-entries t j [] x y p = p
Same-entries t j (e ∷ b) x y p = Same-entry t j e (b ++ x) (b ++ y) (Same-entries t j b x y p)

-- A definition of another key changes nothing.
pub Same-other : (t j k v : Bytes) (a : List Item) → is_key k j ≡ false → Same t j (def k v ∷ a) a
unfolding lookup lookup_in
Same-other t j k v a e = record { outside = refl; inside = rw e refl }

pub Same-def :
    (t j k v w : Bytes) (a : List Item) → is_key k j ≡ false → Same t j (def k v ∷ a) (def k w ∷ a)
unfolding lookup lookup_in
Same-def t j k v w a e = record { outside = refl; inside = rw e refl }

pub Same-refl : (t j : Bytes) (a : List Item) → Same t j a a
Same-refl t j a = record { outside = refl; inside = refl }

-- The new entry, where there is none to change.
abbrev pub fresh : Bytes → Bytes → Entry
fresh k v = dynamic_entry none (some k) (some v)

pub items-fresh : (k v : Bytes) (es : List Entry) → items (fresh k v ∷ es) ≡ def k v ∷ items es
unfolding items dynamic_entry
items-fresh k v es = refl

pub items-inserted :
    (e : Entry) (k v : Bytes) (es : List Entry) → items (inserted e k v ∷ es) ≡ def k v ∷ items es
unfolding items inserted
items-inserted e k v es = refl

pub names-some : (o : Option Bytes) (k : Bytes) → names o k ≡ true → o ≡ some k
names-some none k e = cc
names-some (some i) k e = ap some (str_eq_eq i k e)

pub not_some : (o : Option Bytes) → is_some o ≡ false → o ≡ none
not_some none e = refl
not_some (some s) e = cc

pub items-with_value :
    (e : Entry) (k v : Bytes) (es : List Entry)
    → is_some e.section ≡ false
    → names e.id k ≡ true
    → items (with_value e v ∷ es) ≡ def k v ∷ items es
unfolding items with_value
items-with_value e k v es top same = simp (not_some e.section top, names-some e.id k same) refl

-- The entry as it was.
pub items-named :
    (e : Entry) (k : Bytes) (es : List Entry)
    → is_some e.section ≡ false
    → names e.id k ≡ true
    → (items (e ∷ es) ≡ items es) ⊎ ((w : Bytes) × (items (e ∷ es) ≡ def k w ∷ items es))
unfolding items
items-named e k es top same = elim (Option-cases e.value) [
  | inl bare ↦ inl (simp (not_some e.section top, names-some e.id k same, bare, items) refl)
  | inr (w, full) ↦ inr (w, simp (not_some e.section top, names-some e.id k same, full, items) refl)
]

pub lookup-top :
    (t j : Bytes) (e : Entry) (x : List Entry)
    → is_some e.section ≡ false
    → lookup t j (items (e ∷ x)) ≡ lookup t j (items x)
unfolding items lookup item_of
lookup-top t j e x top = elim (Option-cases e.value) [
  | inl empty ↦ elim (Option-cases e.id) [
    | inl bare ↦ simp (not_some e.section top, bare, empty, items) refl
    | inr (i, keyed) ↦ simp (not_some e.section top, keyed, empty, items) refl
  ]
  | inr (w, full) ↦ elim (Option-cases e.id) [
    | inl bare ↦ simp (not_some e.section top, bare, full, items, lookup) refl
    | inr (i, keyed) ↦ simp (not_some e.section top, keyed, full, items, lookup) refl
  ]
]
