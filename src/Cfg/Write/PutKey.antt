-- ===== src/Cfg/Write/PutKey.antt =====
-- The entries of a section after a key is added or updated.
use tcp_svr.Base.{
  Bytes, List, [], ◌∷◌, ◌++◌, Option, some, true, false, str_eq, ◌≡◌, refl, sym, ◌∙◌, inl, inr,
  Bool-cases, Option-cases, subst,
}
use tcp_svr.Cfg.Entry.{Entry, is_some}
use tcp_svr.Cfg.Cursor.Items.{Item, def, item_of, items}
use tcp_svr.Cfg.Cursor.Items.Find.{is_key, lookup_in, lookup}
use tcp_svr.Cfg.Write.{names, Put, updated, insert, append, put_later, put_key}
use tcp_svr.Cfg.Write.Readings.{
  Same, Same-entry, Same-other, Same-def, fresh, items-fresh, items-inserted, not_some,
  items-with_value, items-named, lookup-top,
}

unfoldable pub put_result : List Entry → Entry → Put → List Entry
put_result es new (updated l) = l
put_result es new (insert l) = l
put_result es new append = es ++ new ∷ []

unfoldable pub put_result-later :
    (e : Entry) (es : List Entry) (new : Entry) (p : Put)
    → put_result (e ∷ es) new (put_later e p) ≡ e ∷ put_result es new p
unfolding put_result
put_result-later e es new (updated l) = refl
put_result-later e es new (insert l) = refl
put_result-later e es new append = refl

-- The rest of the entries has the key only as it is spelled.
unfoldable pub PlainKeys : Bytes → List Entry → Type 0
PlainKeys k [] = Unit {0}
PlainKeys k (e ∷ es) = ((i : Bytes) → e.id ≡ some i → is_key i k ≡ str_eq i k) × PlainKeys k es

-- An entry with no section and another key is passed over.
pub lookup_in-other :
    (e : Entry) (k : Bytes) (x : List Entry)
    → is_some e.section ≡ false
    → names e.id k ≡ false
    → ((i : Bytes) → e.id ≡ some i → is_key i k ≡ str_eq i k)
    → lookup_in k (items (e ∷ x)) ≡ lookup_in k (items x)
unfolding items lookup_in item_of
lookup_in-other e k x top other plain = elim (Option-cases e.id) [
  | inl bare ↦ elim (Option-cases e.value) [
    | inl empty ↦ simp (not_some e.section top, bare, empty, items) refl
    | inr (w, full) ↦ simp (not_some e.section top, bare, full, items, lookup_in) refl
  ]
  | inr (i, keyed) ↦
      let apart : str_eq i k ≡ false =
        subst (λ (o : Option Bytes). names o k ≡ false) keyed other in
      elim (Option-cases e.value) [
        | inl empty ↦ simp (not_some e.section top, keyed, empty, items) refl
        | inr (w, full) ↦
            simp (not_some e.section top, keyed, full, items, lookup_in, plain i keyed, apart) refl
      ]
]

pub lookup_in-def :
    (k v : Bytes) (a : List Item) → is_key k k ≡ true → lookup_in k (def k v ∷ a) ≡ some v
unfolding lookup_in
lookup_in-def k v a e = rw e refl

pub lookup_in-put_key :
    (k v : Bytes) (es : List Entry)
    → is_key k k ≡ true
    → PlainKeys k es
    → lookup_in k (items (put_result es (fresh k v) (put_key k v es))) ≡ some v
unfolding put_key put_result PlainKeys
lookup_in-put_key k v [] own plain = rw (items-fresh k v []) (lookup_in-def k v _ own)
lookup_in-put_key k v (e ∷ es) own (p, plain) = elim (Bool-cases (is_some e.section)) [
  | inl next ↦ rw (next, put_key, items-inserted e k v (e ∷ es)) (lookup_in-def k v _ own)
  | inr top ↦ elim (Bool-cases (names e.id k)) [
    | inl same ↦
        rw (top, same, put_key, items-with_value e k v es top same) (lookup_in-def k v _ own)
    | inr other ↦
        rw (top, other, put_key, put_result-later e es (fresh k v) (put_key k v es))
          (lookup_in-other e k _ top other p ∙ lookup_in-put_key k v es own plain)
  ]
]

pub put_key-Same :
    (t j k v : Bytes) (es : List Entry)
    → is_key k j ≡ false
    → Same t j (items (put_result es (fresh k v) (put_key k v es))) (items es)
unfolding put_key put_result
put_key-Same t j k v [] other = rw (items-fresh k v []) (Same-other t j k v _ other)
put_key-Same t j k v (e ∷ es) apart = elim (Bool-cases (is_some e.section)) [
  | inl next ↦ rw (next, put_key, items-inserted e k v (e ∷ es)) (Same-other t j k v _ apart)
  | inr top ↦ elim (Bool-cases (names e.id k)) [
    | inl same ↦
        rw (top, same, put_key, items-with_value e k v es top same)
          (elim (items-named e k es top same) [
            | inl bare ↦ rw bare (Same-other t j k v _ apart)
            | inr (w, full) ↦ rw full (Same-def t j k v w _ apart)
          ])
    | inr other ↦
        rw (top, other, put_key, put_result-later e es (fresh k v) (put_key k v es))
          (Same-entry t j e _ es (put_key-Same t j k v es apart))
  ]
]

-- Outside the section nothing changes.
pub lookup-put_key :
    (t j k v : Bytes) (es : List Entry)
    → lookup t j (items (put_result es (fresh k v) (put_key k v es))) ≡ lookup t j (items es)
unfolding put_key put_result lookup
lookup-put_key t j k v [] = rw (items-fresh k v []) refl
lookup-put_key t j k v (e ∷ es) = elim (Bool-cases (is_some e.section)) [
  | inl next ↦ rw (next, put_key, items-inserted e k v (e ∷ es)) refl
  | inr top ↦ elim (Bool-cases (names e.id k)) [
    | inl same ↦
        rw (top, same, put_key, items-with_value e k v es top same) (sym (lookup-top t j e es top))
    | inr other ↦
        rw (top, other, put_key, put_result-later e es (fresh k v) (put_key k v es))
          (lookup-top t j e _ top ∙ lookup-put_key t j k v es ∙ sym (lookup-top t j e es top))
  ]
]
