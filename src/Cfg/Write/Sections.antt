-- ===== src/Cfg/Write/Sections.antt =====
-- The search of a section by `cfg_write`, and what a lookup reads there.
use tcp_svr.Base.{
  Bytes, List, [], ◌∷◌, ◌++◌, Option, none, some, true, false, str_eq, str_eq_refl, ◌≡◌, refl, ap,
  ◌∙◌, inl, inr, Bool-cases, Option-cases, subst,
}
use tcp_svr.Cfg.Entry.{Entry, ◌>>=◌}
use tcp_svr.Cfg.Cursor.Items.{Item, sect, item_of, items}
use tcp_svr.Cfg.Cursor.Items.Find.{lookup_in, lookup}
use tcp_svr.Cfg.Write.{names, find_section}
use tcp_svr.Cfg.Write.Readings.{names-some, lookup-top}

pub items-section :
    (e : Entry) (s : Bytes) (x : List Entry)
    → names e.section s ≡ true
    → items (e ∷ x) ≡ sect s ∷ items x
unfolding items item_of
items-section e s x named = simp (names-some e.section s named, items) refl

-- What a search for a section has found.
pub record Found (s : Bytes) (es before : List Entry) (x : Entry) (behind : List Entry)
    : Type 0 where
  pub whole : es ≡ before ++ x ∷ behind
  pub named : names x.section s ≡ true
  pub reads :
      (k : Bytes) (y : List Entry) → lookup s k (items (before ++ x ∷ y)) ≡ lookup_in k (items y)

unfoldable pub Finds : Bytes → List Entry → Option (List Entry × Entry × List Entry) → Type 0
Finds s es none = (k : Bytes) (y : List Entry) → lookup s k (items (es ++ y)) ≡ lookup s k (items y)
Finds s es (some (before, x, behind)) = Found s es before x behind

-- An entry that is not the section.
pub lookup-passed :
    (s k : Bytes) (e : Entry) (x : List Entry)
    → names e.section s ≡ false
    → lookup s k (items (e ∷ x)) ≡ lookup s k (items x)
unfolding items lookup item_of
lookup-passed s k e x other = elim (Option-cases e.section) [
  | inl none_here ↦ lookup-top s k e x (rw none_here refl)
  | inr (t, titled) ↦
      let apart : str_eq t s ≡ false =
        subst (λ (o : Option Bytes). names o s ≡ false) titled other in
      simp (titled, items, lookup, apart) refl
]

pub lookup-section : (s k : Bytes) (a : List Item) → lookup s k (sect s ∷ a) ≡ lookup_in k a
unfolding lookup
lookup-section s k a = rw (str_eq_refl s) refl

pub later-Finds :
    (s : Bytes) (e : Entry) (es : List Entry) (o : Option (List Entry × Entry × List Entry))
    → names e.section s ≡ false
    → Finds s es o
    → Finds s (e ∷ es) (o >>= λ (before, x, behind). some (e ∷ before, x, behind))
unfolding Finds
later-Finds s e es none other f = λ k y. lookup-passed s k e (es ++ y) other ∙ f k y
later-Finds s e es (some (before, x, behind)) other f = record {
  whole = ap (◌∷◌ e) f.whole;
  named = f.named;
  reads = λ k y. lookup-passed s k e (before ++ x ∷ y) other ∙ f.reads k y;
}

pub find_section-Finds : (s : Bytes) (es : List Entry) → Finds s es (find_section s es)
unfolding find_section Finds
find_section-Finds s [] = λ k y. refl
find_section-Finds s (e ∷ es) = elim (Bool-cases (names e.section s)) [
  | inl here ↦
      rw (here, find_section)
        (record { whole = refl; named = here; reads = λ k y. at_once k y here })
  | inr other ↦
      rw (other, find_section)
        (later-Finds s e es (find_section s es) other (find_section-Finds s es))
]
  where
    at_once :
        (k : Bytes) (y : List Entry)
        → names e.section s ≡ true
        → lookup s k (items (e ∷ y)) ≡ lookup_in k (items y)
    at_once k y here = rw (items-section e s y here) (lookup-section s k (items y))
