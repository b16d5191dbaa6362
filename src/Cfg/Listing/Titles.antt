-- ===== src/Cfg/Listing/Titles.antt =====
-- The sections that `list_sections` lists.
use tcp_svr.Base.{
  ℕ, zero, suc, ◌≤◌, ◌<◌, Bytes, List, [], ◌∷◌, Option, some, length, drop, pos, neg, Bool, true,
  false, if◌then◌else◌, ◌≡◌, refl, sym, ap, ◌∙◌, subst, ◌⊎◌, arith, inl, inr,
}
use tcp_svr.Cfg.Entry.{Entry, Config, error}
use tcp_svr.Cfg.Cursor.{Outcome, cfg_rewind, cfg_nextentry}
use tcp_svr.Cfg.Cursor.Items.{Item, sect, def, cont, items, Shows, nextentry-Next}
use tcp_svr.Cfg.Listing.{section_round, section_loop}

-- The names of the sections among items.
unfoldable pub titles : List Item → List Bytes
titles [] = []
titles (sect s ∷ its) = s ∷ titles its
titles (def i v ∷ its) = titles its
titles (cont v ∷ its) = titles its

-- A configuration that is read on from these entries.
pub record Reads (c : Config) (es : List Entry) : Type 0 where
  pub ok : c.valid ≡ true
  pub going : c.eof ≡ false
  pub place : drop c.cursor c.entries ≡ es

-- The next of some names; less than `n` entries are left behind it.
unfoldable pub NextTitle : List Bytes → ℕ → Option Outcome → Type 0
NextTitle names n out =
    ((c' : Config) × (names ≡ []) × (out ≡ some (neg 1, c')))
    ⊎ ((c' : Config) × (s : Bytes) × (rest : List Entry) × (out ≡ some (pos 0, c'))
        × (names ≡ s ∷ titles (items rest))
        × (c'.cur_section ≡ some s)
        × (length rest < n)
        × Reads c' rest)

further :
    (names : List Bytes) (n m : ℕ) (out : Option Outcome)
    → n ≤ m
    → NextTitle names n out
    → NextTitle names m out
unfolding NextTitle
further names n m out h (inl x) = inl x
further names n m out h (inr (c', s, rest, done, whole, shown, less, r)) =
    inr (c', s, rest, done, whole, shown, omega (arith, less, h), r)

round-NextTitle :
    (n : ℕ) (rest : List Entry) (it : Item) (c' : Config) (loop : Config → Option Outcome)
    → length rest < n
    → Shows it c'
    → Reads c' rest
    → NextTitle (titles (items rest)) (length rest) (loop c')
    → NextTitle (titles (it ∷ items rest)) n (section_round (pos 0, c') loop)
unfolding section_round NextTitle titles
round-NextTitle n rest (sect s) c' loop less (k, shown) r later =
    inr (c', s, rest, simp k refl, refl, shown, less, r)
round-NextTitle n rest (def i v) c' loop less (k, shown, value) r later =
    rw k (further _ (length rest) n _ (omega (arith, less)) later)
round-NextTitle n rest (cont v) c' loop less (k, shown) r later =
    rw k (further _ (length rest) n _ (omega (arith, less)) later)

pub section_loop-NextTitle :
    (fuel : ℕ) (es : List Entry) (c : Config)
    → length es < fuel
    → Reads c es
    → NextTitle (titles (items es)) (length es) (section_loop fuel c)
unfolding section_loop section_round NextTitle titles
section_loop-NextTitle zero es c f r = absurd (omega arith)
section_loop-NextTitle (suc fuel) es c f r = elim (nextentry-Next c es r.ok r.going r.place) [
  | inl (c', nothing, done, same) ↦
      inl (c', ap titles nothing, ap (λ o. section_round o (section_loop fuel)) done)
  | inr (c', it, rest, reads, a) ↦
      let r' : Reads c' rest = record {
        ok = a.still_valid ∙ r.ok;
        going = a.not_eof ∙ r.going;
        place = a.place;
      } in
      subst
        (λ its.
          NextTitle (titles its) (length es) (section_round (cfg_nextentry c) (section_loop fuel)))
        (sym a.first)
        (subst
          (λ o.
            NextTitle (titles (it ∷ items rest)) (length es) (section_round o (section_loop fuel)))
          (sym reads)
          (round-NextTitle (length es) rest it c' (section_loop fuel) a.shorter a.shown r'
            (section_loop-NextTitle fuel rest c' (omega (arith, a.shorter)) r')))
]

pub cfg_rewind-valid :
    (c : Config)
    → c.valid ≡ true
    → cfg_rewind c ≡ (pos 0, record c { eof = false; kind = error; cursor = 0 })
unfolding cfg_rewind
cfg_rewind-valid c ok =
    let start : Outcome = (pos 0, record c { eof = false; kind = error; cursor = 0 }) in
    let refused : Outcome = (neg 1, c) in
    subst (λ (b : Bool). (if b then start else refused) ≡ start) (sym ok) refl
