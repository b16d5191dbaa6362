-- ===== src/Cfg/Cursor/Items/Find.antt =====
-- `cfg_find` against a lookup in the list of items.
use tcp_svr.Base.{
  ℕ, zero, suc, ◌<◌, Bytes, List, [], ◌∷◌, Option, none, some, length, drop, pos, neg, Bool, true,
  false, str_eq, if◌then◌else◌, ◌≡◌, refl, sym, subst, not, ◌∙◌, inl, inr, arith, Bool-cases,
  Option-cases,
}
use tcp_svr.Cfg.Entry.{Entry, error, Config}
use tcp_svr.Cfg.Cursor.{
  remove_quotes, Outcome, cfg_rewind, Step, found, missed, fault, go, same_key, decide_key,
  enter_section, find_step, follow, find_round, find_loop, cfg_find,
}
use tcp_svr.Cfg.Cursor.Items.{Item, sect, def, cont, items, Shows, nextentry-Next}

-- An independent reading of a file: the value of key `k` in section `s`.
unfoldable pub is_key : Bytes → Bytes → Bool
is_key i k = elim (remove_quotes i) [ none ↦ false | some j ↦ str_eq j k ]

-- Among the items of a section, up to the next one.
unfoldable pub lookup_in : Bytes → List Item → Option Bytes
lookup_in k [] = none
lookup_in k (sect s ∷ its) = none
lookup_in k (def i v ∷ its) = if is_key i k then some v else lookup_in k its
lookup_in k (cont v ∷ its) = lookup_in k its

unfoldable pub lookup : Bytes → Bytes → List Item → Option Bytes
lookup s k [] = none
lookup s k (sect t ∷ its) = if str_eq t s then lookup_in k its else lookup s k its
lookup s k (def i v ∷ its) = lookup s k its
lookup s k (cont v ∷ its) = lookup s k its

-- What `cfg_find` says of a value that is looked up.
abbrev pub Answers : Option Bytes → Config → Option Outcome → Type 0
Answers none c out = (c' : Config) × (out ≡ some (neg 1, c')) × (c'.entries ≡ c.entries)
Answers (some v) c out =
    (c' : Config) × (out ≡ some (pos 0, c')) × (c'.cur_value ≡ some v) × (c'.entries ≡ c.entries)

-- The search that the loop makes, outside or inside the section.
unfoldable pub search_at : Bool → Bytes → Bytes → List Item → Option Bytes
search_at false s k its = lookup s k its
search_at true s k its = lookup_in k its

pub Answers-same :
    (o : Option Bytes) (c d : Config) (out : Option Outcome)
    → c.entries ≡ d.entries
    → Answers o c out
    → Answers o d out
Answers-same none c d out e (c', p, q) = (c', p, q ∙ e)
Answers-same (some v) c d out e (c', p, r, q) = (c', p, r, q ∙ e)

-- One round at an item: it decides as the search does.
abbrev StepAnswers : Step → Bool → Bytes → Bytes → Item → List Item → Option Bytes → Type 0
StepAnswers found at s k it its cv =
    (v : Bytes) × (search_at at s k (it ∷ its) ≡ some v) × (cv ≡ some v)
StepAnswers missed at s k it its cv = search_at at s k (it ∷ its) ≡ none
StepAnswers fault at s k it its cv = ⊥
StepAnswers (go at') at s k it its cv = search_at at s k (it ∷ its) ≡ search_at at' s k its

section-Answers :
    (s k t : Bytes) (its : List Item) (cv : Option Bytes)
    → StepAnswers (enter_section (some s) (some k) (some (str_eq t s))) false s k (sect t) its cv
unfolding enter_section search_at lookup
section-Answers s k t its cv = elim (Bool-cases (str_eq t s)) [
  | inl same ↦ rw same (rw same)
  | inr other ↦ rw other (rw other)
]

same_key-is_key : (i k : Bytes) → same_key (some i) (some k) ≡ some (is_key i k)
unfolding same_key is_key
same_key-is_key i k = elim (Option-cases (remove_quotes i)) [
  | inl bare ↦ rw (bare, same_key, is_key)
  | inr (j, named) ↦ rw (named, same_key, is_key)
]

key-Answers :
    (s k i v : Bytes) (its : List Item) (cv : Option Bytes)
    → cv ≡ some v
    → StepAnswers (decide_key (some (is_key i k))) true s k (def i v) its cv
unfolding search_at lookup_in
key-Answers s k i v its cv e = elim (Bool-cases (is_key i k)) [
  | inl same ↦ rw same (v, rw same, e)
  | inr other ↦ rw other (rw other)
]

find_step-Answers :
    (at : Bool) (s k : Bytes) (it : Item) (its : List Item) (c : Config)
    → Shows it c
    → StepAnswers
        (find_step (some s) (some k) at c.kind c.cur_section c.cur_id)
        at
        s
        k
        it
        its
        c.cur_value
unfolding find_step search_at lookup lookup_in
find_step-Answers false s k (sect t) its c (e, f) =
    simp (e, f) (section-Answers s k t its c.cur_value)
find_step-Answers false s k (def i v) its c (e, f, g) = simp e refl
find_step-Answers false s k (cont v) its c (e, f) = simp e refl
find_step-Answers true s k (sect t) its c (e, f) = simp e refl
find_step-Answers true s k (def i v) its c (e, f, g) =
    simp (e, f, same_key-is_key) (key-Answers s k i v its c.cur_value g)
find_step-Answers true s k (cont v) its c (e, f) = simp e refl

follow-Answers :
    (st : Step) (at : Bool) (s k : Bytes) (it : Item) (its : List Item) (c d : Config)
    (loop : Bool → Config → Option Outcome)
    → StepAnswers st at s k it its c.cur_value
    → c.entries ≡ d.entries
    → ((b : Bool) → Answers (search_at b s k its) d (loop b c))
    → Answers (search_at at s k (it ∷ its)) d (follow st c loop)
unfolding follow
follow-Answers found at s k it its c d loop (v, e, shown) same later = rw e (c, refl, shown, same)
follow-Answers missed at s k it its c d loop e same later = rw e (c, refl, same)
follow-Answers fault at s k it its c d loop e same later = absurd e
follow-Answers (go b) at s k it its c d loop e same later = rw e (later b)

pub find_loop-Answers :
    (fuel : ℕ) (at : Bool) (s k : Bytes) (c : Config) (es : List Entry)
    → length es < fuel
    → c.valid ≡ true
    → c.eof ≡ false
    → drop c.cursor c.entries ≡ es
    → Answers (search_at at s k (items es)) c (find_loop fuel (some s) (some k) at c)
unfolding find_loop find_round search_at lookup lookup_in
find_loop-Answers zero at s k c es f ok open_ h = absurd (omega arith)
find_loop-Answers (suc fuel) at s k c es f ok open_ h = elim (nextentry-Next c es ok open_ h) [
  | inl (c', nothing, done, same) ↦ rw (nothing, done, find_round) (no_more at s k c c' same)
  | inr (c', it, rest, reads, a) ↦
      rw (a.first, reads, find_round)
        (follow-Answers _ at s k it (items rest) c' c _
          (find_step-Answers at s k it (items rest) c' a.shown) a.same_entries
          (λ b. Answers-same _ c' c _ a.same_entries (
            find_loop-Answers fuel b s k c' rest (omega (arith, a.shorter)) (a.still_valid ∙ ok)
              (a.not_eof ∙ open_) a.place)))
]
  where
    no_more :
        (at : Bool) (s k : Bytes) (c c' : Config)
        → c'.entries ≡ c.entries
        → Answers (search_at at s k []) c (some (neg 1, c'))
    no_more true s k c c' same = (c', refl, same)
    no_more false s k c c' same = (c', refl, same)

-- `cfg_find` of a key in a section is the lookup of the file's items: it succeeds exactly where there
-- is a value, and then shows the configuration at that value; it faults nowhere, and the entries
-- stay as they were.
pub cfg_find-lookup :
    (c : Config) (s k : Bytes)
    → c.valid ≡ true
    → Answers (lookup s k (items c.entries)) c (cfg_find c (some s) (some k))
unfolding cfg_find cfg_rewind search_at
cfg_find-lookup c s k ok =
    let d = record c { eof = false; kind = error; cursor = 0 } in
    let fuel = suc (length c.entries) in
    subst
      (λ (b : Bool).
        let start : Outcome = if b then (pos 0, d) else (neg 1, c) in
        Answers (lookup s k (items c.entries)) c
          (if not b then some (neg 1, c) else find_loop fuel (some s) (some k) false start.1))
      (sym ok)
      (Answers-same _ d c _ refl
        (find_loop-Answers fuel false s k d c.entries (omega arith) ok refl refl))
