-- ===== src/Cfg/Cursor/Items.antt =====
-- `cfg_nextentry` against the list of items that the entries stand for.
pub mod Find
pub mod Anywhere
use tcp_svr.Base.{
  ℕ, zero, suc, ◌+◌, ◌≤◌, ◌<◌, Bytes, List, [], ◌∷◌, Option, none, some, length, drop, ℤ, pos,
  negsuc, neg, Bool, true, false, str_eq, if◌then◌else◌, ◌≡◌, refl, sym, ap, subst, not, ◌||◌, ◌∙◌,
  ◌⊎◌, inl, inr, arith, Bool-cases, Option-cases,
}
use native.Mathlib.Numerals.{add-one}
use tcp_svr.Cfg.Entry.{Entry, Kind, error, section, define, continue, Config}
use tcp_svr.Cfg.Cursor.{
  remove_quotes, Outcome, cfg_rewind, stop_at, next_from, cfg_nextentry, Step, found, missed, fault,
  go, same_key, decide_key, at_end, enter_section, find_step, follow, find_round, find_loop,
  cfg_find,
}

-- What `cfg_nextentry` can stop at: a section, a definition, a value with no key.
pub data Item : Type 0 where
  sect : Bytes → Item
  def : Bytes → Bytes → Item
  cont : Bytes → Item

unfoldable pub item_of : Option Bytes → Option Bytes → Option Bytes → Option Item
item_of (some s) i v = some (sect s)
item_of none (some i) (some v) = some (def i v)
item_of none none (some v) = some (cont v)
item_of none i none = none

unfoldable pub items : List Entry → List Item
unfolding item_of
items [] = []
items (e ∷ es) = elim (item_of e.section e.id e.value) [ none ↦ items es | some it ↦ it ∷ items es ]

-- The configuration after the entry of item `it`.
abbrev pub Shows : Item → Config → Type 0
Shows (sect s) c = (c.kind ≡ section) × (c.cur_section ≡ some s)
Shows (def i v) c = (c.kind ≡ define) × (c.cur_id ≡ some i) × (c.cur_value ≡ some v)
Shows (cont v) c = (c.kind ≡ continue) × (c.cur_value ≡ some v)

-- The section that is shown is kept by all other items.
abbrev pub KeepsSection : Item → Option Bytes → Config → Type 0
KeepsSection (sect s) old c = Unit {0}
KeepsSection (def i v) old c = c.cur_section ≡ old
KeepsSection (cont v) old c = c.cur_section ≡ old

pub record After (es : List Entry) (c c' : Config) (it : Item) (rest : List Entry) : Type 0 where
  pub first : items es ≡ it ∷ items rest
  pub shorter : length rest < length es
  pub place : drop c'.cursor c'.entries ≡ rest
  pub shown : Shows it c'
  pub keeps : KeepsSection it c.cur_section c'
  pub still_valid : c'.valid ≡ c.valid
  pub not_eof : c'.eof ≡ c.eof
  pub same_entries : c'.entries ≡ c.entries

-- The next entry is the next item; at the end there is none.
abbrev pub Next : List Entry → Config → Outcome → Type 0
Next es c out =
    ((c' : Config) × (items es ≡ []) × (out ≡ (neg 1, c')) × (c'.entries ≡ c.entries))
    ⊎ ((c' : Config) × (it : Item) × (rest : List Entry) × (out ≡ (pos 0, c'))
        × After es c c' it rest)

drop-suc :
    (k : ℕ) (l : List Entry) (e : Entry) (es : List Entry) → drop k l ≡ e ∷ es → drop (suc k) l ≡ es
drop-suc k [] e es h = absurd (drop-nil k h)
  where
    drop-nil : (k : ℕ) → drop k [] ≡ e ∷ es → ⊥
    drop-nil zero p = cc
    drop-nil (suc k) p = cc
drop-suc zero (x ∷ l) e es h = cc
drop-suc (suc k) (x ∷ l) e es h = drop-suc k l e es h

-- An entry is stopped at exactly where it stands for an item, and shown as that item.
data Stops (c : Config) : Option Item → Option Config → Type 0 where
  passed : Stops c none none
  stopped :
      {it : Item} {c' : Config}
      → Shows it c'
      → KeepsSection it c.cur_section c'
      → c'.cursor ≡ c.cursor
      → c'.valid ≡ c.valid
      → c'.eof ≡ c.eof
      → c'.entries ≡ c.entries
      → Stops c (some it) (some c')

stop_at-Stops : (s i v : Option Bytes) (c : Config) → Stops c (item_of s i v) (stop_at s i v c)
unfolding stop_at item_of
stop_at-Stops (some s) i v c = stopped (refl, refl) tt refl refl refl refl
stop_at-Stops none i none c = passed
stop_at-Stops none (some i) (some v) c = stopped (refl, refl, refl) refl refl refl refl refl
stop_at-Stops none none (some v) c = stopped (refl, refl) refl refl refl refl refl

-- The items after an entry, and what the loop makes of it.
step-Next :
    (e : Entry) (es : List Entry) (c : Config) (it : Option Item) (o : Option Config)
    (later : Outcome)
    → Stops (record c { cursor = c.cursor + 1 }) it o
    → item_of e.section e.id e.value ≡ it
    → drop c.cursor c.entries ≡ e ∷ es
    → Next es (record c { cursor = c.cursor + 1 }) later
    → Next (e ∷ es) c (elim o [ some c' ↦ (pos 0, c') | none ↦ later ])
unfolding items
step-Next e es c none none later passed p h (inl (c', none_left, done, same)) =
    inl (c', rw (p, items) none_left, done, same)
step-Next e es c none none later passed p h (inr (c', it, rest, reads, a)) = inr (
  c',
  it,
  rest,
  reads,
  record {
    first = rw (p, items) a.first;
    shorter = omega (arith, a.shorter);
    place = a.place;
    shown = a.shown;
    keeps = a.keeps;
    still_valid = a.still_valid;
    not_eof = a.not_eof;
    same_entries = a.same_entries;
  },
)
step-Next e es c (some it) (some c') later (stopped shown kept at ok eof same) p h next = inr (
  c',
  it,
  es,
  refl,
  record {
    first = rw (p, items);
    shorter = omega arith;
    place = rw (at, same, add-one) (drop-suc c.cursor c.entries e es h);
    shown = shown;
    keeps = kept;
    still_valid = ok;
    not_eof = eof;
    same_entries = same;
  },
)
step-Next e es c none (some c') later x p h next = elim x [ ]
step-Next e es c (some it) none later x p h next = elim x [ ]

next_from-Next :
    (es : List Entry) (c : Config) → drop c.cursor c.entries ≡ es → Next es c (next_from es c)
unfolding next_from items
next_from-Next [] c h = inl (_, refl, refl, refl)
next_from-Next (e ∷ es) c h =
    step-Next e es c _ _ _
      (stop_at-Stops e.section e.id e.value (record c { cursor = c.cursor + 1 })) refl h
      (next_from-Next es (record c { cursor = c.cursor + 1 })
        (rw add-one (drop-suc c.cursor c.entries e es h)))

pub nextentry-Next :
    (c : Config) (es : List Entry)
    → c.valid ≡ true
    → c.eof ≡ false
    → drop c.cursor c.entries ≡ es
    → Next es (record c { kind = error; cur_id = none; cur_value = none }) (cfg_nextentry c)
unfolding cfg_nextentry
nextentry-Next c es ok open_ h =
    let d = record c { kind = error; cur_id = none; cur_value = none } in
    let reads : (not c.valid || c.eof) ≡ false = ground arith in
    subst
      (λ (b : Bool). Next es d (if b then (neg 1, c) else next_from (drop c.cursor c.entries) d))
      (sym reads)
      (subst (λ (l : List Entry). Next es d (next_from l d)) (sym h) (next_from-Next es d h))
