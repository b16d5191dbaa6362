-- ===== src/Cfg/Cursor.antt =====
-- `remove_quotes`, `cfg_rewind`, `cfg_nextentry` and `cfg_find`.
pub mod Items
use tcp_svr.Base.{
  ℕ, zero, suc, ◌+◌, Bytes, List, [], ◌∷◌, Option, none, some, length, drop, ℤ, pos, negsuc, neg,
  Bool, true, false, ◌==◌, ◌||◌, not, ◌&&◌, str_eq, if◌then◌else◌,
}
use tcp_svr.Cfg.Entry.{Entry, Kind, error, section, define, continue, Config}

abbrev pub is_quote : ℕ → Bool
is_quote c = c == 39 || c == 34

-- while (*szString == '\'' || *szString == '\"') szString += 1;
unfoldable pub skip_quotes : Bytes → Bytes
skip_quotes [] = []
skip_quotes (b ∷ bs) = if is_quote b then skip_quotes bs else b ∷ bs

-- The copy, cut at its first quote of either kind.
unfoldable pub cut_quote : Bytes → Bytes
cut_quote [] = []
cut_quote (b ∷ bs) = if is_quote b then [] else b ∷ cut_quote bs

unfoldable pub remove_quotes : Bytes → Option Bytes
remove_quotes s = elim (skip_quotes s) [ [] ↦ none | b ∷ bs ↦ some (cut_quote (b ∷ bs)) ]

-- The result of a call and the configuration after it.
abbrev pub Outcome : Type 0
Outcome = ℤ × Config

unfoldable pub cfg_rewind : Config → Outcome
cfg_rewind c =
    if c.valid then (pos 0, record c { eof = false; kind = error; cursor = 0 }) else (neg 1, c)

-- Whether `cfg_nextentry` stops at an entry with this section, id and value, and how it shows it.
pub stop_at : Option Bytes → Option Bytes → Option Bytes → Config → Option Config
stop_at (some s) i v c = some (record c { cur_section = some s; kind = section })
stop_at none i none c = none
stop_at none (some i) (some v) c =
    some (record c { cur_value = some v; cur_id = some i; kind = define })
stop_at none none (some v) c = some (record c { cur_value = some v; kind = continue })

-- The loop of `cfg_nextentry` over the entries from the cursor on.
pub next_from : List Entry → Config → Outcome
next_from [] c = (neg 1, record c { eof = true })
next_from (e ∷ es) c =
    let passed = record c { cursor = c.cursor + 1 } in
    elim (stop_at e.section e.id e.value passed) [
      | some c' ↦ (pos 0, c')
      | none ↦ next_from es passed
    ]

pub cfg_nextentry : Config → Outcome
cfg_nextentry c =
    if not c.valid || c.eof
    then (neg 1, c)
    else next_from (drop c.cursor c.entries)
        (record c { kind = error; cur_id = none; cur_value = none })

-- strcmp (a, b) == 0; `none` is a null pointer, which strcmp faults on.
abbrev pub strcmp : Option Bytes → Option Bytes → Option Bool
strcmp (some a) (some b) = some (str_eq a b)
strcmp _ _ = none

-- What one round of the loop of `cfg_find` decides: to return, to go on with `atsection`, or a fault.
pub data Step : Type 0 where
  found missed fault : Step
  go : Bool → Step

-- The key of the entry just read, when it is compared with `id`.
pub same_key : Option Bytes → Option Bytes → Option Bool
same_key none id = none
same_key (some i) id = elim (remove_quotes i) [ none ↦ some false | some k ↦ strcmp (some k) id ]

abbrev pub decide_key : Option Bool → Step
decide_key none = fault
decide_key (some true) = found
decide_key (some false) = go true

-- `if (!section) atsection = 1` at the end of a round
abbrev pub at_end : Option Bytes → Bool → Step
at_end none at = go true
at_end (some s) at = go at

-- strcmp (pconfig->section, section), once the entry is a section
pub enter_section : Option Bytes → Option Bytes → Option Bool → Step
enter_section sect id none = fault
enter_section sect none (some true) = found
enter_section sect (some i) (some true) = go true
enter_section sect id (some false) = at_end sect false

-- One round, by the kind, the section and the key of the entry just read.
pub find_step : Option Bytes → Option Bytes → Bool → Kind → Option Bytes → Option Bytes → Step
find_step sect id true section cs ci = missed
find_step sect id true define cs ci = decide_key (same_key ci id)
find_step sect id true _ cs ci = go true
find_step sect id false section cs ci = enter_section sect id (strcmp cs sect)
find_step sect id false _ cs ci = at_end sect false

-- What a round's decision leads to; `loop` is the rest of the search.
pub follow : Step → Config → (Bool → Config → Option Outcome) → Option Outcome
follow found c loop = some (pos 0, c)
follow missed c loop = some (neg 1, c)
follow fault c loop = none
follow (go at) c loop = loop at c

-- The test and the body of `while (cfg_nextentry (pconfig) == 0)`.
pub find_round :
    Option Bytes → Option Bytes → Bool → Outcome → (Bool → Config → Option Outcome) → Option Outcome
find_round sect id at (negsuc n, c) loop = some (neg 1, c)
find_round sect id at (pos n, c) loop =
    follow (find_step sect id at c.kind c.cur_section c.cur_id) c loop

-- The loop, on fuel; `none` is a fault, or the end of the fuel.
pub find_loop : ℕ → Option Bytes → Option Bytes → Bool → Config → Option Outcome
find_loop zero sect id at c = none
find_loop (suc fuel) sect id at c = find_round sect id at (cfg_nextentry c) (find_loop fuel sect id)

-- Each round but the last passes an entry.
pub cfg_find : Config → Option Bytes → Option Bytes → Option Outcome
cfg_find c sect id =
    if not c.valid
    then some (neg 1, c)
    else find_loop (suc (length c.entries)) sect id false (cfg_rewind c).1
