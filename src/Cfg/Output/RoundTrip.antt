-- ===== src/Cfg/Output/RoundTrip.antt =====
-- What the parser makes of the text that `_cfg_output` prints.
use tcp_svr.Base.{
  ℕ, zero, suc, ◌≤◌, Bytes, List, [], ◌∷◌, ◌++◌, Option, none, some, length, length-append, pos,
  Bool, true, false, ◌≡◌, refl, sym, ap, ◌∙◌, subst, arith, Bool-cases, inl, inr, append-nil,
  append_assoc, map,
}
use tcp_svr.Cfg.Entry.{Entry, Config, is_white, stored}
use tcp_svr.Cfg.Parse.{fields, store_line, cfg_getline, parse_loop, cfg_parse}
use tcp_svr.Cfg.Parse.Lines.{cfg_getline-line, cfg_getline-newline, parse_loop-line, cfg_parse-loop}
use tcp_svr.Cfg.Output.{plain_pair, shown, needs_gap, print_entry, output_from, cfg_output}
use tcp_svr.Cfg.Output.Printable.{printable_fields, is_printable, all_printable, trim_end-ends}
use tcp_svr.Cfg.Output.Printed.{IsLine, header-IsLine, remark-IsLine, pair-IsLine}

-- The entry as a parser that keeps its strings in the image stores it.
abbrev pub as_parsed : Entry → Entry
as_parsed e = fields e.section e.id e.value e.comment

-- A line, perhaps with an empty one in front.
pub data Prints (e : Entry) : Bytes → Type 0 where
  tight : {b : ℕ} {l : Bytes} → IsLine e b l → Prints e (b ∷ l ++ b'\n' ∷ [])
  gapped : {b : ℕ} {l : Bytes} → IsLine e b l → Prints e (b'\n' ∷ (b ∷ l ++ b'\n' ∷ []))

getline-Prints :
    (e : Entry) (b : ℕ) (l rest : Bytes)
    → IsLine e b l
    → cfg_getline ((b ∷ l ++ b'\n' ∷ []) ++ rest) ≡ (b ∷ l, rest)
getline-Prints e b l rest w =
    ap cfg_getline (append_assoc (b ∷ l) (b'\n' ∷ []) rest)
    ∙ cfg_getline-line b l rest w.one_line (trim_end-ends is_white (b ∷ l) w.no_blank)

pub parse_loop-Prints :
    (fuel : ℕ) (e : Entry) (text rest : Bytes) (c : Config)
    → Prints e text
    → parse_loop (suc fuel) (text ++ rest) c ≡ parse_loop fuel rest (stored c e)
unfolding store_line
parse_loop-Prints fuel e _ rest c (tight {b} {l} w) =
    parse_loop-line fuel b _ (b ∷ l) rest c (getline-Prints e b l rest w)
    ∙ ap (λ x. parse_loop fuel rest (store_line c x)) w.read
parse_loop-Prints fuel e _ rest c (gapped {b} {l} w) =
    parse_loop-line fuel b'\n' _ (b ∷ l) rest c
      (cfg_getline-newline ((b ∷ l ++ b'\n' ∷ []) ++ rest) ∙ getline-Prints e b l rest w)
    ∙ ap (λ x. parse_loop fuel rest (store_line c x)) w.read

pub Prints-nonempty : (e : Entry) (text : Bytes) → Prints e text → 1 ≤ length text
Prints-nonempty e _ (tight w) = omega arith
Prints-nonempty e _ (gapped w) = omega arith

-- Each printable entry is printed as its line.
fields-Prints :
    (skip : Bool) (es : List Entry) (s i v c : Option Bytes)
    → printable_fields s i v c ≡ true
    → Prints (fields s i v c) (print_entry plain_pair [] skip (fields s i v c) es).0
unfolding print_entry shown printable_fields
fields-Prints true es (some s) none none c e =
    gapped (header-IsLine s c (ground arith) (ground arith))
fields-Prints false es (some s) none none c e =
    tight (header-IsLine s c (ground arith) (ground arith))
fields-Prints skip es none (some i) (some v) c e =
    let (b, l, whole, w) = pair-IsLine i v c (ground arith) (ground arith) (ground arith) in
    subst (λ x. Prints (fields none (some i) (some v) c) (x ++ b'\n' ∷ [])) (sym whole) (tight w)
fields-Prints skip es none none none (some t) e = elim (Bool-cases (needs_gap skip t es)) [
  | inl gap ↦ rw gap (gapped (remark-IsLine t e))
  | inr near ↦ rw near (tight (remark-IsLine t e))
]
fields-Prints skip es none none none none e = cc
fields-Prints skip es none none (some v) c e = cc
fields-Prints skip es none (some i) none c e = cc
fields-Prints skip es (some s) (some i) v c e = cc
fields-Prints skip es (some s) none (some v) c e = cc

print_entry-Prints :
    (skip : Bool) (e : Entry) (es : List Entry)
    → is_printable e ≡ true
    → Prints (as_parsed e) (print_entry plain_pair [] skip e es).0
unfolding is_printable print_entry
print_entry-Prints skip e es p = fields-Prints skip es e.section e.id e.value e.comment p

-- The configuration after storing entries one by one.
unfoldable pub stored_all : Config → List Entry → Config
stored_all c [] = c
stored_all c (e ∷ es) = stored_all (stored c e) es

-- No more entries than bytes.
length-output_from :
    (skip : Bool) (es : List Entry)
    → all_printable es ≡ true
    → length es ≤ length (output_from skip es)
unfolding output_from all_printable
length-output_from skip [] p = omega arith
length-output_from skip (e ∷ es) p =
    let here : is_printable e ≡ true = ground arith in
    let later : all_printable es ≡ true = ground arith in
    let printed = print_entry plain_pair [] skip e es in
    let one = Prints-nonempty (as_parsed e) printed.0 (print_entry-Prints skip e es here) in
    omega (
      arith,
      one,
      length-output_from printed.1 es later,
      length-append printed.0 (output_from printed.1 es),
    )

parse_loop-output_from :
    (fuel : ℕ) (skip : Bool) (es : List Entry) (c : Config)
    → length es ≤ fuel
    → all_printable es ≡ true
    → parse_loop fuel (output_from skip es) c ≡ some (stored_all c (map as_parsed es))
unfolding output_from all_printable parse_loop stored_all
parse_loop-output_from fuel skip [] c f p = refl
parse_loop-output_from zero skip (e ∷ es) c f p = absurd (omega arith)
parse_loop-output_from (suc fuel) skip (e ∷ es) c f p =
    let here : is_printable e ≡ true = ground arith in
    let later : all_printable es ≡ true = ground arith in
    let printed = print_entry plain_pair [] skip e es in
    parse_loop-Prints fuel (as_parsed e) printed.0 _ c (print_entry-Prints skip e es here)
    ∙ parse_loop-output_from fuel printed.1 es (stored c (as_parsed e)) (omega arith) later

pub stored_all-entries :
    (c : Config) (es : List Entry) → (stored_all c es).entries ≡ c.entries ++ es
unfolding stored_all stored
stored_all-entries c [] = sym (append-nil c.entries)
stored_all-entries c (e ∷ es) =
    stored_all-entries (stored c e) es ∙ append_assoc c.entries (e ∷ []) es

pub cfg_parse-stored_all :
    (es : List Entry) (c : Config)
    → c.valid ≡ false
    → all_printable es ≡ true
    → cfg_parse (cfg_output es) c
      ≡ some (pos 0, record (stored_all c (map as_parsed es)) { valid = true })
unfolding cfg_output
cfg_parse-stored_all es c fresh p =
    cfg_parse-loop (output_from false es) c _ fresh
      (parse_loop-output_from _ false es c (length-output_from false es p) p)

-- What `_cfg_output` prints of printable entries `_cfg_parse` reads back into a configuration that is not valid yet, entry for entry
-- behind what it had, and then returns 0. Printable are sections with a name, keys with a value, both with or without a comment
-- behind them, and comments, if no text holds an end of line or a NUL; no name, key or value begins with a blank or ends in
-- white space, and no comment ends in a blank; no name holds a ']'; no key holds a '=' or begins with '[' or ';'; and no value
-- holds an open quote or the start of a comment.
pub cfg_parse-cfg_output :
    (es : List Entry) (c : Config)
    → c.valid ≡ false
    → all_printable es ≡ true
    → (c' : Config) × (cfg_parse (cfg_output es) c ≡ some (pos 0, c'))
      × (c'.valid ≡ true)
      × (c'.entries ≡ c.entries ++ map as_parsed es)
cfg_parse-cfg_output es c fresh p = (
  record (stored_all c (map as_parsed es)) { valid = true },
  cfg_parse-stored_all es c fresh p,
  refl,
  stored_all-entries c (map as_parsed es),
)
