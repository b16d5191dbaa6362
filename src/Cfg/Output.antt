-- ===== src/Cfg/Output.antt =====
-- `_cfg_output` and `_cfg_outputformatted`: the text that they print.
pub mod Printable
pub mod Printed
pub mod RoundTrip
pub mod Lost
pub mod Padded
pub mod Formatted
use tcp_svr.Base.{
  ℕ, zero, suc, ◌-◌, Bytes, codes, List, [], ◌∷◌, ◌++◌, Option, none, some, length, take, replicate,
  get_or, Bool, true, false, ◌==◌, ◌||◌, ◌&&◌, not, ltb, if◌then◌else◌,
}
use tcp_svr.Cfg.Entry.{Entry, is_white, is_some}
use tcp_svr.Cfg.Text.{is_mark}

abbrev newline : Bytes
newline = b'\n' ∷ []

-- `if (e->comment) fprintf (fd, "\t;%s", e->comment)`
abbrev pub comment_text : Option Bytes → Bytes
comment_text none = []
comment_text (some t) = b'\t' ∷ b';' ∷ t

-- What a line shows of an entry, in the order of the branches.
pub data Shown : Type 0 where
  header : Bytes → Shown
  pair : Bytes → Bytes → Shown
  bare : Bytes → Shown
  remark : Bytes → Shown
  blank : Shown

unfoldable pub shown : Option Bytes → Option Bytes → Option Bytes → Option Bytes → Shown
shown (some s) id value comment = header s
shown none (some i) (some v) comment = pair i v
shown none none (some v) comment = bare v
shown none id none (some t) = remark t
shown none id none none = blank

-- Whether the entries behind a comment reach a section before a key or a value.
unfoldable pub section_ahead : List Entry → Bool
section_ahead [] = false
section_ahead (e ∷ es) =
    if is_some e.section
    then true
    else if is_some e.id || is_some e.value
    then false
    else section_ahead es

-- The blank line in front of a comment.
unfoldable pub needs_gap : Bool → Bytes → List Entry → Bool
needs_gap skip text es =
    skip && (is_white (get_or text 0 0) || is_mark (get_or text 0 0)) && section_ahead es

-- One entry and the value of `skip` after it. `key` prints a key and its value, `indent` stands before a
-- value with no key.
unfoldable pub print_entry :
    (Bytes → Bytes → Bytes) → Bytes → Bool → Entry → List Entry → Bytes × Bool
print_entry key indent skip e es = elim (shown e.section e.id e.value e.comment) [
  | header s ↦
      ((if skip then newline else []) ++ b'[' ∷ s ++ b']' ∷ comment_text e.comment ++ newline, true)
  | pair i v ↦ (key i v ++ comment_text e.comment ++ newline, skip)
  | bare v ↦ (indent ++ v ++ comment_text e.comment ++ newline, skip)
  | remark t ↦
      if needs_gap skip t es
      then (newline ++ b';' ∷ t ++ newline, false)
      else (b';' ∷ t ++ newline, skip)
  | blank ↦ (newline, skip)
]

-- `"%s=%s"`
abbrev pub plain_pair : Bytes → Bytes → Bytes
plain_pair i v = i ++ b'=' ∷ v

unfoldable pub output_from : Bool → List Entry → Bytes
output_from skip [] = []
output_from skip (e ∷ es) =
    let (text, skip') = print_entry plain_pair [] skip e es in text ++ output_from skip' es

unfoldable pub cfg_output : List Entry → Bytes
cfg_output es = output_from false es

-- The length of the longest key up to the next section.
unfoldable pub longest : List Entry → ℕ
longest [] = 0
longest (e ∷ es) =
    let later = longest es in
    let l : ℕ = elim e.id [ none ↦ 0 | some i ↦ length i ] in
    if is_some e.section then 0 else if ltb later l then l else later

-- `"%-*.*s = %s"` with the width `m`, or with none where it is 0
unfoldable pub padded_pair : ℕ → Bytes → Bytes → Bytes
padded_pair zero i v = i ++ codes " = " ++ v
padded_pair (suc m) i v = take (suc m) i ++ replicate (suc m - length i) 32 ++ codes " = " ++ v

-- `m` is set at each section.
unfoldable pub outputformatted_from : ℕ → Bool → List Entry → Bytes
outputformatted_from m skip [] = []
outputformatted_from m skip (e ∷ es) =
    let m' = if is_some e.section then longest es else m in
    let (text, skip') = print_entry (padded_pair m') (codes "  ") skip e es in
    text ++ outputformatted_from m' skip' es

unfoldable pub cfg_outputformatted : List Entry → Bytes
cfg_outputformatted es = outputformatted_from 0 false es
