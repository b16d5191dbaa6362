-- ===== src/Cfg/Parse.antt =====
-- `_cfg_getline` and `_cfg_parse`. The image of a file is the list of its bytes, with a terminator
-- behind it; strings are cut out of it in place, which the model shows as strings of their own.
pub mod Lines
use tcp_svr.Base.{
  ℕ, zero, suc, Bytes, List, [], ◌∷◌, ◌++◌, Option, none, some, length, ℤ, pos, Bool, true, false,
  ◌==◌, ◌||◌, ◌&&◌, not, if◌then◌else◌,
}
use tcp_svr.Cfg.Entry.{Entry, Config, is_white, stored}
use tcp_svr.Cfg.Text.{is_eol, is_space, is_mark, cfg_skipwhite, trim_end, rtrim, cut_at}

-- while (*cp && iseolchar (*cp)) cp++;
unfoldable pub skip_eols : Bytes → Bytes
skip_eols [] = []
skip_eols (b ∷ bs) = if is_eol b then skip_eols bs else b ∷ bs

-- The bytes up to the end of the line, or to a NUL, and what starts there.
unfoldable pub cut_line : Bytes → Bytes × Bytes
cut_line [] = ([], [])
cut_line (b ∷ bs) =
    let (line, rest) = cut_line bs in if b == 0 || is_eol b then ([], b ∷ bs) else (b ∷ line, rest)

-- What follows the line: a line that an end-of-line character ends loses the blanks at its end, and
-- the next one starts behind that character.
unfoldable pub end_line : Bytes × Bytes → Bytes × Bytes
end_line (line, []) = (line, [])
end_line (line, b ∷ bs) = if b == 0 then (line, b ∷ bs) else (trim_end is_white line, bs)

-- The line and the new place in the image; the result of the call is whether the line has bytes.
pub cfg_getline : Bytes → Bytes × Bytes
cfg_getline img = end_line (cut_line (skip_eols img))

-- `inString` after a byte: the quote that the value is inside of, or 0.
unfoldable pub next_quote : ℕ → ℕ → ℕ
next_quote quote b =
    if not (quote == 0)
    then (if b == quote then 0 else quote)
    else if b == b'"' || b == b'\''
    then b
    else 0

-- Whether a byte starts a comment; `before` is the byte before it. A quote is no such byte.
unfoldable pub starts_comment : ℕ → ℕ → ℕ → Bool
starts_comment quote before b = quote == 0 && is_mark b && is_white before

-- The loop over a value. Its results are the bytes before a comment and the comment.
unfoldable pub scan : ℕ → ℕ → Bytes → Bytes × Option Bytes
scan quote before [] = ([], none)
scan quote before (b ∷ bs) =
    let (raw, comment) = scan (next_quote quote b) b bs in
    if starts_comment quote before b then ([], some bs) else (b ∷ raw, comment)

-- The value and the comment from `lp` on. The byte before `lp` is a blank or the NUL written over '='.
unfoldable pub parse_value : Bytes → Bytes × Option Bytes
parse_value lp =
    let (raw, comment) = scan 0 0 lp in
    elim comment [ none ↦ (raw, none) | some t ↦ (rtrim raw, some t) ]

-- A comment that starts at `lp`.
unfoldable pub parse_comment : Bytes → Option Bytes
parse_comment [] = none
parse_comment (b ∷ bs) = if is_mark b then some bs else none

-- The call `cfg_storeentry (pconfig, section, id, value, comment, 0)`: the strings stay the image's.
abbrev pub fields : Option Bytes → Option Bytes → Option Bytes → Option Bytes → Entry
fields section id value comment = record {
  section = section;
  id = id;
  value = value;
  comment = comment;
  free_section = false;
  free_id = false;
  free_value = false;
  free_comment = false;
}

-- The name of a section, trimmed, and what stands behind the ']'.
unfoldable pub section_named : Bytes → Bytes → Option Entry
section_named [] behind = none
section_named (b ∷ bs) behind =
    some (fields (some (b ∷ bs)) none none (parse_comment (cfg_skipwhite behind)))

unfoldable pub section_at : Option (Bytes × Bytes) → Option Entry
section_at none = none
section_at (some (name, behind)) = section_named (rtrim name) behind

-- A line that starts with '[', from the byte behind it.
unfoldable pub parse_section : Bytes → Option Entry
parse_section lp = section_at (cut_at b']' (cfg_skipwhite lp))

-- The key and what stands behind the '='.
unfoldable pub key_at : Option (Bytes × Bytes) → Option Entry
key_at none = none
key_at (some (id, behind)) =
    let (value, comment) = parse_value (cfg_skipwhite behind) in
    some (fields none (some (rtrim id)) (some value) comment)

-- `<Key> = <value>`
unfoldable pub parse_key : Bytes → Option Entry
parse_key lp = key_at (cut_at b'=' lp)

unfoldable pub parse_continuation : Bytes → Option Entry
parse_continuation lp =
    let (value, comment) = parse_value lp in some (fields none none (some value) comment)

-- A line after its leading blanks; `continues` says whether there were any.
unfoldable pub parse_from : Bool → Bytes → Option Entry
parse_from continues [] = if continues then parse_continuation [] else parse_key []
parse_from continues (b ∷ bs) =
    if b == b'['
    then parse_section bs
    else if b == b';'
    then some (fields none none none (some bs))
    else if continues
    then parse_continuation (b ∷ bs)
    else parse_key (b ∷ bs)

-- The entry of a line that is not empty, or `none` where the line is dropped.
unfoldable pub parse_line : Bytes → Option Entry
parse_line [] = none
parse_line (b ∷ bs) = parse_from (is_white b) (cfg_skipwhite (b ∷ bs))

unfoldable pub store_line : Config → Option Entry → Config
store_line c none = c
store_line c (some e) = stored c e

-- The loop, on fuel; `none` where the fuel runs out.
unfoldable pub parse_loop : ℕ → Bytes → Config → Option Config
parse_loop fuel [] c = some c
parse_loop zero (b ∷ bs) c = none
parse_loop (suc fuel) (b ∷ bs) c =
    let (line, rest) = cfg_getline (b ∷ bs) in parse_loop fuel rest (store_line c (parse_line line))

unfoldable pub parsed : Option Config → Option (ℤ × Config)
parsed none = none
parsed (some c) = some (pos 0, record c { valid = true })

-- Each line that is not at a NUL takes a byte, so the size of the image is enough.
unfoldable pub cfg_parse : Bytes → Config → Option (ℤ × Config)
cfg_parse image c = if c.valid then some (pos 0, c) else parsed (parse_loop (length image) image c)
