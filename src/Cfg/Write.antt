-- ===== src/Cfg/Write.antt =====
-- `cfg_write`. A fault is `none`: strcmp(3) or strdup(3) of a null pointer, or an access outside the
-- array of entries or to the array that `_cfg_poolalloc` has freed.
pub mod Readings
pub mod PutKey
pub mod Sections
pub mod ReadBack
pub mod Delete
pub mod Faults
pub mod Kept
use tcp_svr.Base.{
  ℕ, zero, suc, ◌+◌, Bytes, List, [], ◌∷◌, ◌++◌, Option, none, some, length, ℤ, pos, neg, Bool,
  true, false, ◌==◌, ◌||◌, ◌&&◌, str_eq, leb, not, if◌then◌else◌, get_or,
}
use tcp_svr.Cfg.Entry.{Entry, Config, is_white, is_some, cfg_storeentry, ◌>>=◌}
use tcp_svr.Cfg.Cursor.{Outcome, strcmp}

-- `!strcmp (text, wanted)`, where `text` may be null.
abbrev pub names : Option Bytes → Bytes → Bool
names none wanted = false
names (some text) wanted = str_eq text wanted

-- The new value of an entry whose key is found.
unfoldable pub with_value : Entry → Bytes → Entry
with_value e v = record e { value = some v; free_value = true }

-- The loop with no section: the first entry with the key is updated. The loop's counter goes below
-- zero where there is none, and the next loop reads past the array.
pub update_anywhere : Option Bytes → Option Bytes → List Entry → Option (List Entry)
update_anywhere id value [] = none
update_anywhere id value (e ∷ es) =
    let later = update_anywhere id value es in
    if not (is_some e.id) then (later >>= λ es'. some (e ∷ es')) else do
      same ← strcmp e.id id
      (if same
          then (value >>= λ v. some (with_value e v ∷ es))
          else (later >>= λ es'. some (e ∷ es')))

-- The search of a section: the entries before it, its own, and those behind it.
pub find_section : Bytes → List Entry → Option (List Entry × Entry × List Entry)
find_section s [] = none
find_section s (e ∷ es) =
    let later = find_section s es in
    if names e.section s
    then some ([], e, es)
    else (later >>= λ (before, x, behind). some (e ∷ before, x, behind))

-- The array element that an insertion overwrites: its flags are kept.
unfoldable pub inserted : Entry → Bytes → Bytes → Entry
inserted e id v = record e {
  section = none;
  id = some id;
  value = some v;
  comment = none;
  free_id = true;
  free_value = true;
}

-- What "add / update a key" does to the entries behind the section's.
pub data Put : Type 0 where
  updated : List Entry → Put
  insert : List Entry → Put
  append : Put

abbrev pub put_later : Entry → Put → Put
put_later e (updated es) = updated (e ∷ es)
put_later e (insert es) = insert (e ∷ es)
put_later e append = append

pub put_key : Bytes → Bytes → List Entry → Put
put_key id v [] = append
put_key id v (e ∷ es) =
    let later = put_key id v es in
    if is_some e.section
    then insert (inserted e id v ∷ e ∷ es)
    else if names e.id id
    then updated (with_value e v ∷ es)
    else put_later e later

-- An insertion moves the entries up by one place after room for one was made: it writes one entry
-- further than there is, and uses a pointer to the array from before.
pub put_entries : Config → Bytes → Bytes → List Entry → Put → Option Outcome
put_entries c id v front (updated es) =
    some (pos 0, record c { dirty = true; entries = front ++ es })
put_entries c id v front (insert es) =
    if leb (length c.entries + 2) c.max_entries
    then some (pos 0, record c { dirty = true; entries = front ++ es })
    else none
put_entries c id v front append =
    some (pos 0, record (cfg_storeentry c none (some id) (some v)) { dirty = true })

-- A comment that belongs to what follows it: nothing but a comment, whose text begins with a blank or
-- with ';' or '#'.
unfoldable pub is_comment : Entry → Bool
is_comment e = elim e.comment [
  | none ↦ false
  | some text ↦
      not (is_some e.section || is_some e.id || is_some e.value)
      && (is_white (get_or text 0 0) || get_or text 0 0 == 59 || get_or text 0 0 == 35)
]

-- The walk upwards over comments: the entries that stay and the comments passed. It reads in front of
-- the array where there is nothing else.
pub strip : List Entry → Option (List Entry × List Entry)
strip [] = none
strip (e ∷ es) =
    let above = strip es in
    elim above [
      | some (kept, passed) ↦ some (e ∷ kept, passed)
      | none ↦ if is_comment e then none else some (e ∷ [], es)
    ]

-- The entries of a section, and those from the next one on.
pub split_section : List Entry → List Entry × List Entry
split_section [] = ([], [])
split_section (e ∷ es) =
    let (own, next) = split_section es in
    if is_some e.section then ([], e ∷ es) else (e ∷ own, next)

-- The entries of a section up to a key, and those behind the key.
pub split_key : Bytes → List Entry → Option (List Entry × List Entry)
split_key id [] = none
split_key id (e ∷ es) =
    let later = split_key id es in
    if is_some e.section
    then none
    else if names e.id id
    then some ([], es)
    else (later >>= λ (own, next). some (e ∷ own, next))

-- `doDelete`: from the comments above `upper`'s end up to `lower`.
pub delete_between : Config → List Entry → List Entry → Option Outcome
delete_between c upper lower = do
  (kept, _) ← strip upper
  some (pos 0, record c { dirty = true; entries = kept ++ lower })

-- A section that was found, by whether there is a key and a value.
pub write_found :
    Config → Option Bytes → Option Bytes → List Entry → Entry → List Entry → Option Outcome
write_found c (some id) (some v) before sect behind =
    put_entries c id v (before ++ sect ∷ []) (put_key id v behind)
write_found c (some id) none before sect behind = elim (split_key id behind) [
  | none ↦ some (pos 0, c)
  | some (own, next) ↦ delete_between c (before ++ sect ∷ own) next
]
write_found c none value before sect behind = do
  let (own, next) = split_section behind
  (_, comments) ← strip (before ++ sect ∷ own)
  delete_between c before (comments ++ next)

-- A section that was not found: a key is added in a new section, a deletion does nothing.
pub write_missing : Config → Bytes → Option Bytes → Option Bytes → Outcome
write_missing c s id value = if not (is_some id) || not (is_some value) then (pos 0, c) else (
  pos 0,
  record (cfg_storeentry (cfg_storeentry c (some s) none none) none id value) { dirty = true },
)

pub write_valid : Config → Option Bytes → Option Bytes → Option Bytes → Option Outcome
write_valid c none id value = do
  es ← update_anywhere id value c.entries
  some (pos 0, record c { dirty = true; entries = es })
write_valid c (some s) id value = elim (find_section s c.entries) [
  | none ↦ some (write_missing c s id value)
  | some (before, e, behind) ↦ write_found c id value before e behind
]

pub cfg_write : Config → Option Bytes → Option Bytes → Option Bytes → Option Outcome
cfg_write c sect id value = if not c.valid then some (neg 1, c) else write_valid c sect id value
