-- ===== src/Cfg/Listing.antt =====
-- `cfg_next_section`, `list_sections` and `list_entries`: names copied one behind the other into a buffer
-- of the caller. The buffer is all the memory at `lpszRetBuffer`; `none` is a write behind it, a null
-- pointer passed to strcmp(3), or the end of the fuel. `cbRetBuffer` is not negative.
pub mod Buffer
pub mod Titles
pub mod Filled
use tcp_svr.Base.{
  ℕ, zero, suc, ◌+◌, ◌-◌, min, Bytes, List, [], ◌∷◌, ◌++◌, Option, none, some, length, take, drop,
  ℤ, pos, neg, is_zero, Bool, true, false, leb, ltb, not, if◌then◌else◌,
}
use tcp_svr.Cfg.Entry.{Kind, error, section, define, continue, Config, ◌>>=◌}
use tcp_svr.Cfg.Cursor.{Outcome, cfg_rewind, cfg_nextentry, strcmp}

-- cfg_section (X) and cfg_define (X)
abbrev pub is_section : Kind → Bool
is_section section = true
is_section _ = false

abbrev pub is_define : Kind → Bool
is_define define = true
is_define _ = false

-- A round of the loop of `cfg_next_section`; `loop` is the rest of it.
unfoldable pub section_round : Outcome → (Config → Option Outcome) → Option Outcome
section_round (ret, c) loop =
    if not (is_zero ret)
    then some (neg 1, c)
    else elim (is_section c.kind) [ true ↦ some (pos 0, c) | false ↦ loop c ]

unfoldable pub section_loop : ℕ → Config → Option Outcome
section_loop zero c = none
section_loop (suc fuel) c = section_round (cfg_nextentry c) (section_loop fuel)

unfoldable pub cfg_next_section : Config → Option Outcome
cfg_next_section c = section_loop (suc (length c.entries)) c

-- Bytes copied to a place of the buffer.
unfoldable pub memmove : List ℕ → ℕ → Bytes → Option (List ℕ)
memmove buf at s =
    if leb (at + length s) (length buf)
    then some (take at buf ++ s ++ drop (at + length s) buf)
    else none

-- A name with its terminator, as much of it as there is place for, and the place behind it.
unfoldable pub add_name : List ℕ → ℕ → ℕ → Bytes → Option (ℕ × List ℕ)
add_name buf cb curr name = do
  let n = min (length name + 1) (cb - curr)
  buf' ← memmove buf curr (take n (name ++ 0 ∷ []))
  some (curr + n, buf')

abbrev pub Listed : Type 0
Listed = Option (ℕ × List ℕ × Config)

-- What the loop of `list_sections` does with the outcome of `cfg_next_section`.
unfoldable pub title_round : ℕ → ℕ → List ℕ → Outcome → (ℕ → List ℕ → Config → Listed) → Listed
title_round cb curr buf (ret, c) loop =
    if not (is_zero ret) then some (curr, buf, c) else elim c.cur_section [
      | none ↦ some (curr, buf, c)
      | some s ↦ (add_name buf cb curr s >>= λ (curr', buf'). loop curr' buf' c)
    ]

unfoldable pub titles_loop : ℕ → ℕ → ℕ → List ℕ → Config → Listed
titles_loop zero cb curr buf c = none
titles_loop (suc fuel) cb curr buf c = elim (ltb curr cb) [
  | false ↦ some (curr, buf, c)
  | true ↦ (cfg_next_section c >>= λ out. title_round cb curr buf out (titles_loop fuel cb))
]

-- The key of a definition, if it stands in the section.
unfoldable pub key_in : Bytes → Config → Option (Option Bytes)
key_in s c =
    if not (is_define c.kind)
    then some none
    else (strcmp c.cur_section (some s) >>= λ same. some (if same then c.cur_id else none))

unfoldable pub key_round :
    Bytes → ℕ → ℕ → List ℕ → Outcome → (ℕ → List ℕ → Config → Listed) → Listed
key_round s cb curr buf (ret, c) loop =
    if not (is_zero ret)
    then some (curr, buf, c)
    else (key_in s c >>= λ key. elim key [
      | none ↦ loop curr buf c
      | some i ↦ (add_name buf cb curr i >>= λ (curr', buf'). loop curr' buf' c)
    ])

pub keys_loop : ℕ → Bytes → ℕ → ℕ → List ℕ → Config → Listed
keys_loop zero s cb curr buf c = none
keys_loop (suc fuel) s cb curr buf c = elim (ltb curr cb) [
  | false ↦ some (curr, buf, c)
  | true ↦ key_round s cb curr buf (cfg_nextentry c) (keys_loop fuel s cb)
]

-- `if (curr < cbRetBuffer) lpszRetBuffer[curr] = 0`
unfoldable pub finish_list : ℕ → Listed → Listed
finish_list cb none = none
finish_list cb (some (curr, buf, c)) =
    if ltb curr cb
    then (memmove buf curr (0 ∷ []) >>= λ buf'. some (curr, buf', c))
    else some (curr, buf, c)

-- Both functions, by their loops: the number returned, the buffer and the configuration.
unfoldable pub list_names : (ℕ → ℕ → List ℕ → Config → Listed) → Config → ℕ → List ℕ → Listed
list_names loop c cb buf = do
  cleared ← memmove buf 0 (0 ∷ [])
  let (ret, c') = cfg_rewind c
  (if is_zero ret
      then finish_list cb (loop (suc (length c.entries)) 0 cleared c')
      else some (0, cleared, c'))

unfoldable pub list_sections : Config → ℕ → List ℕ → Listed
list_sections c cb buf = list_names (λ fuel. titles_loop fuel cb) c cb buf

pub list_entries : Config → Bytes → ℕ → List ℕ → Listed
list_entries c s cb buf = list_names (λ fuel. keys_loop fuel s cb) c cb buf
