-- ===== src/Svr/Request/Fields.antt =====
-- `strtok` against the fields of a text: its longest pieces with no ',' in them.
use tcp_svr.Base.{
  ℕ, Bytes, List, codes, str_eq, [], ◌∷◌, Option, none, some, Bool, true, false, ◌==◌,
  if◌then◌else◌, ◌≡◌, refl, arith, Bool-cases, List-cases, inl, inr,
}
use tcp_svr.Svr.Request.{
  skip_commas, until_comma, strtok, Request, hello, incomplete, command, parse_rest, parse_first,
  parse_request,
}

-- Puts `b` in front of the first field, which begins at once if the flag is set.
unfoldable pub join : ℕ → Bool → List Bytes → List Bytes
join b true (f ∷ fs) = (b ∷ f) ∷ fs
join b _ fs = (b ∷ []) ∷ fs

-- The text does not begin with a separator, and is not empty.
unfoldable pub starts : Bytes → Bool
starts [] = false
starts (b ∷ bs) = if b == b',' then false else true

unfoldable pub fields : Bytes → List Bytes
unfolding join starts
fields [] = []
fields (b ∷ bs) = if b == b',' then fields bs else join b (starts bs) (fields bs)

fields-skip_commas : (s : Bytes) → fields (skip_commas s) ≡ fields s
unfolding fields skip_commas
fields-skip_commas [] = refl
fields-skip_commas (b ∷ bs) = ground (arith, fields-skip_commas bs)

skip_commas-head : (s : Bytes) (b : ℕ) (bs : Bytes) → skip_commas s ≡ b ∷ bs → (b == b',') ≡ false
unfolding skip_commas
skip_commas-head [] b bs e = cc
skip_commas-head (a ∷ s) b bs e = ground (arith, skip_commas-head s b bs)

-- The first field of a text that starts with one, and the rest.
fields-until_comma :
    (b : ℕ) (bs : Bytes)
    → (b == b',') ≡ false
    → fields (b ∷ bs) ≡ (until_comma (b ∷ bs)).0 ∷ fields (until_comma (b ∷ bs)).1
unfolding fields until_comma
fields-until_comma b [] e = ground arith
fields-until_comma b (c ∷ cs) e = ground (arith, fields-until_comma c cs)

-- `strtok` takes off the first field, and finds none exactly where there is none.
pub TakesField : List Bytes → Option (Bytes × Bytes) → Type 0
TakesField fs none = fs ≡ []
TakesField fs (some (t, r)) = fs ≡ t ∷ fields r

pub strtok-TakesField : (s : Bytes) → TakesField (fields s) (strtok s)
unfolding TakesField strtok fields
strtok-TakesField s = elim (List-cases (skip_commas s)) [
  | inl e ↦ rw (e, strtok) (rw (← fields-skip_commas s, e))
  | inr (b, bs, e) ↦
      rw (e, strtok)
        (rw (← fields-skip_commas s, e) (fields-until_comma b bs (skip_commas-head s b bs e)))
]

unfoldable pub first : List Bytes → Option Bytes
first [] = none
first (f ∷ fs) = some f

unfoldable pub rest : List Bytes → List Bytes
rest [] = []
rest (f ∷ fs) = fs

-- The token, and the text behind it; nothing behind the last one.
abbrev pub kept : Option (Bytes × Bytes) → Option Bytes × Bytes
kept none = (none, [])
kept (some (token, behind)) = (some token, behind)

pub kept-fields :
    (s : Bytes)
    → ((kept (strtok s)).0 ≡ first (fields s)) × (fields (kept (strtok s)).1 ≡ rest (fields s))
unfolding TakesField first rest fields
kept-fields s = either (fields s) (strtok s) (strtok-TakesField s)
  where
    either :
        (fs : List Bytes) (o : Option (Bytes × Bytes))
        → TakesField fs o
        → ((kept o).0 ≡ first fs) × (fields (kept o).1 ≡ rest fs)
    either fs none e = rw e (refl, refl)
    either fs (some (t, r)) e = rw e (refl, refl)

-- What a message means, by its fields: "hello" in front, three fields or more, or fewer.
unfoldable pub meaning : List Bytes → Request
meaning [] = incomplete
meaning (a ∷ []) = if str_eq a (codes "hello") then hello else incomplete
meaning (a ∷ t ∷ []) = if str_eq a (codes "hello") then hello else incomplete
meaning (a ∷ t ∷ r ∷ _) = if str_eq a (codes "hello") then hello else command a t r

parse_rest-meaning :
    (a : Bytes) (fs : List Bytes) (o : Option (Bytes × Bytes))
    → TakesField fs o
    → str_eq a (codes "hello") ≡ false
    → parse_rest a o ≡ meaning (a ∷ fs)
unfolding parse_rest meaning TakesField
parse_rest-meaning a fs none e n = ground arith
parse_rest-meaning a fs (some (t, rest)) e n = ground (arith, strtok-TakesField rest)

pub meaning-hello :
    (a : Bytes) (fs : List Bytes) → str_eq a (codes "hello") ≡ true → meaning (a ∷ fs) ≡ hello
unfolding meaning
meaning-hello a [] e = rw e
meaning-hello a (t ∷ []) e = rw e
meaning-hello a (t ∷ r ∷ fs) e = rw e

parse_first-meaning :
    (fs : List Bytes) (o : Option (Bytes × Bytes)) → TakesField fs o → parse_first o ≡ meaning fs
unfolding parse_first meaning TakesField
parse_first-meaning fs none e = rw e
parse_first-meaning fs (some (a, rest)) e = elim (Bool-cases (str_eq a (codes "hello"))) [
  | inl same ↦ rw (e, same, meaning-hello a (fields rest) same)
  | inr other ↦
      rw (e, other)
        (parse_rest-meaning a (fields rest) (strtok rest) (strtok-TakesField rest) other)
]

-- The handler's reading of a message depends on its fields only, and is `meaning` of them.
pub parse_request-meaning : (msg : Bytes) → parse_request msg ≡ meaning (fields msg)
unfolding parse_request
parse_request-meaning msg = parse_first-meaning (fields msg) (strtok msg) (strtok-TakesField msg)

-- What three tokens make of a message, those that are missing being `none`.
unfoldable pub by_tokens : Option Bytes → Option Bytes → Option Bytes → Request
by_tokens (some action) (some table) (some round) = command action table round
by_tokens _ _ _ = incomplete

pub by_tokens-meaning :
    (a : Bytes) (fs : List Bytes)
    → str_eq a (codes "hello") ≡ false
    → by_tokens (some a) (first fs) (first (rest fs)) ≡ meaning (a ∷ fs)
unfolding by_tokens meaning first rest
by_tokens-meaning a [] n = rw n refl
by_tokens-meaning a (t ∷ []) n = rw n refl
by_tokens-meaning a (t ∷ r ∷ fs) n = rw n refl
