-- ===== src/Cfg/Output/Formatted.antt =====
-- What the parser makes of the text that `_cfg_outputformatted` prints.
use tcp_svr.Base.{
  ℕ, zero, suc, ◌≤◌, Bytes, codes, List, [], ◌∷◌, ◌++◌, Option, none, some, length, length-append,
  pos, Bool, true, false, ◌&&◌, if◌then◌else◌, ◌≡◌, refl, sym, ap, ◌∙◌, subst, arith, Bool-cases,
  inl, inr, append_assoc, map,
}
use tcp_svr.Cfg.Entry.{Entry, Config, is_some, stored}
use tcp_svr.Cfg.Parse.{fields, parse_loop, cfg_parse}
use tcp_svr.Cfg.Parse.Lines.{cfg_parse-loop}
use tcp_svr.Cfg.Output.{
  comment_text, shown, needs_gap, print_entry, longest, padded_pair, outputformatted_from,
  cfg_outputformatted,
}
use tcp_svr.Cfg.Output.Printable.{text_ok, header_ok, starts_key, key_ok, value_ok}
use tcp_svr.Cfg.Output.Printed.{header-IsLine, remark-IsLine}
use tcp_svr.Cfg.Output.RoundTrip.{
  as_parsed, Prints, tight, gapped, parse_loop-Prints, Prints-nonempty, stored_all,
  stored_all-entries,
}
use tcp_svr.Cfg.Output.Padded.{gap, padded_pair-gap, formatted_pair-IsLine, continued-IsLine}

-- The entries that a formatted file can hold: keys and values are not empty, and a value without a key is kept.
unfoldable pub formatted_fields : Option Bytes → Option Bytes → Option Bytes → Option Bytes → Bool
formatted_fields (some s) none none c = header_ok s && text_ok c
formatted_fields none (some (b ∷ i)) (some (x ∷ v)) c =
    key_ok (b ∷ i) && value_ok (x ∷ v) && text_ok c
formatted_fields none none (some (x ∷ v)) c = starts_key (x ∷ v) && value_ok (x ∷ v) && text_ok c
formatted_fields none none none (some t) = text_ok (some t)
formatted_fields _ _ _ _ = false

unfoldable pub all_formatted : List Entry → Bool
all_formatted [] = true
all_formatted (e ∷ es) = formatted_fields e.section e.id e.value e.comment && all_formatted es

-- The width is enough for the keys up to the next section.
abbrev Wide : ℕ → List Entry → Type 0
Wide m es = 1 ≤ m → longest es ≤ m

pair-Prints :
    (m b : ℕ) (i : Bytes) (x : ℕ) (v : Bytes) (c : Option Bytes)
    → (1 ≤ m → length (b ∷ i) ≤ m)
    → key_ok (b ∷ i) ≡ true
    → value_ok (x ∷ v) ≡ true
    → text_ok c ≡ true
    → Prints
        (fields none (some (b ∷ i)) (some (x ∷ v)) c)
        (padded_pair m (b ∷ i) (x ∷ v) ++ comment_text c ++ b'\n' ∷ [])
pair-Prints m b i x v c wide e f g =
    let (n, whole) = padded_pair-gap m (b ∷ i) (x ∷ v) wide in
    let line : padded_pair m (b ∷ i) (x ∷ v) ++ comment_text c
        ≡ ((b ∷ i) ++ gap n) ++ b'=' ∷ 32 ∷ ((x ∷ v) ++ comment_text c) =
      ap (λ t. t ++ comment_text c) whole
      ∙ append_assoc ((b ∷ i) ++ gap n) (b'=' ∷ 32 ∷ x ∷ v) (comment_text c) in
    subst (λ t. Prints (fields none (some (b ∷ i)) (some (x ∷ v)) c) (t ++ b'\n' ∷ [])) (sym line)
      (tight (formatted_pair-IsLine b i x v n c e f g))

abbrev key_size : Option Bytes → ℕ
key_size none = 0
key_size (some k) = length k

fields-Prints :
    (m : ℕ) (skip : Bool) (es : List Entry) (s i v c : Option Bytes)
    → (1 ≤ m → key_size i ≤ m)
    → formatted_fields s i v c ≡ true
    → Prints (fields s i v c) (print_entry (padded_pair m) (codes "  ") skip (fields s i v c) es).0
unfolding print_entry shown formatted_fields
fields-Prints m true es (some s) none none c wide e =
    gapped (header-IsLine s c (ground arith) (ground arith))
fields-Prints m false es (some s) none none c wide e =
    tight (header-IsLine s c (ground arith) (ground arith))
fields-Prints m skip es none (some (b ∷ i)) (some (x ∷ v)) c wide e =
    pair-Prints m b i x v c wide (ground arith) (ground arith) (ground arith)
fields-Prints m skip es none none (some (x ∷ v)) c wide e =
    tight (continued-IsLine x v c (ground arith) (ground arith) (ground arith))
fields-Prints m skip es none none none (some t) wide e = elim (Bool-cases (needs_gap skip t es)) [
  | inl near ↦ rw near (gapped (remark-IsLine t e))
  | inr far ↦ rw far (tight (remark-IsLine t e))
]
fields-Prints m skip es none none none none wide e = cc
fields-Prints m skip es none none (some []) c wide e = cc
fields-Prints m skip es none (some []) none c wide e = cc
fields-Prints m skip es none (some (b ∷ i)) none c wide e = cc
fields-Prints m skip es none (some []) (some v) c wide e = cc
fields-Prints m skip es none (some (b ∷ i)) (some []) c wide e = cc
fields-Prints m skip es (some s) (some i) v c wide e = cc
fields-Prints m skip es (some s) none (some v) c wide e = cc

-- The width that an entry is printed with.
abbrev width : ℕ → Entry → List Entry → ℕ
width m e es = if is_some e.section then longest es else m

longest-cons :
    (e : Entry) (es : List Entry)
    → is_some e.section ≡ false
    → (key_size e.id ≤ longest (e ∷ es)) × (longest es ≤ longest (e ∷ es))
unfolding longest
longest-cons e es inside = from e.id
  where
    from :
        (i : Option Bytes)
        → (key_size i ≤ longest (record e { id = i } ∷ es))
          × (longest es ≤ longest (record e { id = i } ∷ es))
    from none = rw inside (ground arith)
    from (some k) = rw inside (ground arith)

titled-key_size :
    (s i v c : Option Bytes) → formatted_fields s i v c ≡ true → is_some s ≡ true → key_size i ≡ 0
unfolding formatted_fields
titled-key_size none i v c p t = cc
titled-key_size (some s) none v c p t = refl
titled-key_size (some s) (some i) v c p t = cc

Wide-next : (m : ℕ) (e : Entry) (es : List Entry) → Wide m (e ∷ es) → Wide (width m e es) es
unfolding longest
Wide-next m e es wide = elim (Bool-cases (is_some e.section)) [
  | inl titled ↦ rw titled (λ some_width. omega arith)
  | inr inside ↦
      rw inside (λ some_width. omega (arith, (longest-cons e es inside).1, wide some_width))
]

Wide-key :
    (m : ℕ) (e : Entry) (es : List Entry)
    → formatted_fields e.section e.id e.value e.comment ≡ true
    → Wide m (e ∷ es)
    → 1 ≤ width m e es
    → key_size e.id ≤ width m e es
unfolding longest formatted_fields
Wide-key m e es p wide some_width = elim (Bool-cases (is_some e.section)) [
  | inl titled ↦ omega (arith, titled-key_size e.section e.id e.value e.comment p titled)
  | inr inside ↦
      rw inside (omega (arith, (longest-cons e es inside).0, wide (rw inside at some_width)))
]

-- The line or lines of one entry.
print_entry-Prints :
    (m : ℕ) (skip : Bool) (e : Entry) (es : List Entry)
    → formatted_fields e.section e.id e.value e.comment ≡ true
    → Wide m (e ∷ es)
    → Prints (as_parsed e) (print_entry (padded_pair (width m e es)) (codes "  ") skip e es).0
unfolding print_entry
print_entry-Prints m skip e es p wide =
    fields-Prints (width m e es) skip es e.section e.id e.value e.comment (Wide-key m e es p wide) p

length-outputformatted_from :
    (m : ℕ) (skip : Bool) (es : List Entry)
    → Wide m es
    → all_formatted es ≡ true
    → length es ≤ length (outputformatted_from m skip es)
unfolding outputformatted_from all_formatted
length-outputformatted_from m skip [] wide p = omega arith
length-outputformatted_from m skip (e ∷ es) wide p =
    let here : formatted_fields e.section e.id e.value e.comment ≡ true = ground arith in
    let later : all_formatted es ≡ true = ground arith in
    let printed = print_entry (padded_pair (width m e es)) (codes "  ") skip e es in
    omega (
      arith,
      Prints-nonempty (as_parsed e) printed.0 (print_entry-Prints m skip e es here wide),
      length-outputformatted_from (width m e es) printed.1 es (Wide-next m e es wide) later,
      length-append printed.0 (outputformatted_from (width m e es) printed.1 es),
    )

parse_loop-outputformatted_from :
    (fuel m : ℕ) (skip : Bool) (es : List Entry) (c : Config)
    → length es ≤ fuel
    → Wide m es
    → all_formatted es ≡ true
    → parse_loop fuel (outputformatted_from m skip es) c ≡ some (stored_all c (map as_parsed es))
unfolding outputformatted_from all_formatted parse_loop stored_all
parse_loop-outputformatted_from fuel m skip [] c f wide p = refl
parse_loop-outputformatted_from zero m skip (e ∷ es) c f wide p = absurd (omega arith)
parse_loop-outputformatted_from (suc fuel) m skip (e ∷ es) c f wide p =
    let here : formatted_fields e.section e.id e.value e.comment ≡ true = ground arith in
    let later : all_formatted es ≡ true = ground arith in
    let printed = print_entry (padded_pair (width m e es)) (codes "  ") skip e es in
    parse_loop-Prints fuel (as_parsed e) printed.0 _ c (print_entry-Prints m skip e es here wide)
    ∙ parse_loop-outputformatted_from fuel (width m e es) printed.1 es (stored c (as_parsed e))
        (omega arith) (Wide-next m e es wide) later

pub cfg_parse-cfg_outputformatted :
    (es : List Entry) (c : Config)
    → c.valid ≡ false
    → all_formatted es ≡ true
    → (c' : Config) × (cfg_parse (cfg_outputformatted es) c ≡ some (pos 0, c'))
      × (c'.valid ≡ true)
      × (c'.entries ≡ c.entries ++ map as_parsed es)
unfolding cfg_outputformatted
cfg_parse-cfg_outputformatted es c fresh p =
    let wide : Wide 0 es = λ some_width. absurd (omega arith) in
    (
      record (stored_all c (map as_parsed es)) { valid = true },
      cfg_parse-loop (outputformatted_from 0 false es) c _ fresh (
          parse_loop-outputformatted_from _ 0 false es c
            (length-outputformatted_from 0 false es wide p) wide p),
      refl,
      stored_all-entries c (map as_parsed es),
    )
