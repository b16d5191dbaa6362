-- ===== src/Cfg/Output/Padded.antt =====
-- How the parser reads a key with blanks behind it, and a value that is set in.
use tcp_svr.Base.{
  ℕ, zero, suc, ◌-◌, ◌≤◌, Bytes, codes, [], ◌∷◌, ◌++◌, Option, none, some, length, take_all,
  replicate, Bool, true, false, ◌==◌, ◌≡◌, refl, sym, ap, ◌∙◌, arith, append_assoc,
}
use tcp_svr.Cfg.Entry.{is_white}
use tcp_svr.Cfg.Text.{is_space, cfg_skipwhite, trim_end}
use tcp_svr.Cfg.Parse.{
  fields, parse_value, parse_continuation, parse_key, key_at, parse_from, parse_line,
}
use tcp_svr.Cfg.Parse.Lines.{plain}
use tcp_svr.Cfg.Output.{comment_text, padded_pair}
use tcp_svr.Cfg.Output.Printable.{
  ends_without, lacks, text_ok, starts_key, key_ok, value_ok, plain-append, plain-cons,
  trim_end-ends, ends_without-append, ends_without-white, cut_at-lacks,
}
use tcp_svr.Cfg.Output.Printed.{
  IsLine, plain-comment_text, ends_without-comment_text, cfg_skipwhite-unblanked,
  parse_value-comment_text, parse_line-key,
}

-- The blanks between a key and the '='.
abbrev pub gap : ℕ → Bytes
gap n = replicate n 32 ++ 32 ∷ []

gap-clean :
    (n : ℕ)
    → (plain (gap n) ≡ true) × (lacks b'=' (gap n) ≡ true) × (trim_end is_space (gap n) ≡ [])
unfolding plain lacks trim_end
gap-clean zero = (refl, refl, refl)
gap-clean (suc n) =
    let (clean, free, blank) = gap-clean n in (rw clean refl, rw free refl, rw blank refl)

lacks-append : (c : ℕ) (a b : Bytes) → lacks c a ≡ true → lacks c b ≡ true → lacks c (a ++ b) ≡ true
unfolding lacks
lacks-append c [] b p q = q
lacks-append c (x ∷ a) b p q =
    let here : (x == c) ≡ false = ground arith in
    let later : lacks c a ≡ true = ground arith in rw (here, lacks-append c a b later q) refl

trim_end-behind :
    (p : ℕ → Bool) (a b : Bytes) → trim_end p b ≡ [] → trim_end p (a ++ b) ≡ trim_end p a
unfolding trim_end
trim_end-behind p [] b e = e
trim_end-behind p (x ∷ a) b e = rw (trim_end-behind p a b e) refl

pub padded_pair-gap :
    (m : ℕ) (i v : Bytes)
    → (1 ≤ m → length i ≤ m)
    → (n : ℕ) × (padded_pair m i v ≡ (i ++ gap n) ++ b'=' ∷ 32 ∷ v)
unfolding padded_pair
padded_pair-gap zero i v h =
    (0, append_assoc i (codes " = ") v ∙ sym (append_assoc i (32 ∷ []) (b'=' ∷ 32 ∷ v)))
padded_pair-gap (suc m) i v h =
    let n = suc m - length i in
    let blanks : Bytes = replicate n 32 in
    (
      n,
      ap (λ x. x ++ blanks ++ codes " = " ++ v) (take_all (suc m) i (h (omega arith)))
          ∙ append_assoc (i ++ blanks) (codes " = ") v
          ∙ sym (append_assoc (i ++ blanks) (32 ∷ []) (b'=' ∷ 32 ∷ v))
          ∙ ap (λ x. x ++ b'=' ∷ 32 ∷ v) (append_assoc i blanks (32 ∷ [])),
    )

key-gap :
    (i : Bytes) (n : ℕ)
    → key_ok i ≡ true
    → (plain (i ++ gap n) ≡ true)
      × (lacks b'=' (i ++ gap n) ≡ true)
      × (trim_end is_space (i ++ gap n) ≡ i)
unfolding key_ok
key-gap i n e =
    let (clean, free, blank) = gap-clean n in
    let own_clean : plain i ≡ true = ground arith in
    let own_free : lacks b'=' i ≡ true = ground arith in
    let ends : ends_without is_space i ≡ true = ground arith in
    (
      plain-append i (gap n) own_clean clean,
      lacks-append b'=' i (gap n) own_free free,
      trim_end-behind is_space i (gap n) blank ∙ trim_end-ends is_space i ends,
    )

-- A value with its comment, after a blank.
skip_blank : (t : Bytes) → cfg_skipwhite (32 ∷ t) ≡ cfg_skipwhite t
unfolding cfg_skipwhite is_white
skip_blank t = refl

gapped_key_read :
    (i : Bytes) (n : ℕ) (v : Bytes) (c : Option Bytes)
    → key_ok i ≡ true
    → value_ok v ≡ true
    → parse_key ((i ++ gap n) ++ b'=' ∷ 32 ∷ (v ++ comment_text c))
      ≡ some (fields none (some i) (some v) c)
unfolding parse_key key_at
gapped_key_read i n v c e f =
    let (clean, free, trimmed) = key-gap i n e in
    let whole : parse_value (cfg_skipwhite (32 ∷ (v ++ comment_text c))) ≡ (v, c) =
      ap parse_value (skip_blank (v ++ comment_text c)) ∙ parse_value-comment_text v c f in
    ap key_at (cut_at-lacks b'=' (i ++ gap n) (32 ∷ (v ++ comment_text c)) free)
    ∙ ap
        (λ x. some (
          fields none (some x) (some (parse_value (cfg_skipwhite (32 ∷ (v ++ comment_text c)))).0)
            (parse_value (cfg_skipwhite (32 ∷ (v ++ comment_text c)))).1))
        trimmed
    ∙ ap (λ x. some (fields none (some i) (some x.0) x.1)) whole

-- A value and its comment at the end of a line.
value-clean :
    (v : Bytes) (c : Option Bytes)
    → value_ok v ≡ true
    → text_ok c ≡ true
    → (plain (v ++ comment_text c) ≡ true) × (ends_without is_white (v ++ comment_text c) ≡ true)
unfolding value_ok
value-clean v c e f =
    let clean : plain v ≡ true = ground arith in
    let ends : ends_without is_space v ≡ true = ground arith in
    (
      plain-append v _ clean (plain-comment_text c f),
      ends_without-comment_text v c f (ends_without-white v clean ends),
    )

pub formatted_pair-IsLine :
    (b : ℕ) (i : Bytes) (x : ℕ) (v : Bytes) (n : ℕ) (c : Option Bytes)
    → key_ok (b ∷ i) ≡ true
    → value_ok (x ∷ v) ≡ true
    → text_ok c ≡ true
    → IsLine
        (fields none (some (b ∷ i)) (some (x ∷ v)) c)
        b
        ((i ++ gap n) ++ b'=' ∷ 32 ∷ ((x ∷ v) ++ comment_text c))
unfolding key_ok starts_key ends_without
formatted_pair-IsLine b i x v n c e f g =
    let (clean, ends) = value-clean (x ∷ v) c f g in
    let (key_clean, free, trimmed) = key-gap (b ∷ i) n e in
    record {
      one_line =
          plain-append ((b ∷ i) ++ gap n) _ key_clean
            (plain-cons b'=' _ refl (plain-cons 32 _ refl clean));
      no_blank = ends_without-append is_white ((b ∷ i) ++ gap n) b'=' _ ends;
      read =
          parse_line-key b _ (ground arith) (ground arith) (ground arith)
          ∙ gapped_key_read (b ∷ i) n (x ∷ v) c e f;
    }

pub continued-IsLine :
    (x : ℕ) (v : Bytes) (c : Option Bytes)
    → starts_key (x ∷ v) ≡ true
    → value_ok (x ∷ v) ≡ true
    → text_ok c ≡ true
    → IsLine (fields none none (some (x ∷ v)) c) 32 (32 ∷ ((x ∷ v) ++ comment_text c))
unfolding starts_key parse_line parse_from parse_continuation is_white
continued-IsLine x v c e f g =
    let (clean, ends) = value-clean (x ∷ v) c f g in
    let white : is_white x ≡ false = ground arith in
    let open_ : (x == b'[') ≡ false = ground arith in
    let mark : (x == b';') ≡ false = ground arith in
    let whole : parse_value (x ∷ v ++ comment_text c) ≡ (x ∷ v, c) =
      ap parse_value (sym (cfg_skipwhite-unblanked x (v ++ comment_text c) white))
      ∙ parse_value-comment_text (x ∷ v) c f in
    record {
      one_line = plain-cons 32 _ refl (plain-cons 32 _ refl clean);
      no_blank =
          ends_without-append is_white (32 ∷ []) 32 _
            (ends_without-append is_white (32 ∷ []) x _ ends);
      read =
          ap (parse_from true) (
            skip_blank (32 ∷ x ∷ (v ++ comment_text c))
            ∙ skip_blank (x ∷ (v ++ comment_text c))
            ∙ cfg_skipwhite-unblanked x (v ++ comment_text c) white)
          ∙ rw (open_, mark, parse_from) (ap (λ y. some (fields none none (some y.0) y.1)) whole);
    }
