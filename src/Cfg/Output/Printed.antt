-- ===== src/Cfg/Output/Printed.antt =====
-- How the parser reads the line that `_cfg_output` prints for an entry.
use tcp_svr.Base.{
  ℕ, Bytes, [], ◌∷◌, ◌++◌, Option, none, some, true, false, ◌==◌, ◌≡◌, refl, ap, ◌∙◌, arith,
  append-nil, append_assoc,
}
use tcp_svr.Cfg.Entry.{Entry, is_white}
use tcp_svr.Cfg.Text.{is_space, cfg_skipwhite, trim_end, rtrim, cut_at}
use tcp_svr.Cfg.Parse.{
  scan, starts_comment, fields, parse_value, parse_comment, section_named, section_at,
  parse_section, key_at, parse_key, parse_from, parse_line,
}
use tcp_svr.Cfg.Parse.Lines.{plain}
use tcp_svr.Cfg.Output.{comment_text, plain_pair}
use tcp_svr.Cfg.Output.Printable.{
  ends_without, unblanked, lacks, quiet, text_ok, header_ok, starts_key, key_ok, value_ok,
  plain-append, plain-cons, trim_end-ends, ends_without-append, ends_without-cons,
  ends_without-white, trim_end-snoc, cut_at-lacks, scan-quiet, scan-comment,
}

-- A line without its newline, and the entry that it is read as.
pub record IsLine (e : Entry) (b : ℕ) (l : Bytes) : Type 0 where
  pub one_line : plain (b ∷ l) ≡ true
  pub no_blank : ends_without is_white (b ∷ l) ≡ true
  pub read : parse_line (b ∷ l) ≡ some e

pub plain-comment_text : (c : Option Bytes) → text_ok c ≡ true → plain (comment_text c) ≡ true
unfolding text_ok plain
plain-comment_text none e = refl
plain-comment_text (some t) e = ground arith

-- A comment behind a byte or a value that does not end in a blank.
pub ends_without-comment_text :
    (v : Bytes) (c : Option Bytes)
    → text_ok c ≡ true
    → ends_without is_white v ≡ true
    → ends_without is_white (v ++ comment_text c) ≡ true
unfolding text_ok ends_without is_white
ends_without-comment_text v none e f = rw (append-nil v) f
ends_without-comment_text v (some t) e f =
    let clean : ends_without is_white t ≡ true = ground arith in
    ends_without-append is_white v b'\t' (b';' ∷ t) (behind_tab t clean)
  where
    behind_tab :
        (t : Bytes)
        → ends_without is_white t ≡ true
        → ends_without is_white (b'\t' ∷ b';' ∷ t) ≡ true
    behind_tab t g = ends_without-cons is_white b';' t refl g

pub cfg_skipwhite-unblanked :
    (b : ℕ) (v : Bytes) → is_white b ≡ false → cfg_skipwhite (b ∷ v) ≡ b ∷ v
unfolding cfg_skipwhite
cfg_skipwhite-unblanked b v e = rw (e, cfg_skipwhite) refl

parse_value-scan :
    (lp raw : Bytes) (c : Option Bytes)
    → scan 0 0 lp ≡ (raw, c)
    → parse_value lp ≡ elim c [ none ↦ (raw, none) | some t ↦ (rtrim raw, some t) ]
unfolding parse_value
parse_value-scan lp raw c e =
    ap (λ x. elim x.1 [ none ↦ (x.0, none) | some t ↦ (rtrim x.0, some t) ]) e

-- A comment behind no value.
only_comment : (t : Bytes) → parse_value (cfg_skipwhite (b'\t' ∷ b';' ∷ t)) ≡ ([], some t)
unfolding parse_value cfg_skipwhite is_white scan starts_comment trim_end
only_comment t = refl

pub parse_value-comment_text :
    (v : Bytes) (c : Option Bytes)
    → value_ok v ≡ true
    → parse_value (cfg_skipwhite (v ++ comment_text c)) ≡ (v, c)
unfolding value_ok unblanked quiet cfg_skipwhite
parse_value-comment_text [] none e = parse_value-scan [] [] none (scan-quiet 0 0 [] refl)
parse_value-comment_text [] (some t) e = only_comment t
parse_value-comment_text (b ∷ v) none e =
    let white : is_white b ≡ false = ground arith in
    let calm : quiet 0 0 (b ∷ v) ≡ true = ground arith in
    rw (append-nil v) (
      rw (cfg_skipwhite-unblanked b v white)
        (parse_value-scan (b ∷ v) (b ∷ v) none (scan-quiet 0 0 (b ∷ v) calm)))
parse_value-comment_text (b ∷ v) (some t) e =
    let white : is_white b ≡ false = ground arith in
    let calm : quiet 0 0 (b ∷ v) ≡ true = ground arith in
    let ends : ends_without is_space (b ∷ v) ≡ true = ground arith in
    rw (cfg_skipwhite-unblanked b (v ++ comment_text (some t)) white) (
      parse_value-scan _ _ (some t) (scan-comment 0 0 (b ∷ v) t calm)
      ∙ ap (λ x. (x, some t)) (trim_end-snoc is_space (b ∷ v) b'\t' refl ends))

parse_comment-comment_text : (c : Option Bytes) → parse_comment (cfg_skipwhite (comment_text c)) ≡ c
unfolding parse_comment cfg_skipwhite is_white
parse_comment-comment_text none = refl
parse_comment-comment_text (some t) = refl

header_read :
    (b : ℕ) (s : Bytes) (c : Option Bytes)
    → is_white b ≡ false
    → ends_without is_space (b ∷ s) ≡ true
    → lacks b']' (b ∷ s) ≡ true
    → parse_section ((b ∷ s) ++ b']' ∷ comment_text c) ≡ some (fields (some (b ∷ s)) none none c)
unfolding parse_section section_at section_named
header_read b s c white ends closed =
    let behind = comment_text c in
    ap (λ x. section_at (cut_at b']' x)) (cfg_skipwhite-unblanked b (s ++ b']' ∷ behind) white)
    ∙ ap section_at (cut_at-lacks b']' (b ∷ s) behind closed)
    ∙ ap (λ x. section_named x behind) (trim_end-ends is_space (b ∷ s) ends)
    ∙ ap (λ x. some (fields (some (b ∷ s)) none none x)) (parse_comment-comment_text c)

-- The rest of the line of a key and a value, from the '=' on.
abbrev pair_end : Bytes → Option Bytes → Bytes
pair_end v c = b'=' ∷ (v ++ comment_text c)

key_read :
    (i v : Bytes) (c : Option Bytes)
    → key_ok i ≡ true
    → value_ok v ≡ true
    → parse_key (i ++ pair_end v c) ≡ some (fields none (some i) (some v) c)
unfolding parse_key key_at key_ok
key_read i v c e f =
    let free : lacks b'=' i ≡ true = ground arith in
    let ends : ends_without is_space i ≡ true = ground arith in
    ap key_at (cut_at-lacks b'=' i (v ++ comment_text c) free)
    ∙ ap
        (λ x. some (
          fields none (some x) (some (parse_value (cfg_skipwhite (v ++ comment_text c))).0)
            (parse_value (cfg_skipwhite (v ++ comment_text c))).1))
        (trim_end-ends is_space i ends)
    ∙ ap (λ x. some (fields none (some i) (some x.0) x.1)) (parse_value-comment_text v c f)

pub header-IsLine :
    (s : Bytes) (c : Option Bytes)
    → header_ok s ≡ true
    → text_ok c ≡ true
    → IsLine (fields (some s) none none c) b'[' (s ++ b']' ∷ comment_text c)
unfolding header_ok parse_line parse_from is_white cfg_skipwhite ends_without
header-IsLine [] c e f = cc
header-IsLine (b ∷ s) c e f =
    let white : is_white b ≡ false = ground arith in
    let clean : plain (b ∷ s) ≡ true = ground arith in
    let ends : ends_without is_space (b ∷ s) ≡ true = ground arith in
    let closed : lacks b']' (b ∷ s) ≡ true = ground arith in
    record {
      one_line =
          plain-cons b'[' _ refl
            (plain-append (b ∷ s) _ clean (plain-cons b']' _ refl (plain-comment_text c f)));
      no_blank =
          ends_without-append is_white (b'[' ∷ b ∷ s) b']' (comment_text c)
            (ends_without-comment_text (b']' ∷ []) c f refl);
      read = header_read b s c white ends closed;
    }

pub remark-IsLine :
    (t : Bytes) → text_ok (some t) ≡ true → IsLine (fields none none none (some t)) b';' t
unfolding text_ok parse_line parse_from cfg_skipwhite is_white
remark-IsLine t e =
    let clean : plain t ≡ true = ground arith in
    let ends : ends_without is_white t ≡ true = ground arith in
    record {
      one_line = plain-cons b';' t refl clean;
      no_blank = ends_without-cons is_white b';' t refl ends;
      read = refl;
    }

pair_end-clean :
    (v : Bytes) (c : Option Bytes)
    → value_ok v ≡ true
    → text_ok c ≡ true
    → (plain (pair_end v c) ≡ true) × (ends_without is_white (pair_end v c) ≡ true)
unfolding value_ok is_white
pair_end-clean v c e f =
    let clean : plain v ≡ true = ground arith in
    let ends : ends_without is_space v ≡ true = ground arith in
    (
      plain-cons b'=' _ refl (plain-append v _ clean (plain-comment_text c f)),
      ends_without-cons is_white b'=' _ refl
          (ends_without-comment_text v c f (ends_without-white v clean ends)),
    )

-- A line whose first byte is no blank, '[' or ';'.
pub parse_line-key :
    (b : ℕ) (l : Bytes)
    → is_white b ≡ false
    → (b == b'[') ≡ false
    → (b == b';') ≡ false
    → parse_line (b ∷ l) ≡ parse_key (b ∷ l)
unfolding parse_line parse_from
parse_line-key b l white open_ mark =
    rw (white) (
      ap (parse_from false) (cfg_skipwhite-unblanked b l white) ∙ rw (open_, mark, parse_from) refl)

pub pair-IsLine :
    (i v : Bytes) (c : Option Bytes)
    → key_ok i ≡ true
    → value_ok v ≡ true
    → text_ok c ≡ true
    → (b : ℕ) × (l : Bytes) × (plain_pair i v ++ comment_text c ≡ b ∷ l)
      × IsLine (fields none (some i) (some v) c) b l
unfolding key_ok starts_key is_white
pair-IsLine [] v c e f g =
    let (clean, ends) = pair_end-clean v c f g in
    (
      b'=',
      v ++ comment_text c,
      refl,
      record {
        one_line = clean;
        no_blank = ends;
        read = parse_line-key b'=' _ refl refl refl ∙ key_read [] v c e f;
      },
    )
pair-IsLine (b ∷ i) v c e f g =
    let (clean, ends) = pair_end-clean v c f g in
    let plain_key : plain (b ∷ i) ≡ true = ground arith in
    let white : is_white b ≡ false = ground arith in
    let open_ : (b == b'[') ≡ false = ground arith in
    let mark : (b == b';') ≡ false = ground arith in
    (
      b,
      i ++ pair_end v c,
      append_assoc (b ∷ i) (b'=' ∷ v) (comment_text c),
      record {
        one_line = plain-append (b ∷ i) (pair_end v c) plain_key clean;
        no_blank = ends_without-append is_white (b ∷ i) b'=' (v ++ comment_text c) ends;
        read = parse_line-key b _ white open_ mark ∙ key_read (b ∷ i) v c e f;
      },
    )
