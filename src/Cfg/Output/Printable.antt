-- ===== src/Cfg/Output/Printable.antt =====
-- The entries that a file can hold, and the string helpers on their texts.
use tcp_svr.Base.{
  ℕ, Bytes, List, [], ◌∷◌, ◌++◌, Option, none, some, Bool, true, false, ◌==◌, ◌||◌, ◌&&◌, not, ◌≡◌,
  refl, ap, ◌∙◌, arith, Bool-cases, inl, inr,
}
use tcp_svr.Cfg.Entry.{Entry, is_white}
use tcp_svr.Cfg.Text.{is_eol, is_space, trim_end, cut_at}
use tcp_svr.Cfg.Parse.{next_quote, starts_comment, scan}
use tcp_svr.Cfg.Parse.Lines.{plain}
use tcp_svr.Cfg.Output.{comment_text}

-- The last byte is not of a kind.
unfoldable pub ends_without : (ℕ → Bool) → Bytes → Bool
ends_without p [] = true
ends_without p (b ∷ []) = not (p b)
ends_without p (b ∷ c ∷ bs) = ends_without p (c ∷ bs)

unfoldable pub unblanked : Bytes → Bool
unblanked [] = true
unblanked (b ∷ bs) = not (is_white b)

unfoldable pub lacks : ℕ → Bytes → Bool
lacks c [] = true
lacks c (b ∷ bs) = not (b == c) && lacks c bs

-- A value in which no comment starts and every quote is closed.
unfoldable pub quiet : ℕ → ℕ → Bytes → Bool
quiet quote before [] = quote == 0
quiet quote before (b ∷ bs) = not (starts_comment quote before b) && quiet (next_quote quote b) b bs

unfoldable pub text_ok : Option Bytes → Bool
text_ok none = true
text_ok (some t) = plain t && ends_without is_white t

unfoldable pub header_ok : Bytes → Bool
header_ok [] = false
header_ok (b ∷ s) =
    not (is_white b) && plain (b ∷ s) && ends_without is_space (b ∷ s) && lacks b']' (b ∷ s)

unfoldable pub starts_key : Bytes → Bool
starts_key [] = true
starts_key (b ∷ i) = not (is_white b) && not (b == b'[') && not (b == b';')

unfoldable pub key_ok : Bytes → Bool
key_ok i = starts_key i && plain i && ends_without is_space i && lacks b'=' i

unfoldable pub value_ok : Bytes → Bool
value_ok v = unblanked v && plain v && ends_without is_space v && quiet 0 0 v

unfoldable pub printable_fields : Option Bytes → Option Bytes → Option Bytes → Option Bytes → Bool
printable_fields (some s) none none comment = header_ok s && text_ok comment
printable_fields none (some i) (some v) comment = key_ok i && value_ok v && text_ok comment
printable_fields none none none (some t) = text_ok (some t)
printable_fields _ _ _ _ = false

unfoldable pub is_printable : Entry → Bool
is_printable e = printable_fields e.section e.id e.value e.comment

unfoldable pub all_printable : List Entry → Bool
all_printable [] = true
all_printable (e ∷ es) = is_printable e && all_printable es

pub plain-append : (a b : Bytes) → plain a ≡ true → plain b ≡ true → plain (a ++ b) ≡ true
unfolding plain
plain-append [] b p q = q
plain-append (x ∷ a) b p q =
    let here : (x == 0 || is_eol x) ≡ false = ground arith in
    let later : plain a ≡ true = ground arith in rw (here, plain-append a b later q) refl

pub plain-cons :
    (b : ℕ) (a : Bytes) → (b == 0 || is_eol b) ≡ false → plain a ≡ true → plain (b ∷ a) ≡ true
unfolding plain
plain-cons b a e p = rw (e, p) refl

pub trim_end-ends : (p : ℕ → Bool) (v : Bytes) → ends_without p v ≡ true → trim_end p v ≡ v
unfolding trim_end ends_without
trim_end-ends p [] e = refl
trim_end-ends p (b ∷ []) e = elim (Bool-cases (p b)) [
  | inl at_end ↦ absurd (not_true (p b) at_end e)
  | inr other ↦ rw other refl
]
  where
    not_true : (x : Bool) → x ≡ true → not x ≡ true → ⊥
    not_true true f g = cc
    not_true false f g = cc
trim_end-ends p (b ∷ c ∷ v) e = rw (trim_end-ends p (c ∷ v) e) refl

pub ends_without-append :
    (p : ℕ → Bool) (a : Bytes) (b : ℕ) (bs : Bytes)
    → ends_without p (b ∷ bs) ≡ true
    → ends_without p (a ++ b ∷ bs) ≡ true
unfolding ends_without
ends_without-append p [] b bs e = e
ends_without-append p (x ∷ []) b bs e = e
ends_without-append p (x ∷ y ∷ a) b bs e = ends_without-append p (y ∷ a) b bs e

pub ends_without-cons :
    (p : ℕ → Bool) (b : ℕ) (a : Bytes)
    → p b ≡ false
    → ends_without p a ≡ true
    → ends_without p (b ∷ a) ≡ true
unfolding ends_without
ends_without-cons p b [] e f = rw e refl
ends_without-cons p b (c ∷ a) e f = f

not_eq : (x : Bool) → not x ≡ true → x ≡ false
not_eq true e = cc
not_eq false e = refl

white_space : (b : ℕ) → (b == 0) ≡ false → is_space b ≡ false → is_white b ≡ false
unfolding is_white
white_space b e f = ground arith

-- Of bytes with no NUL the blanks are spaces.
pub ends_without-white :
    (v : Bytes) → plain v ≡ true → ends_without is_space v ≡ true → ends_without is_white v ≡ true
unfolding ends_without plain
ends_without-white [] p e = refl
ends_without-white (b ∷ []) p e =
    let nonzero : (b == 0) ≡ false = ground arith in
    rw (white_space b nonzero (not_eq (is_space b) e)) refl
ends_without-white (b ∷ c ∷ v) p e =
    let later : plain (c ∷ v) ≡ true = ground arith in ends_without-white (c ∷ v) later e

-- One more byte of the kind at the end is trimmed off.
pub trim_end-snoc :
    (p : ℕ → Bool) (v : Bytes) (x : ℕ)
    → p x ≡ true
    → ends_without p v ≡ true
    → trim_end p (v ++ x ∷ []) ≡ v
unfolding trim_end ends_without
trim_end-snoc p [] x e f = rw e refl
trim_end-snoc p (b ∷ []) x e f = rw (e, trim_end) (trim_end-ends p (b ∷ []) f)
trim_end-snoc p (b ∷ c ∷ v) x e f = rw (trim_end-snoc p (c ∷ v) x e f) refl

pub cut_at-lacks :
    (c : ℕ) (s rest : Bytes) → lacks c s ≡ true → cut_at c (s ++ c ∷ rest) ≡ some (s, rest)
unfolding cut_at lacks
cut_at-lacks c [] rest e = ground arith
cut_at-lacks c (b ∷ s) rest e =
    let here : (b == c) ≡ false = ground arith in
    let later : lacks c s ≡ true = ground arith in
    rw (cut_at-lacks c s rest later, here, cut_at) refl

pub scan-quiet :
    (quote before : ℕ) (v : Bytes) → quiet quote before v ≡ true → scan quote before v ≡ (v, none)
unfolding scan quiet
scan-quiet quote before [] e = refl
scan-quiet quote before (b ∷ v) e =
    let here : starts_comment quote before b ≡ false = ground arith in
    let later : quiet (next_quote quote b) b v ≡ true = ground arith in
    rw (here, scan-quiet (next_quote quote b) b v later, scan) refl

-- The comment that `_cfg_output` prints, behind a value.
scan_tab : (before : ℕ) (t : Bytes) → scan 0 before (b'\t' ∷ b';' ∷ t) ≡ (b'\t' ∷ [], some t)
unfolding scan starts_comment next_quote is_white
scan_tab before t = refl

pub scan-comment :
    (quote before : ℕ) (v t : Bytes)
    → quiet quote before v ≡ true
    → scan quote before (v ++ comment_text (some t)) ≡ (v ++ b'\t' ∷ [], some t)
unfolding scan quiet
scan-comment quote before [] t e =
    let closed : quote ≡ 0 = ground arith in
    ap (λ q. scan q before (b'\t' ∷ b';' ∷ t)) closed ∙ scan_tab before t
scan-comment quote before (b ∷ v) t e =
    let here : starts_comment quote before b ≡ false = ground arith in
    let later : quiet (next_quote quote b) b v ≡ true = ground arith in
    rw (here, scan-comment (next_quote quote b) b v t later, scan) refl
