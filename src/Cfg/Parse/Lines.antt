-- ===== src/Cfg/Parse/Lines.antt =====
-- The lines of an image, and the end of the parser's loop.
use tcp_svr.Base.{
  ℕ, zero, suc, ◌≤◌, Bytes, [], ◌∷◌, ◌++◌, none, some, length, pos, Bool, true, false, ◌==◌, ◌||◌,
  ◌&&◌, not, if◌then◌else◌, ◌≡◌, refl, sym, ap, ◌∙◌, inl, inr, arith, Bool-cases, subst,
}
use tcp_svr.Cfg.Entry.{Config, is_white}
use tcp_svr.Cfg.Text.{is_eol, trim_end}
use tcp_svr.Cfg.Parse.{
  skip_eols, cut_line, end_line, cfg_getline, parse_line, store_line, parse_loop, parsed, cfg_parse,
}

-- Neither a terminator nor the end of a line.
unfoldable pub plain : Bytes → Bool
plain [] = true
plain (b ∷ bs) = not (b == 0 || is_eol b) && plain bs

cut_line-plain :
    (l rest : Bytes) → plain l ≡ true → cut_line (l ++ b'\n' ∷ rest) ≡ (l, b'\n' ∷ rest)
unfolding cut_line plain
cut_line-plain [] rest p = refl
cut_line-plain (b ∷ l) rest p =
    let this : (b == 0 || is_eol b) ≡ false = ground arith in
    let later : plain l ≡ true = ground arith in
    rw (cut_line-plain l rest later, this, cut_line) refl

skip_eols-plain : (b : ℕ) (l : Bytes) → is_eol b ≡ false → skip_eols (b ∷ l) ≡ b ∷ l
unfolding skip_eols
skip_eols-plain b l e = rw (e, skip_eols) refl

-- A line that ends in a newline, with no blank before it.
pub cfg_getline-line :
    (b : ℕ) (l rest : Bytes)
    → plain (b ∷ l) ≡ true
    → trim_end is_white (b ∷ l) ≡ b ∷ l
    → cfg_getline (b ∷ l ++ b'\n' ∷ rest) ≡ (b ∷ l, rest)
unfolding cfg_getline plain end_line
cfg_getline-line b l rest p t =
    let this : is_eol b ≡ false = ground arith in
    rw (skip_eols-plain b (l ++ b'\n' ∷ rest) this, cut_line-plain (b ∷ l) rest p)
      (ap (λ x. (x, rest)) t)

-- Empty lines are passed over.
pub cfg_getline-newline : (img : Bytes) → cfg_getline (b'\n' ∷ img) ≡ cfg_getline img
unfolding cfg_getline skip_eols
cfg_getline-newline img = refl

unfoldable pub no_nul : Bytes → Bool
no_nul [] = true
no_nul (b ∷ bs) = not (b == 0) && no_nul bs

-- What a call of `_cfg_getline` leaves of an image with no NUL.
record Shrinks (img rest : Bytes) : Type 0 where
  clean : no_nul rest ≡ true
  fits : length rest ≤ length img

Shrinks-cons : (b : ℕ) (img rest : Bytes) → Shrinks img rest → Shrinks (b ∷ img) rest
Shrinks-cons b img rest s = record { clean = s.clean; fits = omega (arith, s.fits) }

skip_eols-Shrinks : (img : Bytes) → no_nul img ≡ true → Shrinks img (skip_eols img)
unfolding skip_eols no_nul
skip_eols-Shrinks [] c = record { clean = refl; fits = omega arith }
skip_eols-Shrinks (b ∷ img) c = elim (Bool-cases (is_eol b)) [
  | inl eol ↦
      let later : no_nul img ≡ true = ground arith in
      rw (eol, skip_eols) (Shrinks-cons b img _ (skip_eols-Shrinks img later))
  | inr other ↦ rw (other, skip_eols) (record { clean = c; fits = omega arith })
]

cut_line-Shrinks : (img : Bytes) → no_nul img ≡ true → Shrinks img (cut_line img).1
unfolding cut_line no_nul
cut_line-Shrinks [] c = record { clean = refl; fits = omega arith }
cut_line-Shrinks (b ∷ img) c = elim (Bool-cases (b == 0 || is_eol b)) [
  | inl stop ↦ rw (stop, cut_line) (record { clean = c; fits = omega arith })
  | inr other ↦
      let later : no_nul img ≡ true = ground arith in
      rw (other, cut_line) (Shrinks-cons b img _ (cut_line-Shrinks img later))
]

end_line-Shrinks : (line rest : Bytes) → no_nul rest ≡ true → Shrinks rest (end_line (line, rest)).1
unfolding end_line no_nul
end_line-Shrinks line [] c = record { clean = refl; fits = omega arith }
end_line-Shrinks line (b ∷ rest) c =
    let here : (b == 0) ≡ false = ground arith in
    let later : no_nul rest ≡ true = ground arith in
    rw (here, end_line) (record { clean = later; fits = omega arith })

Shrinks-trans : (a b c : Bytes) → Shrinks a b → Shrinks b c → Shrinks a c
Shrinks-trans a b c p q = record { clean = q.clean; fits = omega (arith, p.fits, q.fits) }

-- A call takes a byte at least.
cfg_getline-Shrinks :
    (b : ℕ) (bs : Bytes) → no_nul (b ∷ bs) ≡ true → Shrinks bs (cfg_getline (b ∷ bs)).1
unfolding cfg_getline no_nul skip_eols end_line cut_line
cfg_getline-Shrinks b bs c =
    let here : (b == 0) ≡ false = ground arith in
    let later : no_nul bs ≡ true = ground arith in
    elim (Bool-cases (is_eol b)) [
      | inl eol ↦
          let skipped = skip_eols-Shrinks bs later in
          let cut = cut_line-Shrinks (skip_eols bs) skipped.clean in
          rw (eol, skip_eols)
            (Shrinks-trans bs _ _ skipped
              (Shrinks-trans _ _ _ cut (end_line-Shrinks (cut_line (skip_eols bs)).0 _ cut.clean)))
      | inr other ↦
          let cut = cut_line-Shrinks bs later in
          rw (skip_eols-plain b bs other) (
            rw (here, other, cut_line)
              (Shrinks-trans bs _ _ cut (end_line-Shrinks (b ∷ (cut_line bs).0) _ cut.clean)))
    ]

-- On an image with no NUL byte the loop of `_cfg_parse` ends, in at most as many rounds as the image has
-- bytes.
pub parse_loop-ends :
    (fuel : ℕ) (image : Bytes) (c : Config)
    → length image ≤ fuel
    → no_nul image ≡ true
    → (c' : Config) × (parse_loop fuel image c ≡ some c')
unfolding parse_loop
parse_loop-ends fuel [] c f clean = (c, refl)
parse_loop-ends zero (b ∷ bs) c f clean = absurd (omega arith)
parse_loop-ends (suc fuel) (b ∷ bs) c f clean =
    let s = cfg_getline-Shrinks b bs clean in
    parse_loop-ends fuel (cfg_getline (b ∷ bs)).1
      (store_line c (parse_line (cfg_getline (b ∷ bs)).0)) (omega (arith, s.fits)) s.clean

stuck_line : (bs : Bytes) → cfg_getline (0 ∷ bs) ≡ ([], 0 ∷ bs)
unfolding cfg_getline skip_eols cut_line end_line
stuck_line bs = refl

-- One round of the loop.
pub parse_loop-line :
    (fuel b : ℕ) (bs line rest : Bytes) (c : Config)
    → cfg_getline (b ∷ bs) ≡ (line, rest)
    → parse_loop (suc fuel) (b ∷ bs) c ≡ parse_loop fuel rest (store_line c (parse_line line))
unfolding parse_loop
parse_loop-line fuel b bs line rest c e =
    ap (λ x. parse_loop fuel x.1 (store_line c (parse_line x.0))) e

-- At a NUL byte inside the image `_cfg_getline` stays where it is: no number of rounds ends the loop.
pub parse_loop-stuck : (fuel : ℕ) (bs : Bytes) (c : Config) → parse_loop fuel (0 ∷ bs) c ≡ none
unfolding parse_loop
parse_loop-stuck zero bs c = refl
parse_loop-stuck (suc fuel) bs c =
    parse_loop-line fuel 0 bs [] (0 ∷ bs) c (stuck_line bs) ∙ parse_loop-stuck fuel bs _

-- What the loop leaves is what a first call of `_cfg_parse` leaves.
pub cfg_parse-loop :
    (image : Bytes) (c c' : Config)
    → c.valid ≡ false
    → parse_loop (length image) image c ≡ some c'
    → cfg_parse image c ≡ some (pos 0, record c' { valid = true })
unfolding cfg_parse parsed
cfg_parse-loop image c c' fresh e =
    subst
      (λ (b : Bool).
        (if b then some (pos 0, c) else parsed (parse_loop (length image) image c))
        ≡ parsed (some c'))
      (sym fresh) (ap parsed e)
