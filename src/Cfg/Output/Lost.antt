-- ===== src/Cfg/Output/Lost.antt =====
-- Entries that `_cfg_output` prints and `_cfg_parse` does not read back.
use tcp_svr.Base.{
  ℕ, zero, suc, Bytes, [], ◌∷◌, ◌++◌, none, some, length, pos, true, false, ◌==◌, ◌&&◌, ◌≡◌, refl,
  ap, ◌∙◌, arith, append-nil,
}
use tcp_svr.Cfg.Entry.{Config, is_white}
use tcp_svr.Cfg.Text.{cut_at}
use tcp_svr.Cfg.Parse.{fields, key_at, parse_key, parse_line, store_line, parse_loop, cfg_parse}
use tcp_svr.Cfg.Parse.Lines.{plain, cfg_getline-line, parse_loop-line, cfg_parse-loop}
use tcp_svr.Cfg.Output.{print_entry, shown, output_from, cfg_output}
use tcp_svr.Cfg.Output.Printable.{ends_without, lacks, starts_key, trim_end-ends}
use tcp_svr.Cfg.Output.Printed.{parse_line-key}

cut_at-none : (c : ℕ) (s : Bytes) → lacks c s ≡ true → cut_at c s ≡ none
unfolding cut_at lacks
cut_at-none c [] e = refl
cut_at-none c (b ∷ s) e =
    let here : (b == c) ≡ false = ground arith in
    let later : lacks c s ≡ true = ground arith in rw (cut_at-none c s later, here, cut_at) refl

lost_line :
    (b : ℕ) (v : Bytes)
    → starts_key (b ∷ v) ≡ true
    → lacks b'=' (b ∷ v) ≡ true
    → parse_line (b ∷ v) ≡ none
unfolding starts_key parse_key key_at
lost_line b v s l =
    parse_line-key b v (ground arith) (ground arith) (ground arith)
    ∙ ap key_at (cut_at-none b'=' (b ∷ v) l)

read_lost :
    (fuel b : ℕ) (v : Bytes) (c : Config)
    → plain (b ∷ v) ≡ true
    → ends_without is_white (b ∷ v) ≡ true
    → starts_key (b ∷ v) ≡ true
    → lacks b'=' (b ∷ v) ≡ true
    → parse_loop (suc fuel) (b ∷ v ++ b'\n' ∷ []) c ≡ some c
unfolding store_line parse_loop
read_lost fuel b v c p w s l =
    parse_loop-line fuel b _ (b ∷ v) [] c
      (cfg_getline-line b v [] p (trim_end-ends is_white (b ∷ v) w))
    ∙ ap (λ x. parse_loop fuel [] (store_line c x)) (lost_line b v s l)
    ∙ done fuel
  where
    done : (n : ℕ) → parse_loop n [] c ≡ some c
    done zero = refl
    done (suc n) = refl

printed_bare :
    (b : ℕ) (v : Bytes)
    → cfg_output (fields none none (some (b ∷ v)) none ∷ []) ≡ b ∷ v ++ b'\n' ∷ []
unfolding cfg_output output_from print_entry shown
printed_bare b v =
    append-nil (b ∷ (v ++ []) ++ b'\n' ∷ []) ∙ ap (λ x. b ∷ x ++ b'\n' ∷ []) (append-nil v)

-- A value with no key, as a line that continues another is kept, is printed by `_cfg_output` at the
-- start of its line, where `_cfg_parse` drops it: no entry comes back, if the value is one line with
-- no blank at either end and no '=' in it, and does not begin with '[' or ';'.
pub cfg_parse-bare :
    (b : ℕ) (v : Bytes) (c : Config)
    → c.valid ≡ false
    → plain (b ∷ v) && ends_without is_white (b ∷ v) && starts_key (b ∷ v) && lacks b'=' (b ∷ v)
      ≡ true
    → cfg_parse (cfg_output (fields none none (some (b ∷ v)) none ∷ [])) c
      ≡ some (pos 0, record c { valid = true })
unfolding cfg_output output_from print_entry shown
cfg_parse-bare b v c fresh e =
    cfg_parse-loop (cfg_output (fields none none (some (b ∷ v)) none ∷ [])) c c fresh (
      ap (λ t. parse_loop (length t) t c) (printed_bare b v)
      ∙ read_lost (length (v ++ b'\n' ∷ [])) b v c (ground arith) (ground arith) (ground arith)
          (ground arith))
