-- ===== src/Cfg/Number/Session.antt =====
-- Writing a number to a file and reading it again.
use tcp_svr.Base.{
  ℕ, suc, Bytes, List, [], ◌∷◌, some, length, ℤ, pos, negsuc, Bool, true, false, ◌==◌, ◌||◌, leb,
  ◌&&◌, str_eq_refl, ◌≡◌, refl, ap, ◌∙◌, subst, arith,
}
use tcp_svr.Cfg.Entry.{Entry, Config, is_white}
use tcp_svr.Cfg.Text.{is_space, is_eol, is_mark}
use tcp_svr.Cfg.Cursor.{cfg_find}
use tcp_svr.Cfg.Cursor.Items.{items}
use tcp_svr.Cfg.Cursor.Items.Find.{lookup, Answers, cfg_find-lookup}
use tcp_svr.Cfg.Parse.{next_quote, starts_comment}
use tcp_svr.Cfg.Parse.Lines.{plain}
use tcp_svr.Cfg.Output.Printable.{ends_without, unblanked, quiet, value_ok}
use tcp_svr.Cfg.Disk.{Disk, Accepts, Keeps}
use tcp_svr.Cfg.File.Api.{copied, get_found, cfg_getstring, with_state}
use tcp_svr.Cfg.File.Loaded.{Holds, loaded, loaded-entries, items-as_parsed, cfg_init-Holds}
use tcp_svr.Cfg.File.Session.{Settable, cfg_write_str-Written}
use tcp_svr.Cfg.Number.{
  decimal_from, decimal, print_number, is_digit, number_from, number_in, cfg_read_int,
  cfg_write_int,
}
use tcp_svr.Cfg.Number.Decimal.{
  all_digits, decimal_from-digits, InInt, length-print_number, atoi-print_number,
}

-- The bytes of a printed number are digits and a sign, which no value ends at.
numeral : Bytes → Bool
numeral [] = true
numeral (b ∷ bs) = (is_digit b || b == b'-') && numeral bs

all_digits-numeral : (s : Bytes) → all_digits s ≡ true → numeral s ≡ true
unfolding all_digits numeral
all_digits-numeral [] p = refl
all_digits-numeral (b ∷ s) p =
    let here : is_digit b ≡ true = ground arith in
    let later : all_digits s ≡ true = ground arith in rw (here, all_digits-numeral s later) refl

print_number-numeral : (v : ℤ) → numeral (print_number v) ≡ true
unfolding print_number decimal numeral is_digit
print_number-numeral (pos n) = all_digits-numeral (decimal n) (decimal_from-digits (suc n) n)
print_number-numeral (negsuc n) =
    all_digits-numeral (decimal_from (suc (suc n)) (suc n))
      (decimal_from-digits (suc (suc n)) (suc n))

numeral-plain : (s : Bytes) → numeral s ≡ true → plain s ≡ true
unfolding numeral plain is_digit
numeral-plain [] p = refl
numeral-plain (b ∷ s) p =
    let later : numeral s ≡ true = ground arith in
    let here : (b == 0 || is_eol b) ≡ false = ground arith in rw (here, numeral-plain s later) refl

numeral-ends : (s : Bytes) → numeral s ≡ true → ends_without is_space s ≡ true
unfolding numeral ends_without is_digit
numeral-ends [] p = refl
numeral-ends (b ∷ []) p = ground arith
numeral-ends (b ∷ c ∷ s) p =
    let later : numeral (c ∷ s) ≡ true = ground arith in numeral-ends (c ∷ s) later

numeral-quiet : (before : ℕ) (s : Bytes) → numeral s ≡ true → quiet 0 before s ≡ true
unfolding numeral quiet is_digit next_quote starts_comment
numeral-quiet before [] p = refl
numeral-quiet before (b ∷ s) p =
    let later : numeral s ≡ true = ground arith in
    let quote : (b == b'"' || b == b'\'') ≡ false = ground arith in
    let mark : is_mark b ≡ false = ground arith in rw (quote, mark) (numeral-quiet b s later)

numeral-unblanked : (s : Bytes) → numeral s ≡ true → unblanked s ≡ true
unfolding numeral unblanked is_digit is_white
numeral-unblanked [] p = refl
numeral-unblanked (b ∷ s) p = ground arith

print_number-value_ok : (v : ℤ) → value_ok (print_number v) ≡ true
unfolding value_ok
print_number-value_ok v =
    let n = print_number-numeral v in
    let s = print_number v in
    rw (numeral-unblanked s n, numeral-plain s n, numeral-ends s n, numeral-quiet 0 s n) refl

-- A value that is found is what `cfg_getstring` copies.
cfg_getstring-found :
    (c : Config) (s k v : Bytes)
    → c.valid ≡ true
    → lookup s k (items c.entries) ≡ some v
    → cfg_getstring c (some s) (some k) ≡ some (pos 0, v)
unfolding cfg_getstring get_found copied
cfg_getstring-found c s k v ok here =
    let (c', done, shown, same) =
      subst (λ o. Answers o c (cfg_find c (some s) (some k))) here (cfg_find-lookup c s k ok) in
    rw (done, get_found, shown) refl

number_from-print_number :
    (v other : ℤ)
    → InInt v
    → number_from (λ x. x) other (some (pos 0, print_number v)) ≡ some (pos 0, v)
unfolding number_from
number_from-print_number v other h =
    let fits : leb 64 (length (print_number v)) ≡ false = ground (arith, length-print_number v h) in
    rw (fits, atoi-print_number v h) refl

module _ (d : Disk) where
  -- `Cfg_WriteInt` of a number of an `int`, to a key of a file that holds the printed text of at most 101
  -- printable entries and can be written, returns 0; `Cfg_ReadInt` of the key then returns 0 and stores
  -- that number, whatever the default. The key is spelled without quotes wherever it stands, and the
  -- section and the key are printable.
  pub cfg_write_int-cfg_read_int :
      (st : d.State) (f : Bytes) (es : List Entry) (s k : Bytes) (v : ℤ)
      → Keeps d
      → Holds d st f es
      → Accepts d st f
      → Settable es s k
      → InInt v
      → (st' : d.State) × (cfg_write_int d st (some f) (some s) (some k) v ≡ some (pos 0, st'))
        × ((before default : ℤ)
            → cfg_read_int d st' (some f) (some s) (some k) before default ≡ some ((pos 0, v), st'))
  unfolding cfg_write_int cfg_read_int number_in with_state
  cfg_write_int-cfg_read_int st f es s k v keeps w a q range =
      let (st', es', x) =
        cfg_write_str-Written d st f es s k (print_number v) keeps w a q
          (print_number-value_ok v) in
      let here : lookup s k (items (loaded es').entries) ≡ some (print_number v) =
        ap (lookup s k) (ap items (loaded-entries es') ∙ items-as_parsed es')
        ∙ x.updates s k
        ∙ rw (str_eq_refl s, str_eq_refl k) refl in
      (
        st',
        x.done,
        λ before default.
            rw
              (
                cfg_init-Holds d st' f false es' x.holds,
                cfg_getstring-found (loaded es') s k (print_number v) refl here,
                number_from-print_number v default range,
              )
              refl,
      )
