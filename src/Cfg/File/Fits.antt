-- ===== src/Cfg/File/Fits.antt =====
-- `Cfg_ReadString` and the size of its buffer.
use tcp_svr.Base.{
  ℕ, ◌<◌, Bytes, List, Option, none, some, length, ℤ, pos, neg, false, leb, if◌then◌else◌, ◌≡◌,
  refl, ap, ◌∙◌, subst, arith, inl, inr, Bool-cases,
}
use tcp_svr.Cfg.Entry.{Entry, Config}
use tcp_svr.Cfg.Cursor.{Outcome, cfg_find}
use tcp_svr.Cfg.Cursor.Items.{items}
use tcp_svr.Cfg.Cursor.Items.Find.{lookup, Answers, cfg_find-lookup}
use tcp_svr.Cfg.Disk.{Disk}
use tcp_svr.Cfg.File.Api.{fit_value, fit_found, with_state, read_string_in, cfg_read_string}
use tcp_svr.Cfg.File.Loaded.{Holds, loaded, loaded-entries, items-as_parsed, cfg_init-Holds}

-- What a reader gets for a value that is there or not: the default where there is none or where it is
-- too long, and nothing where the default is too long itself.
fitted_value : ℕ → Bytes → Option Bytes → ℤ × Bytes
fitted_value size default none = (neg 5, default)
fitted_value size default (some v) = if leb size (length v) then (neg 6, default) else (pos 0, v)

pub fitted : ℕ → Bytes → Bytes → Option Bytes → ℤ × Bytes
fitted size before default o =
    if leb size (length default) then (neg 2, before) else fitted_value size default o

fitted_value-fits :
    (size : ℕ) (default : Bytes) (o : Option Bytes)
    → length default < size
    → length (fitted_value size default o).1 < size
unfolding fitted_value
fitted_value-fits size default none h = h
fitted_value-fits size default (some v) h = elim (Bool-cases (leb size (length v))) [
  | inl long ↦ rw (long, fitted_value) h
  | inr small ↦ rw (small, fitted_value) (ground arith)
]

fitted-fits :
    (size : ℕ) (before default : Bytes) (o : Option Bytes)
    → length before < size
    → length (fitted size before default o).1 < size
unfolding fitted
fitted-fits size before default o h = elim (Bool-cases (leb size (length default))) [
  | inl long ↦ rw (long, fitted) h
  | inr small ↦ rw (small, fitted) (fitted_value-fits size default o (ground arith))
]

fit_found-Answers :
    (size : ℕ) (default : Bytes) (o : Option Bytes) (c : Config) (out : Option Outcome)
    → Answers o c out
    → fit_found size default out ≡ some (fitted_value size default o)
unfolding fit_found fit_value fitted_value
fit_found-Answers size default none c out (c', done, same) = rw done refl
fit_found-Answers size default (some v) c out (c', done, shown, same) =
    elim (Bool-cases (leb size (length v))) [
      | inl long ↦ rw (done, fit_found, shown, fit_value, fitted_value, long) refl
      | inr small ↦ rw (done, fit_found, shown, fit_value, fitted_value, small) refl
    ]

module _ (d : Disk) where
  -- `Cfg_ReadString` of a file that holds the printed text of printable entries never stores more than
  -- the buffer has place for, if what the buffer held before fits: it stores the value with result 0,
  -- the default with -5 for a missing key and -6 for a value too long, and nothing with -2 for a default
  -- too long.
  pub cfg_read_string-fits :
      (st : d.State) (f : Bytes) (es : List Entry) (s k default before : Bytes) (size : ℕ)
      → Holds d st f es
      → length before < size
      → (cfg_read_string d st (some s) (some k) (some default) before size (some f)
          ≡ some (fitted size before default (lookup s k (items es)), st))
        × (length (fitted size before default (lookup s k (items es))).1 < size)
  unfolding cfg_read_string read_string_in with_state fitted
  cfg_read_string-fits st f es s k default before size w h = (
    elim (Bool-cases (leb size (length default))) [
      | inl long ↦ rw (long, fitted) refl
      | inr small ↦
          let same = ap items (loaded-entries es) ∙ items-as_parsed es in
          let answers =
            subst (λ l. Answers (lookup s k l) (loaded es) (cfg_find (loaded es) (some s) (some k)))
              same (cfg_find-lookup (loaded es) s k refl) in
          rw
            (
              small,
              fitted,
              cfg_init-Holds d st f false es w,
              fit_found-Answers size default _ (loaded es) _ answers,
            )
            refl
    ],
    fitted-fits size before default (lookup s k (items es)) h,
  )
