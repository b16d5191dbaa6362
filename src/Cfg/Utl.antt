-- ===== src/Cfg/Utl.antt =====
-- utl_fgets and utl_fputs of cfgfile.cpp: the first line of a file, and a line put behind it. The calls of the
-- operating system are a parameter; the lock is given back before the file is closed.
use tcp_svr.Cfg.Output.Printable.{lacks}
use tcp_svr.Base.{
  ℕ, zero, suc, ◌<◌, Bytes, [], ◌∷◌, ◌++◌, Option, none, some, length, ℤ, pos, negsuc, neg, Bool,
  true, false, ◌==◌, ◌&&◌, not, if◌then◌else◌, ◌≡◌, refl, ap, ◌∙◌, arith, Bool-cases, inl, inr,
}

pub record Files : Type 1 where
  pub State : Type 0
  -- open (f, O_RDONLY) and F_SETLK with F_RDLCK; open (f, O_RDWR) and F_SETLK with F_WRLCK
  pub opens_read : State → Bytes → Bool
  pub locks_read : State → Bytes → Bool
  pub opens_write : State → Bytes → Bool
  pub locks_write : State → Bytes → Bool
  -- fopen (f, "rb"): what the file holds.
  pub content : State → Bytes → Option Bytes
  -- fopen (f, "a+"), and the state when this text was put behind the file's.
  pub appends : State → Bytes → Bool
  pub appended : State → Bytes → Bytes → State

abbrev is_one : ℤ → Bool
is_one (pos n) = n == 1
is_one (negsuc n) = false

-- What fgets(3) takes with room for so many bytes and the terminator.
unfoldable pub first_line : ℕ → Bytes → Bytes
first_line zero text = []
first_line (suc n) [] = []
first_line (suc n) (b ∷ text) = if b == b'\n' then b ∷ [] else b ∷ first_line n text

-- The line read, where there is one.
pub get_line : Option Bytes → ℤ × Option Bytes
get_line none = (pos 0, none)
get_line (some []) = (neg 3, none)
get_line (some (b ∷ text)) = (pos 1, some (first_line 1023 (b ∷ text)))

module _ (d : Files) where
  -- `has_line` is false for a null pointer.
  pub utl_fgets : d.State → Option Bytes → Bool → ℤ → ℤ × Option Bytes
  utl_fgets st none has_line lock = (neg 1, none)
  utl_fgets st (some f) has_line lock =
      let locked = is_one lock in
      if not has_line
      then (neg 1, none)
      else if locked && not (d.opens_read st f)
      then (neg 2, none)
      else if locked && not (d.locks_read st f)
      then (neg 100, none)
      else get_line (d.content st f)

  pub utl_fputs : d.State → Option Bytes → Option Bytes → ℤ → ℤ × d.State
  utl_fputs st (some f) (some line) lock =
      let locked = is_one lock in
      if locked && not (d.opens_write st f)
      then (neg 2, st)
      else if locked && not (d.locks_write st f)
      then (neg 100, st)
      else if d.appends st f
      then (pos 0, d.appended st f (line ++ b'\n' ∷ []))
      else (pos 0, st)
  utl_fputs st _ _ lock = (neg 1, st)

-- A text behind what the file holds; it can be read as before.
pub record Keeps (d : Files) : Type 0 where
  pub text :
      (st : d.State) (f old new : Bytes)
      → d.content st f ≡ some old
      → d.appends st f ≡ true
      → d.content (d.appended st f new) f ≡ some (old ++ new)
  pub opens :
      (st : d.State) (f new : Bytes) → d.opens_read (d.appended st f new) f ≡ d.opens_read st f
  pub locks :
      (st : d.State) (f new : Bytes) → d.locks_read (d.appended st f new) f ≡ d.locks_read st f

-- A file on which all calls succeed.
pub record Open (d : Files) (st : d.State) (f : Bytes) : Type 0 where
  pub reads : d.opens_read st f ≡ true
  pub read_lock : d.locks_read st f ≡ true
  pub writes : d.opens_write st f ≡ true
  pub write_lock : d.locks_write st f ≡ true
  pub more : d.appends st f ≡ true

first_line-whole :
    (n : ℕ) (line : Bytes)
    → lacks b'\n' line ≡ true
    → length line < n
    → first_line n (line ++ b'\n' ∷ []) ≡ line ++ b'\n' ∷ []
unfolding first_line lacks
first_line-whole zero line p h = absurd (omega arith)
first_line-whole (suc n) [] p h = refl
first_line-whole (suc n) (b ∷ line) p h =
    let here : (b == b'\n') ≡ false = ground arith in
    let later : lacks b'\n' line ≡ true = ground arith in
    rw (here, first_line-whole n line later (omega arith)) refl

get_line-whole :
    (line : Bytes)
    → lacks b'\n' line ≡ true
    → length line < 1023
    → get_line (some (line ++ b'\n' ∷ [])) ≡ (pos 1, some (line ++ b'\n' ∷ []))
unfolding get_line
get_line-whole [] p h = ap (λ x. (pos 1, some x)) (first_line-whole 1023 [] p h)
get_line-whole (b ∷ line) p h = ap (λ x. (pos 1, some x)) (first_line-whole 1023 (b ∷ line) p h)

module _ (d : Files) where
  utl_fputs-done :
      (st : d.State) (f line : Bytes) (lock : ℤ)
      → Open d st f
      → utl_fputs d st (some f) (some line) lock ≡ (pos 0, d.appended st f (line ++ b'\n' ∷ []))
  unfolding utl_fputs
  utl_fputs-done st f line lock o = elim (Bool-cases (is_one lock)) [
    | inl locked ↦ rw (locked, o.writes, o.write_lock, o.more) refl
    | inr free ↦ rw (free, o.more) refl
  ]

  utl_fgets-done :
      (st : d.State) (f : Bytes) (lock : ℤ)
      → d.opens_read st f ≡ true
      → d.locks_read st f ≡ true
      → utl_fgets d st (some f) true lock ≡ get_line (d.content st f)
  unfolding utl_fgets
  utl_fgets-done st f lock opens locks = elim (Bool-cases (is_one lock)) [
    | inl locked ↦ rw (locked, opens, locks) refl
    | inr free ↦ rw free refl
  ]

  -- After utl_fputs of a line of at most 1022 bytes, with no line feed in it, to an empty file on which all calls succeed, which returns 0,
  -- utl_fgets returns 1 and the line with a line feed behind it, whether or not the file is locked.
  pub utl_fputs-utl_fgets :
      (st : d.State) (f line : Bytes) (lock lock' : ℤ)
      → Keeps d
      → Open d st f
      → d.content st f ≡ some []
      → lacks b'\n' line ≡ true
      → length line < 1023
      → (st' : d.State) × (utl_fputs d st (some f) (some line) lock ≡ (pos 0, st'))
        × (utl_fgets d st' (some f) true lock' ≡ (pos 1, some (line ++ b'\n' ∷ [])))
  utl_fputs-utl_fgets st f line lock lock' keeps o empty p short = (
    d.appended st f (line ++ b'\n' ∷ []),
    utl_fputs-done st f line lock o,
    utl_fgets-done (d.appended st f (line ++ b'\n' ∷ [])) f lock'
          (keeps.opens st f (line ++ b'\n' ∷ []) ∙ o.reads)
          (keeps.locks st f (line ++ b'\n' ∷ []) ∙ o.read_lock)
        ∙ ap get_line (keeps.text st f [] (line ++ b'\n' ∷ []) empty o.more)
        ∙ get_line-whole line p short,
  )
