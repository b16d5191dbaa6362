-- ===== src/Cfg/Text.antt =====
-- The character tests and string helpers that the parser and the printers of cfgfile.cpp share.
use tcp_svr.Base.{ℕ, Bytes, [], ◌∷◌, Option, none, some, Bool, ◌==◌, ◌||◌, ◌&&◌, leb, if◌then◌else◌}
use tcp_svr.Cfg.Entry.{is_white}

-- `iseolchar`, of a character that is not the terminator.
abbrev pub is_eol : ℕ → Bool
is_eol c = c == 10 || c == 13 || c == 26

-- `isspace`, in the "C" locale
abbrev pub is_space : ℕ → Bool
is_space c = c == 32 || leb 9 c && leb c 13

-- COMMENT_MAGIC_01 or COMMENT_MAGIC_02
abbrev pub is_mark : ℕ → Bool
is_mark c = c == b';' || c == b'#'

unfoldable pub cfg_skipwhite : Bytes → Bytes
cfg_skipwhite [] = []
cfg_skipwhite (b ∷ bs) = if is_white b then cfg_skipwhite bs else b ∷ bs

-- A string without the characters of a kind at its end.
unfoldable pub trim_end : (ℕ → Bool) → Bytes → Bytes
trim_end p [] = []
trim_end p (b ∷ bs) = elim (trim_end p bs) [ [] ↦ if p b then [] else b ∷ [] | c ∷ cs ↦ b ∷ c ∷ cs ]

-- The string that `rtrim` leaves; it returns NULL where that is empty.
abbrev pub rtrim : Bytes → Bytes
rtrim = trim_end is_space

-- `strchr`, with the string cut there: what stands before the character, and behind it.
unfoldable pub cut_at : ℕ → Bytes → Option (Bytes × Bytes)
cut_at c [] = none
cut_at c (b ∷ bs) =
    let later = cut_at c bs in
    if b == c
    then some ([], bs)
    else elim later [ none ↦ none | some (before, behind) ↦ some (b ∷ before, behind) ]
