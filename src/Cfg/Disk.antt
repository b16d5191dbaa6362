-- ===== src/Cfg/Disk.antt =====
-- What the configuration files' code calls of the operating system. None of it is in the repository, so it
-- is a parameter: the answers to the calls by the state of the file system, and the states that follow.
use tcp_svr.Base.{ℕ, Bytes, Option, some, length, Bool, true, false, [], ◌≡◌}

pub record Disk : Type 1 where
  pub State : Type 0
  -- access (f, F_OK) == 0
  pub present : State → Bytes → Bool
  -- Whether `calloc` has room for a TCONFIG; the `strdup` of the name is taken to have some.
  pub has_memory : State → Bool
  -- creat (f, 0644), then close
  pub created : State → Bytes → State
  -- open (f, O_RDONLY), and F_SETLK with F_RDLCK on it
  pub opens_read : State → Bytes → Bool
  pub locks_read : State → Bytes → Bool
  -- st_size and st_mtime
  pub fstat : State → Bytes → Option (ℕ × ℕ)
  -- The image of so many bytes, or `none` where malloc fails or read gives fewer.
  pub image_of : State → Bytes → ℕ → Option Bytes
  -- open (f, O_RDWR), F_SETLK with F_WRLCK, and fopen (f, "w")
  pub opens_write : State → Bytes → Bool
  pub locks_write : State → Bytes → Bool
  pub truncates : State → Bytes → Bool
  -- What follows when the text was printed to the truncated file and the file closed.
  pub printed : State → Bytes → Bytes → State

-- A file that can be read and has this content.
pub record Serves (d : Disk) (st : d.State) (f t : Bytes) : Type 0 where
  pub is_present : d.present st f ≡ true
  pub memory : d.has_memory st ≡ true
  pub can_open : d.opens_read st f ≡ true
  pub can_lock : d.locks_read st f ≡ true
  pub mtime : ℕ
  pub stats : d.fstat st f ≡ some (length t, mtime)
  pub reads : d.image_of st f (length t) ≡ some t

-- A file that can be written.
pub record Accepts (d : Disk) (st : d.State) (f : Bytes) : Type 0 where
  pub can_open : d.opens_write st f ≡ true
  pub can_lock : d.locks_write st f ≡ true
  pub can_truncate : d.truncates st f ≡ true

-- What was printed to a file is its content; the other calls go on as before.
abbrev pub Keeps : Disk → Type 0
Keeps d =
    (st : d.State) (f old new : Bytes)
    → Serves d st f old
    → Accepts d st f
    → Serves d (d.printed st f new) f new

-- A file that was written can be written again.
abbrev pub StaysWritable : Disk → Type 0
StaysWritable d = (st : d.State) (f new : Bytes) → Accepts d st f → Accepts d (d.printed st f new) f

-- A file that does not exist, where `creat` makes an empty one that can be read and written.
pub record Creates (d : Disk) (st : d.State) (f : Bytes) : Type 0 where
  pub absent : d.present st f ≡ false
  pub memory : d.has_memory st ≡ true
  pub empty : Serves d (d.created st f) f []
  pub writable : Accepts d (d.created st f) f
