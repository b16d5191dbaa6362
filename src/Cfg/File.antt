-- ===== src/Cfg/File.antt =====
-- TCONFIG with its file: `cfg_freeimage`, `cfg_refresh`, `cfg_init`, `cfg_commit` and `cfg_copy`, with
-- CFG_FLOCK_POSIX; after `cfg_done`, which frees it, nothing uses a handle. An outcome of `none` is a parser that does not end, or a fault.
pub mod Api
pub mod Loaded
pub mod Tidy
pub mod Session
pub mod Run
pub mod Contents
pub mod Copy
pub mod Fits
use tcp_svr.Base.{
  ℕ, Bytes, List, [], Option, none, some, ℤ, pos, neg, is_neg, is_zero, Bool, true, false, ◌==◌,
  ◌&&◌, not, if◌then◌else◌,
}
use tcp_svr.Cfg.Entry.{Config, error, is_some}
use tcp_svr.Cfg.Parse.{cfg_parse}
use tcp_svr.Cfg.Output.{cfg_output, cfg_outputformatted}
use tcp_svr.Cfg.Disk.{Disk}

pub record Handle : Type 0 where
  pub file : Bytes
  pub image : Option Bytes
  pub size : ℕ
  pub mtime : ℕ
  pub conf : Config

-- memset (pconfig, 0, sizeof (TCONFIG))
abbrev pub zeroed : Config
zeroed = record {
  entries = [];
  max_entries = 0;
  dirty = false;
  valid = false;
  eof = false;
  kind = error;
  cursor = 0;
  cur_section = none;
  cur_id = none;
  cur_value = none;
}

-- The memory that it gives back is not modelled.
unfoldable pub cfg_freeimage : Handle → Handle
cfg_freeimage h = record h { image = none; size = 0; mtime = 0; conf = zeroed }

-- The label `End` of `cfg_refresh` with a negative result.
unfoldable pub refresh_failed : ℕ → Handle → ℤ × Handle
refresh_failed code h = (neg code, record h { image = none; size = 0 })

unfoldable pub refresh_parsed : Handle → Option (ℤ × Config) → Option (ℤ × Handle)
refresh_parsed h none = none
refresh_parsed h (some (ret, c)) =
    if is_neg ret
    then some (refresh_failed 5 (cfg_freeimage h))
    else some (pos 0, record h { conf = c })

-- "Store the new copy", once it was read.
unfoldable pub refresh_read : Handle → ℕ → ℕ → Option Bytes → Option (ℤ × Handle)
refresh_read h size mtime none = some (refresh_failed 4 h)
refresh_read h size mtime (some mem) =
    refresh_parsed (record (cfg_freeimage h) { image = some mem; size = size; mtime = mtime })
      (cfg_parse mem zeroed)

module _ (d : Disk) where
  unfoldable pub refresh_stat : d.State → Handle → Option (ℕ × ℕ) → Option (ℤ × Handle)
  refresh_stat st h none = some (refresh_failed 3 h)
  refresh_stat st h (some (size, mtime)) =
      if is_some h.image && size == h.size && mtime == h.mtime
      then some (pos 0, h)
      else refresh_read (if h.conf.dirty then cfg_freeimage h else h) size mtime
          (d.image_of st h.file size)

  unfoldable pub cfg_refresh : d.State → Handle → Option (ℤ × Handle)
  cfg_refresh st h =
      if not (d.opens_read st h.file)
      then some (refresh_failed 2 h)
      else if not (d.locks_read st h.file)
      then some (refresh_failed 100 h)
      else refresh_stat st h (d.fstat st h.file)

  -- The result, `*ppconf` and the state after a call of `cfg_init`.
  abbrev pub Opened : Type 0
  Opened = Option ((ℤ × Option Handle) × d.State)

  -- `calloc` and `strdup`
  abbrev pub new_handle : Bytes → Handle
  new_handle f = record { file = f; image = none; size = 0; mtime = 0; conf = zeroed }

  -- The handle is set only where the result is 0; `cfg_done` takes the other ones.
  unfoldable pub init_done : d.State → Option (ℤ × Handle) → Opened
  init_done st none = none
  init_done st (some (ret, h)) =
      if is_zero ret then some ((pos 0, some h), st) else some ((neg 11, none), st)

  unfoldable pub init_new : d.State → Bytes → Bool → Opened
  init_new st f exists =
      let st' = if exists then st else d.created st f in
      if d.has_memory st
      then init_done st' (cfg_refresh st' (new_handle f))
      else some ((neg 3, none), st)

  unfoldable pub cfg_init : d.State → Option Bytes → Bool → Opened
  cfg_init st none create = some ((neg 1, none), st)
  cfg_init st (some f) create =
      if not (d.present st f) && not create
      then some ((neg 2, none), st)
      else init_new st f (d.present st f)

  -- The part of `cfg_commit` and of `cfg_copy` that opens, locks and truncates a file: a negative result, or 0.
  unfoldable pub open_output : d.State → Bytes → ℤ
  open_output st f =
      if not (d.opens_write st f)
      then neg 4
      else if not (d.locks_write st f)
      then neg 100
      else if not (d.truncates st f)
      then neg 2
      else pos 0

  unfoldable pub cfg_commit : d.State → Handle → (ℤ × Handle) × d.State
  cfg_commit st h =
      let ret = open_output st h.file in
      if not h.conf.valid
      then ((neg 1, h), st)
      else if not h.conf.dirty
      then ((pos 0, h), st)
      else if is_neg ret
      then ((ret, h), st)
      else (
        (pos 0, record h { conf = record h.conf { dirty = false } }),
        d.printed st h.file (cfg_output h.conf.entries),
      )

  unfoldable pub cfg_copy : d.State → Handle → Bytes → ℤ × d.State
  cfg_copy st h f =
      let ret = open_output st f in
      if not h.conf.valid
      then (neg 1, st)
      else if is_neg ret
      then (ret, st)
      else (pos 0, d.printed st f (cfg_outputformatted h.conf.entries))
