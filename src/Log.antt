-- ===== src/Log.antt =====
-- `ctcpsvr/logfile.cpp`: lines with a time stamp in a file that is renamed when it has grown to its limit.
-- `none` is a write behind a buffer of names or of a line, or a mutex in the wrong state.
pub mod Size
use tcp_svr.Base.{
  ℕ, zero, suc, ◌+◌, ◌-◌, Bytes, List, [], ◌∷◌, ◌++◌, codes, Option, none, some, length, replicate,
  ℤ, pos, neg, Bool, true, false, ◌==◌, ltb, leb, not, ◌&&◌, ◌||◌, if◌then◌else◌,
}
use tcp_svr.Cfg.Number.{decimal}

-- stat, rename, fopen and fputs, by the state of the file system.
pub record LogDisk : Type 1 where
  pub State : Type 0
  -- st_size, or 0 where stat fails
  pub size : State → Bytes → ℕ
  pub renamed : State → Bytes → Bytes → State
  -- fopen (f, "w+") and fopen (f, "a+"), where they give a file
  pub truncated : State → Bytes → Option State
  pub appending : State → Bytes → Option State
  -- fputs, fflush and fclose
  pub put : State → Bytes → Bytes → State

-- What `localtime` gives, with the year counted from 0 and the month from 1.
pub record Time : Type 0 where
  pub year : ℕ
  pub month : ℕ
  pub day : ℕ
  pub hour : ℕ
  pub minute : ℕ
  pub second : ℕ

-- "%0*d"
pub padded : ℕ → ℕ → Bytes
padded width n = replicate (width - length (decimal n)) b'0' ++ decimal n

abbrev pub log_line_limit : ℕ
log_line_limit = 1000

-- gsLine: "%04d%02d%02d-%02d:%02d:%02d %s"
pub stamped : Time → Bytes → Bytes
stamped t line =
    padded 4 t.year
    ++ padded 2 t.month
    ++ padded 2 t.day
    ++ codes "-"
    ++ padded 2 t.hour
    ++ codes ":"
    ++ padded 2 t.minute
    ++ codes ":"
    ++ padded 2 t.second
    ++ codes " "
    ++ line

-- destFilename: "%s-%04d%02d%02d-%02d%02d%02d"
pub dated : Time → Bytes → Bytes
dated t name =
    name
    ++ codes "-"
    ++ padded 4 t.year
    ++ padded 2 t.month
    ++ padded 2 t.day
    ++ codes "-"
    ++ padded 2 t.hour
    ++ padded 2 t.minute
    ++ padded 2 t.second

-- "%s/" and the name
pub full_name : Bytes → Bytes → Bytes
full_name dir name = dir ++ codes "/" ++ name

-- gLogThrdLock: before pthread_mutex_init and after pthread_mutex_destroy, and in use.
pub data Lock : Type 0 where
  dead unlocked locked : Lock

-- gLogDir, gMaxLogFileSize, gLogInitFlag and gLogThrdLock.
pub record Logger : Type 0 where
  pub lock : Lock
  pub dir : Bytes
  pub max_size : ℕ
  pub ready : Bool

-- LOG_FILE_LIMIT and LOG_FILE_DIR
abbrev pub no_logger : Logger
no_logger = record { lock = dead; dir = codes "./logs/"; max_size = 10000000; ready = false }

-- The size is kept where it is not between 2 KB and 500 KB.
pub init_size : Logger → ℕ → Logger
init_size g size = record g {
  lock = unlocked;
  max_size = if ltb 2000 size && leb size 500000 then size else g.max_size;
  ready = true;
}

-- `Log_Init`; gLogDir has 256 bytes.
pub log_init : Logger → Option Bytes → ℕ → Option (ℤ × Logger)
log_init g none size = if g.ready then some (pos 0, g) else some (pos 0, init_size g size)
log_init g (some dir) size =
    if g.ready
    then some (pos 0, g)
    else if ltb 256 (length dir)
    then some (neg 1, g)
    else if length dir == 256
    then none
    else some (pos 0, init_size (record g { dir = dir }) size)

-- `Log_UnInit`; a mutex that is destroyed is in use, and nobody holds it.
pub log_uninit : Logger → Option (ℤ × Logger)
log_uninit g =
    if g.ready
    then elim g.lock [
      | unlocked ↦ some (pos 0, record g { lock = dead; ready = false })
      | dead ↦ none
      | locked ↦ none
    ]
    else some (pos 0, g)

module _ (d : LogDisk) where
  -- The line is put to the file that was opened; without one, the length of `sLine` stays the result.
  pub put_line : d.State → Bytes → Bytes → Bytes → Option d.State → ℤ × d.State
  put_line st name line text none = (pos (length line), st)
  put_line st name line text (some st') = (pos (length text), d.put st' name text)

  -- The file by its size; FullFileName and destFilename have 128 bytes.
  pub write_log : d.State → Bytes → Bytes → Time → ℕ → Option (ℤ × d.State)
  write_log st name line t limit =
      let text = stamped t line in
      let size = d.size st name in
      if leb 128 (length name) || leb 1032 (length text)
      then none
      else if size == 0
      then some (put_line st name line text (d.truncated st name))
      else if leb limit size
      then (if leb 128 (length (dated t name))
          then none
          else let moved = d.renamed st name (dated t name) in
            some (put_line moved name line text (d.truncated moved name)))
      else some (put_line st name line text (d.appending st name))

  -- `Log_MsgLine2`, at a time
  pub log_msg_line2 :
      d.State → Option Bytes → Option Bytes → Option Bytes → ℕ → Time → Option (ℤ × d.State)
  log_msg_line2 st (some dir) (some name) (some line) limit t =
      if limit == 0
      then some (neg 1, st)
      else if ltb log_line_limit (length line)
      then some (neg 2, st)
      else write_log st (full_name dir name) line t limit
  log_msg_line2 st _ _ _ limit t = some (neg 1, st)

  -- The mutex is given back behind the line.
  abbrev unlock : Logger → Option (ℤ × d.State) → Option (ℤ × Logger × d.State)
  unlock g none = none
  unlock g (some (ret, st)) = some (ret, record g { lock = unlocked }, st)

  -- `Log_MsgLine`
  pub log_msg_line :
      Logger → d.State → Option Bytes → Option Bytes → Time → Option (ℤ × Logger × d.State)
  log_msg_line g st name line t = elim g.lock [
    | unlocked ↦
        unlock (record g { lock = locked }) (log_msg_line2 st (some g.dir) name line g.max_size t)
    | dead ↦ none
    | locked ↦ none
  ]
