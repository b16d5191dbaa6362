-- ===== src/Log/Size.antt =====
-- The size of a log file.
use tcp_svr.Base.{
  ℕ, suc, ◌+◌, ◌-◌, ◌≤◌, ◌<◌, Bytes, ◌++◌, codes, Option, none, some, length, ◌⊎◌, length-append,
  length-replicate, replicate, ℤ, pos, false, ◌==◌, ◌||◌, ltb, leb, ◌≡◌, refl, arith, inl, inr,
  Bool-cases,
}
use tcp_svr.Cfg.Number.{decimal}
use tcp_svr.Cfg.Number.Decimal.{powers, length-decimal_from}
use tcp_svr.Log.{
  LogDisk, Time, padded, log_line_limit, stamped, dated, full_name, put_line, write_log,
  log_msg_line2,
}

-- What stat, fputs and an fopen that succeeds promise where there is room on the disk; fopen may fail.
pub record Grows (d : LogDisk) : Type 0 where
  pub put_size : (st : d.State) (f s : Bytes) → d.size (d.put st f s) f ≡ d.size st f + length s
  pub truncates : (st st' : d.State) (f : Bytes) → d.truncated st f ≡ some st' → d.size st' f ≡ 0
  pub appends :
      (st st' : d.State) (f : Bytes) → d.appending st f ≡ some st' → d.size st' f ≡ d.size st f

-- A time with a year of four digits.
pub record InRange (t : Time) : Type 0 where
  pub year : t.year < 10000
  pub month : t.month < 100
  pub day : t.day < 100
  pub hour : t.hour < 100
  pub minute : t.minute < 100
  pub second : t.second < 100

length-padded : (k n : ℕ) → n < powers (suc k) → length (padded (suc k) n) ≡ suc k
unfolding padded decimal
length-padded k n h =
    let digits : length (decimal n) ≤ suc k = length-decimal_from (suc n) k n h in
    let zeros : length (replicate {A = ℕ} (suc k - length (decimal n)) b'0')
        ≡ suc k - length (decimal n) =
      length-replicate {A = ℕ} (suc k - length (decimal n)) b'0' in
    omega (
      arith,
      length-append (replicate {A = ℕ} (suc k - length (decimal n)) b'0') (decimal n),
      zeros,
      digits,
    )

year_length : (n : ℕ) → n < 10000 → length (padded 4 n) ≡ 4
unfolding powers
year_length n h = length-padded 3 n h

field_length : (n : ℕ) → n < 100 → length (padded 2 n) ≡ 2
unfolding powers
field_length n h = length-padded 1 n h

length-stamped : (t : Time) (line : Bytes) → InRange t → length (stamped t line) ≡ 18 + length line
unfolding stamped
length-stamped t line r =
    simp
      (
        length-append,
        year_length t.year r.year,
        field_length t.month r.month,
        field_length t.day r.day,
        field_length t.hour r.hour,
        field_length t.minute r.minute,
        field_length t.second r.second,
      )
      (omega arith)

length-dated : (t : Time) (name : Bytes) → InRange t → length (dated t name) ≡ length name + 16
unfolding dated
length-dated t name r =
    simp
      (
        length-append,
        year_length t.year r.year,
        field_length t.month r.month,
        field_length t.day r.day,
        field_length t.hour r.hour,
        field_length t.minute r.minute,
        field_length t.second r.second,
      )
      (omega arith)

module _ (d : LogDisk) where
  -- What comes of a line and its text with the stamp. Where fopen succeeds, the file is smaller than the limit and the text
  -- together. Where it fails, nothing is put: the disk is as it was, but for a renaming.
  abbrev pub Logged : d.State → Bytes → Bytes → ℕ → Bytes → Bytes → Option (ℤ × d.State) → Type 0
  Logged st name moved limit line text o =
      ((out : d.State) × (o ≡ some (pos (length text), out))
        × (d.size out name < limit + length text))
      ⊎ ((out : d.State) × (o ≡ some (pos (length line), out))
          × ((out ≡ st) ⊎ (out ≡ d.renamed st name moved))
          × ((d.truncated out name ≡ none) ⊎ (d.appending out name ≡ none)))

  -- A line put to a file, if it was opened.
  put_line-Logged :
      (st st0 : d.State) (name moved line text : Bytes) (limit : ℕ) (o : Option d.State)
      → Grows d
      → ((st' : d.State) → o ≡ some st' → d.size st' name < limit)
      → (o ≡ none → (d.truncated st name ≡ none) ⊎ (d.appending st name ≡ none))
      → (st ≡ st0) ⊎ (st ≡ d.renamed st0 name moved)
      → Logged st0 name moved limit line text (some (put_line d st name line text o))
  unfolding put_line
  put_line-Logged st st0 name moved line text limit none g h shut from =
      inr (st, refl, from, shut refl)
  put_line-Logged st st0 name moved line text limit (some st') g h shut from =
      inl (d.put st' name text, refl, omega (arith, g.put_size st' name text, h st' refl))

  write_log-Logged :
      (st : d.State) (name line : Bytes) (t : Time) (limit : ℕ)
      → Grows d
      → length name < 128
      → length (dated t name) < 128
      → length (stamped t line) < 1032
      → 1 ≤ limit
      → Logged st name (dated t name) limit line (stamped t line) (write_log d st name line t limit)
  unfolding write_log
  write_log-Logged st name line t limit g short long fits positive =
      let no_overrun : (leb 128 (length name) || leb 1032 (length (stamped t line))) ≡ false =
        ground arith in
      let no_overrun2 : leb 128 (length (dated t name)) ≡ false = ground arith in
      let text = stamped t line in
      let moved = d.renamed st name (dated t name) in
      elim (Bool-cases (d.size st name == 0)) [
        | inl empty ↦
            rw (no_overrun, empty, write_log)
              (put_line-Logged st st name (dated t name) line text limit _ g
                (λ st' opened. omega (arith, g.truncates st st' name opened, positive))
                (λ shut. inl shut) (inl refl))
        | inr more ↦ elim (Bool-cases (leb limit (d.size st name))) [
          | inl full ↦
              rw (no_overrun, more, full, no_overrun2, write_log)
                (put_line-Logged moved st name (dated t name) line text limit _ g
                  (λ st' opened. omega (arith, g.truncates moved st' name opened, positive))
                  (λ shut. inl shut) (inr refl))
          | inr room ↦
              let below : d.size st name < limit = ground arith in
              rw (no_overrun, more, room, write_log)
                (put_line-Logged st st name (dated t name) line text limit _ g
                  (λ st' opened. omega (arith, g.appends st st' name opened, below))
                  (λ shut. inr shut) (inl refl))
        ]
      ]

  -- `Log_MsgLine2` with a limit of at least 1, where the disk has room, the year has four digits, the names of the directory
  -- and of the file have at most 110 bytes together and the line has at most 1000, faults nowhere. Either it returns the length
  -- of the line with its stamp of 18 bytes, and leaves a file that is smaller than the limit and that line together; or fopen
  -- fails, it returns the length of the line, and nothing but a renaming was done.
  pub log_msg_line2-size :
      (st : d.State) (dir name line : Bytes) (limit : ℕ) (t : Time)
      → Grows d
      → InRange t
      → length dir + length name ≤ 110
      → length line ≤ 1000
      → 1 ≤ limit
      → let full = full_name dir name in
        (length (stamped t line) ≡ 18 + length line)
        × Logged st full
            (dated t full)
            limit
            line
            (stamped t line)
            (log_msg_line2 d st (some dir) (some name) (some line) limit t)
  unfolding log_msg_line2 full_name
  log_msg_line2-size st dir name line limit t g r names short positive =
      let full = full_name dir name in
      let size : length full ≡ length dir + 1 + length name =
        omega (arith, length-append (dir ++ codes "/") name, length-append dir (codes "/")) in
      let asked : (limit == 0) ≡ false = ground arith in
      let taken : ltb log_line_limit (length line) ≡ false = ground arith in
      (
        length-stamped t line r,
        rw (asked, taken)
            (write_log-Logged st full line t limit g (omega (arith, size, names))
              (omega (arith, size, names, length-dated t full r))
              (omega (arith, length-stamped t line r, short)) positive),
      )
