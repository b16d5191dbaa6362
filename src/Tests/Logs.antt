-- ===== src/Tests/Logs.antt =====
-- A log file on a file system that keeps the sizes of its files.
use tcp_svr.Base.{
  ℕ, ◌+◌, Bytes, codes, some, length, str_eq, str_eq_refl, if◌then◌else◌, ◌≡◌, refl, arith, sym, ap,
  ◌∙◌, Option, none,
}
use tcp_svr.Log.{LogDisk, Time, stamped, dated, full_name, log_msg_line2}
use tcp_svr.Log.Size.{Grows, InRange, Logged, log_msg_line2-size}

abbrev sizes : LogDisk
sizes = record {
  State = Bytes → ℕ;
  size = λ st f. st f;
  renamed = λ st f g h. if str_eq f h then 0 else if str_eq g h then st f else st h;
  truncated = λ st f. some (λ h. if str_eq f h then 0 else st h);
  appending = λ st f. some st;
  put = λ st f s h. if str_eq f h then st h + length s else st h;
}

size_of : Bytes → Option (Bytes → ℕ) → ℕ
size_of f none = 0
size_of f (some st) = st f

sizes-Grows : Grows sizes
unfolding size_of
sizes-Grows = record {
  put_size = λ st f s. rw (sizes, str_eq_refl f) refl;
  truncates = λ st st' f e. sym (ap (size_of f) e) ∙ rw (str_eq_refl f) refl;
  appends = λ st st' f e. sym (ap (size_of f) e);
}

abbrev noon : Time
noon = record { year = 2021; month = 3; day = 14; hour = 12; minute = 0; second = 9 }

noon-InRange : InRange noon
noon-InRange = record {
  year = omega arith;
  month = omega arith;
  day = omega arith;
  hour = omega arith;
  minute = omega arith;
  second = omega arith;
}

-- The file has grown over its limit.
log_msg_line2-size_example :
    let full = full_name (codes "logs") (codes "a") in
    (length (stamped noon (codes "on")) ≡ 18 + length (codes "on"))
    × Logged sizes
        (λ f. 5000)
        full
        (dated noon full)
        4000
        (codes "on")
        (stamped noon (codes "on"))
        (log_msg_line2 sizes
          (λ f. 5000)
          (some (codes "logs"))
          (some (codes "a"))
          (some (codes "on"))
          4000
          noon)
log_msg_line2-size_example =
    log_msg_line2-size sizes (λ f. 5000) (codes "logs") (codes "a") (codes "on") 4000 noon
      sizes-Grows noon-InRange (omega arith) (omega arith) (omega arith)
