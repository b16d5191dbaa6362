-- ===== src/Tests/Runs.antt =====
-- Several writes to one configuration file, and items that are printed and scanned.
use tcp_svr.Base.{
  Bytes, List, [], ◌∷◌, codes, Option, none, some, pos, true, str_eq, str_eq_refl, ◌≡◌, refl, map,
  arith, subst,
}
use tcp_svr.Base.{ℤ, ◌&&◌, take, false, if◌then◌else◌}
use tcp_svr.Cfg.Entry.{Entry, error, Config}
use tcp_svr.Cfg.Parse.{fields}
use tcp_svr.Cfg.Output.Printable.{text_ok}
use tcp_svr.Cfg.Output.Formatted.{formatted_fields, all_formatted}
use tcp_svr.Cfg.File.{Handle, cfg_copy}
use tcp_svr.Cfg.File.Copy.{cfg_copy-cfg_read_str}
use tcp_svr.Cfg.Output.{cfg_output}
use tcp_svr.Cfg.Number.{print_number, decimal, decimal_from, atoi}
use tcp_svr.Cfg.Variadic.{cfg_write_item, cfg_get_item}
use tcp_svr.Cfg.Variadic.ReadBack.{scanned, cfg_write_item-cfg_get_item}
use tcp_svr.Cfg.Entry.{is_white}
use tcp_svr.Cfg.Cursor.{remove_quotes, skip_quotes, cut_quote}
use tcp_svr.Cfg.Cursor.Items.{items}
use tcp_svr.Cfg.Cursor.Items.Find.{is_key, lookup}
use tcp_svr.Cfg.Parse.{next_quote, starts_comment}
use tcp_svr.Cfg.Parse.Lines.{plain}
use tcp_svr.Cfg.Output.Printable.{
  ends_without, unblanked, lacks, quiet, header_ok, starts_key, key_ok, value_ok,
}
use tcp_svr.Cfg.Disk.{StaysWritable, Creates}
use tcp_svr.Cfg.File.Api.{cfg_read_str}
use tcp_svr.Cfg.File.Loaded.{value_or}
use tcp_svr.Cfg.File.Run.{
  Setting, AreSettings, replay, write_all, write_all-cfg_read_str, write_all-new_file,
}
use tcp_svr.Cfg.Write.Kept.{Every}
use tcp_svr.Cfg.File.Tidy.{IsBare, IsBare-PlainKeys}
use tcp_svr.Tests.Files.{lan, disk, start, disk-Keeps, start-Holds, start-Accepts}

disk-StaysWritable : StaysWritable disk
disk-StaysWritable st f new a = record {
  can_open = rw (str_eq_refl f) refl;
  can_lock = refl;
  can_truncate = refl;
}

-- Two keys, and the first one again.
abbrev host : Setting
host = record { section = codes "net"; key = codes "host"; value = codes "a" }

abbrev later : List Setting
later =
    record { section = codes "log"; key = codes "size"; value = codes "8" }
    ∷ record { section = codes "net"; key = codes "host"; value = codes "b" }
    ∷ []

settings-ok : AreSettings (host ∷ later)
unfolding AreSettings header_ok key_ok value_ok starts_key quiet lacks unblanked ends_without plain
    is_white next_quote starts_comment is_key remove_quotes skip_quotes cut_quote str_eq
settings-ok = (
  record { title = refl; named = refl; bare = refl; valued = refl },
  (
    record { title = refl; named = refl; bare = refl; valued = refl },
    (record { title = refl; named = refl; bare = refl; valued = refl }, tt),
  ),
)

-- No file exists.
abbrev nothing : disk.State
nothing = λ f. none

nothing-Creates : (f : Bytes) → Creates disk nothing f
nothing-Creates f = record {
  absent = refl;
  memory = refl;
  empty = record {
    is_present = rw (str_eq_refl f) refl;
    memory = refl;
    can_open = rw (str_eq_refl f) refl;
    can_lock = refl;
    mtime = 0;
    stats = rw (disk, str_eq_refl f) refl;
    reads = rw (str_eq_refl f) refl;
  };
  writable = record { can_open = rw (str_eq_refl f) refl; can_lock = refl; can_truncate = refl };
}

lan-IsBare : Every IsBare lan
unfolding Every is_key remove_quotes skip_quotes cut_quote str_eq
lan-IsBare = ((λ i e. cc), ((λ i e. named i e), tt))
  where
    named : (i : Bytes) → some (codes "port") ≡ some i → is_key i i ≡ true
    named i e =
        subst (λ (o : Option Bytes). elim o [ none ↦ Unit {0} | some j ↦ is_key j j ≡ true ]) e refl

write_all-cfg_read_str_example :
    (st' : disk.State) × (write_all disk start (codes "a.ini") (host ∷ later)
      ≡ some (map (λ w. pos 0) (host ∷ later), st'))
    × ((t j default : Bytes)
        → cfg_read_str disk st' (some (codes "a.ini")) (some t) (some j) default
          ≡ some
              ((pos 0, value_or (replay (host ∷ later) t j (lookup t j (items lan))) default), st'))
write_all-cfg_read_str_example =
    write_all-cfg_read_str disk start (codes "a.ini") lan (host ∷ later) disk-Keeps
      disk-StaysWritable (start-Holds (codes "a.ini")) (start-Accepts (codes "a.ini")) lan-IsBare
      settings-ok (omega arith)

write_all-new_file_example :
    (st' : disk.State) × (write_all disk nothing (codes "a.ini") (host ∷ later)
      ≡ some (pos 0 ∷ map (λ w. pos 0) later, st'))
    × ((t j default : Bytes)
        → cfg_read_str disk st' (some (codes "a.ini")) (some t) (some j) default
          ≡ some ((pos 0, value_or (replay (host ∷ later) t j none) default), st'))
write_all-new_file_example =
    write_all-new_file disk nothing (codes "a.ini") host later disk-Keeps disk-StaysWritable
      (nothing-Creates (codes "a.ini")) settings-ok (omega arith)

-- An array with room, and one that says the same with no comment.
abbrev conf : Config
conf = record {
  entries = lan;
  max_entries = 103;
  dirty = false;
  valid = true;
  eof = false;
  kind = error;
  cursor = 0;
  cur_section = none;
  cur_id = none;
  cur_value = none;
}

-- A printer and a scanner of one number.
abbrev print_one : Bytes → ℤ → Option Bytes
print_one fmt n = some (print_number n)

abbrev scan_one : Bytes → Bytes → ℤ → ℤ × ℤ
scan_one text fmt before = elim (atoi text) [ none ↦ (pos 0, before) | some n ↦ (pos 1, n) ]

cfg_write_item-cfg_get_item_example :
    (c' : Config) × (cfg_write_item print_one conf
        (some (codes "net"))
        (some (codes "host"))
        (codes "%d")
        (pos 70)
      ≡ some (pos 0, c'))
    × ((t j rf : Bytes) (before : ℤ)
        → cfg_get_item scan_one c' (some t) (some j) rf before ≡ (
            if str_eq (codes "net") t && str_eq (codes "host") j
            then some (scanned scan_one rf before (some (take 1023 (codes "70"))))
            else cfg_get_item scan_one conf (some t) (some j) rf before))
unfolding is_key remove_quotes skip_quotes cut_quote str_eq print_number decimal decimal_from
cfg_write_item-cfg_get_item_example =
    cfg_write_item-cfg_get_item scan_one print_one conf (codes "net") (codes "host") (codes "%d")
      (codes "70") (pos 70) refl (λ _. omega arith) refl
      (IsBare-PlainKeys (codes "host") lan lan-IsBare) refl

-- A value that goes on in the next line.
abbrev folded : List Entry
folded =
    fields (some (codes "net")) none none none
    ∷ fields none (some (codes "hosts")) (some (codes "a,")) none
    ∷ fields none none (some (codes "b")) (some (codes "spare"))
    ∷ []

folded_formatted : all_formatted folded ≡ true
unfolding all_formatted formatted_fields header_ok key_ok value_ok text_ok starts_key quiet lacks
    unblanked ends_without plain is_white next_quote starts_comment
folded_formatted = refl

abbrev folded_handle : Handle
folded_handle = record {
  file = codes "b.ini";
  image = none;
  size = 0;
  mtime = 0;
  conf = record conf { entries = folded; dirty = true };
}

cfg_copy-cfg_read_str_example :
    (st' : disk.State) × (cfg_copy disk start folded_handle (codes "a.ini") ≡ (pos 0, st'))
    × ((s k default : Bytes)
        → cfg_read_str disk st' (some (codes "a.ini")) (some s) (some k) default
          ≡ some ((pos 0, value_or (lookup s k (items folded)) default), st'))
cfg_copy-cfg_read_str_example =
    cfg_copy-cfg_read_str disk start folded_handle (codes "a.ini") (cfg_output lan) disk-Keeps
      (start-Holds (codes "a.ini")).serves (start-Accepts (codes "a.ini")) refl folded_formatted
