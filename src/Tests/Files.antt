-- ===== src/Tests/Files.antt =====
-- Configuration files: their text, and a file system that holds one.
use tcp_svr.Base.{
  Bytes, List, [], ◌∷◌, ◌++◌, codes, Option, none, some, length, pos, true, str_eq, str_eq_refl,
  if◌then◌else◌, ◌≡◌, refl, map, arith, subst, neg, ◌<◌, take, replicate, ℤ,
}
use tcp_svr.Cfg.Entry.{Entry, Config, is_white, is_some}
use tcp_svr.Cfg.Cursor.{remove_quotes, skip_quotes, cut_quote}
use tcp_svr.Cfg.Cursor.Items.{items}
use tcp_svr.Cfg.Cursor.Items.Find.{is_key, lookup}
use tcp_svr.Cfg.Write.PutKey.{PlainKeys}
use tcp_svr.Cfg.Parse.{next_quote, starts_comment, fields, parse_loop, cfg_parse}
use tcp_svr.Cfg.Parse.Lines.{plain, no_nul, parse_loop-ends}
use tcp_svr.Cfg.Output.{cfg_output}
use tcp_svr.Cfg.Output.Printable.{
  ends_without, unblanked, lacks, quiet, text_ok, header_ok, starts_key, key_ok, value_ok,
  printable_fields, is_printable, all_printable,
}
use tcp_svr.Cfg.Output.RoundTrip.{as_parsed, cfg_parse-cfg_output}
use tcp_svr.Cfg.Disk.{Disk, Accepts, Keeps}
use tcp_svr.Cfg.File.{zeroed}
use tcp_svr.Cfg.File.Loaded.{Holds}
use tcp_svr.Cfg.File.Api.{cfg_read_string}
use tcp_svr.Cfg.File.Fits.{fitted, cfg_read_string-fits}
use tcp_svr.Cfg.Number.{cfg_write_int, cfg_read_int}
use tcp_svr.Cfg.Number.Decimal.{InInt}
use tcp_svr.Cfg.Number.Session.{cfg_write_int-cfg_read_int}
use tcp_svr.Cfg.Listing.{list_sections}
use tcp_svr.Cfg.Listing.Buffer.{splice, joined}
use tcp_svr.Cfg.Listing.Titles.{titles}
use tcp_svr.Cfg.Listing.Filled.{list_sections-titles}
use tcp_svr.Cfg.File.Session.{Settable}

-- A line, an empty one and a comment.
abbrev text : Bytes
text = codes "a=1\n\n;x"

parse_loop-ends_example : (c' : Config) × (parse_loop 8 text zeroed ≡ some c')
unfolding no_nul
parse_loop-ends_example = parse_loop-ends 8 text zeroed (omega arith) refl

-- [net] ;lan, then port=9000
abbrev pub lan : List Entry
lan =
    fields (some (codes "net")) none none (some (codes "lan"))
    ∷ fields none (some (codes "port")) (some (codes "9000")) none
    ∷ []

lan_printable : all_printable lan ≡ true
unfolding all_printable is_printable printable_fields header_ok key_ok value_ok text_ok starts_key
    quiet lacks unblanked ends_without plain is_white next_quote starts_comment
lan_printable = refl

cfg_parse-cfg_output_example :
    (c' : Config) × (cfg_parse (cfg_output lan) zeroed ≡ some (pos 0, c'))
    × (c'.valid ≡ true)
    × (c'.entries ≡ zeroed.entries ++ map as_parsed lan)
cfg_parse-cfg_output_example = cfg_parse-cfg_output lan zeroed refl lan_printable

-- A file system in which every call succeeds on a file that is there.
abbrev pub disk : Disk
disk = record {
  State = Bytes → Option Bytes;
  present = λ st f. is_some (st f);
  has_memory = λ st. true;
  created = λ st f g. if str_eq f g then some [] else st g;
  opens_read = λ st f. is_some (st f);
  locks_read = λ st f. true;
  fstat = λ st f. elim (st f) [ none ↦ none | some t ↦ some (length t, 0) ];
  image_of = λ st f n. st f;
  opens_write = λ st f. is_some (st f);
  locks_write = λ st f. true;
  truncates = λ st f. true;
  printed = λ st f t g. if str_eq f g then some t else st g;
}

pub disk-Keeps : Keeps disk
disk-Keeps st f old new w a = record {
  is_present = rw (str_eq_refl f) refl;
  memory = refl;
  can_open = rw (str_eq_refl f) refl;
  can_lock = refl;
  mtime = 0;
  stats = rw (disk, str_eq_refl f) refl;
  reads = rw (str_eq_refl f) refl;
}

-- All files hold the same text.
abbrev pub start : disk.State
start = λ f. some (cfg_output lan)

pub start-Holds : (f : Bytes) → Holds disk start f lan
start-Holds f = record {
  serves = record {
    is_present = refl;
    memory = refl;
    can_open = refl;
    can_lock = refl;
    mtime = 0;
    stats = refl;
    reads = refl;
  };
  printable = lan_printable;
}

pub start-Accepts : (f : Bytes) → Accepts disk start f
start-Accepts f = record { can_open = refl; can_lock = refl; can_truncate = refl }

lan-Settable : Settable lan (codes "net") (codes "host")
unfolding header_ok key_ok value_ok starts_key quiet lacks unblanked ends_without plain is_white
    next_quote starts_comment is_key remove_quotes skip_quotes cut_quote str_eq PlainKeys
lan-Settable = record {
  title = refl;
  key = refl;
  bare = refl;
  spelled = ((λ i e. cc), ((λ i e. other i cc), tt));
  room = omega arith;
}
  where
    other : (i : Bytes) → codes "port" ≡ i → is_key i (codes "host") ≡ str_eq i (codes "host")
    other i e = subst (λ (x : Bytes). is_key x (codes "host") ≡ str_eq x (codes "host")) e refl

cfg_read_string-fits_example :
    (cfg_read_string disk start
        (some (codes "net"))
        (some (codes "port"))
        (some [])
        []
        8
        (some (codes "a.ini"))
      ≡ some (fitted 8 [] [] (lookup (codes "net") (codes "port") (items lan)), start))
    × (length (fitted 8 [] [] (lookup (codes "net") (codes "port") (items lan))).1 < 8)
cfg_read_string-fits_example =
    cfg_read_string-fits disk start (codes "a.ini") lan (codes "net") (codes "port") [] [] 8
      (start-Holds (codes "a.ini")) (omega arith)

cfg_write_int-cfg_read_int_example :
    (st' : disk.State) × (cfg_write_int disk start
        (some (codes "a.ini"))
        (some (codes "net"))
        (some (codes "host"))
        (neg 10017)
      ≡ some (pos 0, st'))
    × ((before default : ℤ)
        → cfg_read_int disk st'
            (some (codes "a.ini"))
            (some (codes "net"))
            (some (codes "host"))
            before
            default
          ≡ some ((pos 0, neg 10017), st'))
unfolding InInt
cfg_write_int-cfg_read_int_example =
    cfg_write_int-cfg_read_int disk start (codes "a.ini") lan (codes "net") (codes "host")
      (neg 10017) disk-Keeps (start-Holds (codes "a.ini")) (start-Accepts (codes "a.ini"))
      lan-Settable (omega arith)

abbrev opened : Config
opened = record zeroed { entries = lan; valid = true }

-- Four bytes have no place for the second terminator.
list_sections-titles_example :
    (c' : Config) × (list_sections opened 4 (replicate 5 b'?')
      ≡ some (
        length (take 4 (joined (titles (items opened.entries)))),
        splice 0 (take 4 (joined (titles (items opened.entries)) ++ 0 ∷ [])) (replicate 5 b'?'),
        c',
      ))
list_sections-titles_example =
    list_sections-titles opened 4 (replicate 5 b'?') refl (omega arith) (omega arith)
