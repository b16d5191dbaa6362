-- ===== src/Tests/Startup.antt =====
-- The start of the server from a configuration file.
use tcp_svr.Base.{Bytes, codes, some, pos, neg, true, false, str_eq, ◌≡◌, refl, arith, subst}
use tcp_svr.Cfg.Cursor.{remove_quotes, skip_quotes, cut_quote}
use tcp_svr.Cfg.Cursor.Items.{items, item_of}
use tcp_svr.Cfg.Cursor.Items.Find.{is_key, lookup}
use tcp_svr.Cfg.Entry.{is_white}
use tcp_svr.Cfg.Parse.Lines.{plain}
use tcp_svr.Cfg.Write.PutKey.{PlainKeys}
use tcp_svr.Cfg.Output.Printable.{ends_without, lacks, header_ok, starts_key, key_ok}
use tcp_svr.Cfg.File.Session.{Settable}
use tcp_svr.Cfg.Number.{cfg_write_int}
use tcp_svr.Cfg.Number.Decimal.{InInt}
use tcp_svr.Svr.Listener.{init, run, initial}
use tcp_svr.Svr.Start.{Main, tcp_svr_init}
use tcp_svr.Svr.Start.Port.{tcp_svr_init-default, cfg_write_int-tcp_svr_init}
use tcp_svr.Tests.Files.{lan, disk, start, disk-Keeps, start-Holds, start-Accepts}

abbrev idle : Main
idle = record { port = pos 0; state = init; has_thread = false; table = initial }

-- There is no section `tcp`.
tcp_svr_init-default_example :
    tcp_svr_init disk true start (some (codes "a.ini")) idle
    ≡ some ((neg 1, record idle { port = pos 10017 }), start)
unfolding items item_of lookup str_eq
tcp_svr_init-default_example =
    tcp_svr_init-default disk true start (codes "a.ini") lan idle (start-Holds (codes "a.ini")) refl

lan-Settable : Settable lan (codes "tcp") (codes "port")
unfolding header_ok key_ok starts_key lacks ends_without plain is_white is_key remove_quotes
    skip_quotes cut_quote str_eq PlainKeys
lan-Settable = record {
  title = refl;
  key = refl;
  bare = refl;
  spelled = ((λ i e. cc), ((λ i e. other i cc), tt));
  room = omega arith;
}
  where
    other : (i : Bytes) → codes "port" ≡ i → is_key i (codes "port") ≡ str_eq i (codes "port")
    other i e = subst (λ (x : Bytes). is_key x (codes "port") ≡ str_eq x (codes "port")) e refl

cfg_write_int-tcp_svr_init_example :
    (st' : disk.State) × (cfg_write_int disk start
        (some (codes "a.ini"))
        (some (codes "tcp"))
        (some (codes "port"))
        (pos 17030)
      ≡ some (pos 0, st'))
    × ((m : Main)
        → (tcp_svr_init disk true st' (some (codes "a.ini")) m
            ≡ some (
              (
                pos 1,
                record m { port = pos 17030; state = run; has_thread = true; table = initial },
              ),
              st',
            ))
          × (tcp_svr_init disk false st' (some (codes "a.ini")) m
              ≡ some (
                (neg 2, record m { port = pos 17030; has_thread = false; table = initial }),
                st',
              )))
unfolding InInt
cfg_write_int-tcp_svr_init_example =
    cfg_write_int-tcp_svr_init disk start (codes "a.ini") lan (pos 17030) disk-Keeps
      (start-Holds (codes "a.ini")) (start-Accepts (codes "a.ini")) lan-Settable (omega arith)
