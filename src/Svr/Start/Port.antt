-- ===== src/Svr/Start/Port.antt =====
-- The port that the server listens on.
use tcp_svr.Base.{
  codes, Bytes, List, [], none, some, ℤ, pos, neg, Bool, true, false, ◌≡◌, refl, ap, ◌∙◌, subst,
}
use tcp_svr.Cfg.Entry.{Entry, Config}
use tcp_svr.Cfg.Cursor.{cfg_find}
use tcp_svr.Cfg.Cursor.Items.{items}
use tcp_svr.Cfg.Cursor.Items.Find.{lookup, Answers, cfg_find-lookup}
use tcp_svr.Cfg.Disk.{Disk, Accepts, Keeps}
use tcp_svr.Cfg.File.Api.{get_found, cfg_getstring, with_state}
use tcp_svr.Cfg.File.Loaded.{Holds, loaded, loaded-entries, items-as_parsed, cfg_init-Holds}
use tcp_svr.Cfg.File.Session.{Settable}
use tcp_svr.Cfg.Number.{number_from, number_in, cfg_read_int, cfg_write_int}
use tcp_svr.Cfg.Number.Decimal.{InInt}
use tcp_svr.Cfg.Number.Session.{cfg_write_int-cfg_read_int}
use tcp_svr.Svr.Listener.{run, initial}
use tcp_svr.Svr.Start.{Main, start_listener, start_read, start_with, tcp_svr_init}

-- A missing key.
cfg_getstring-missing :
    (c : Config) (s k : Bytes)
    → c.valid ≡ true
    → lookup s k (items c.entries) ≡ none
    → cfg_getstring c (some s) (some k) ≡ some (neg 1, [])
unfolding cfg_getstring get_found
cfg_getstring-missing c s k ok here =
    let (c', done, same) =
      subst (λ o. Answers o c (cfg_find c (some s) (some k))) here (cfg_find-lookup c s k ok) in
    rw (done, get_found) refl

module _ (d : Disk) where
  -- If the configuration file, the printed text of printable entries, has no key `port` in a section
  -- `tcp`, `TcpSvr_Init` stores the default port 10017, but returns -1 and starts no listener.
  pub tcp_svr_init-default :
      (created : Bool) (st : d.State) (f : Bytes) (es : List Entry) (m : Main)
      → Holds d st f es
      → lookup (codes "tcp") (codes "port") (items es) ≡ none
      → tcp_svr_init d created st (some f) m ≡ some ((neg 1, record m { port = pos 10017 }), st)
  unfolding tcp_svr_init start_with start_read cfg_read_int number_in number_from with_state
  tcp_svr_init-default created st f es m w missing =
      let here : lookup (codes "tcp") (codes "port") (items (loaded es).entries) ≡ none =
        ap (lookup (codes "tcp") (codes "port")) (ap items (loaded-entries es) ∙ items-as_parsed es)
        ∙ missing in
      rw
        (
          cfg_init-Holds d st f false es w,
          cfg_getstring-missing (loaded es) (codes "tcp") (codes "port") refl here,
        )
        refl

  -- After `Cfg_WriteInt` of a number of an `int` to the key `port` of the section `tcp`, in a file that
  -- holds the printed text of at most 101 printable entries and can be written, if the key is spelled without
  -- quotes wherever it stands, `TcpSvr_Init` sets the port to that number and clears the table of clients;
  -- it returns 1, with the server running, if the listener's thread is created, and -2 if not.
  pub cfg_write_int-tcp_svr_init :
      (st : d.State) (f : Bytes) (es : List Entry) (p : ℤ)
      → Keeps d
      → Holds d st f es
      → Accepts d st f
      → Settable es (codes "tcp") (codes "port")
      → InInt p
      → (st' : d.State) × (cfg_write_int d st (some f) (some (codes "tcp")) (some (codes "port")) p
          ≡ some (pos 0, st'))
        × ((m : Main)
            → (tcp_svr_init d true st' (some f) m
                ≡ some (
                  (pos 1, record m { port = p; state = run; has_thread = true; table = initial }),
                  st',
                ))
              × (tcp_svr_init d false st' (some f) m
                  ≡ some
                      ((neg 2, record m { port = p; has_thread = false; table = initial }), st')))
  unfolding tcp_svr_init start_with start_read start_listener
  cfg_write_int-tcp_svr_init st f es p keeps w a q range =
      let (st', done, reads) =
        cfg_write_int-cfg_read_int d st f es (codes "tcp") (codes "port") p keeps w a q range in
      (
        st',
        done,
        λ m. (
          ap (start_with d true m) (reads m.port (pos 10017)),
          ap (start_with d false m) (reads m.port (pos 10017)),
        ),
      )
