-- ===== src/Cfg/File/Run.antt =====
-- Several values written to a file, one call of `Cfg_WriteStr` after the other, and read again.
use tcp_svr.Base.{
  ◌+◌, ◌*◌, ◌≤◌, Bytes, List, [], ◌∷◌, Option, none, some, length, ℤ, pos, true, ◌&&◌, str_eq,
  if◌then◌else◌, ◌≡◌, refl, ap, ◌∙◌, subst, sym, map, arith,
}
use tcp_svr.Cfg.Entry.{Entry}
use tcp_svr.Cfg.Cursor.Items.{items}
use tcp_svr.Cfg.Cursor.Items.Find.{is_key, lookup}
use tcp_svr.Cfg.Write.Kept.{Every}
use tcp_svr.Cfg.Output.{cfg_output, output_from}
use tcp_svr.Cfg.Output.Printable.{header_ok, key_ok, value_ok, all_printable}
use tcp_svr.Cfg.Disk.{Disk, Accepts, Keeps, StaysWritable, Creates}
use tcp_svr.Cfg.File.{cfg_init, init_new}
use tcp_svr.Cfg.File.Api.{write_str_in, cfg_write_str, cfg_read_str}
use tcp_svr.Cfg.File.Loaded.{Holds, value_or, cfg_read_str-lookup}
use tcp_svr.Cfg.File.Tidy.{IsBare, IsBare-PlainKeys}
use tcp_svr.Cfg.File.Session.{Settable, cfg_write_str-Written}

pub record Setting : Type 0 where
  pub section : Bytes
  pub key : Bytes
  pub value : Bytes

-- A section, key and value that are printable; the key is spelled without quotes.
pub record IsSetting (w : Setting) : Type 0 where
  pub title : header_ok w.section ≡ true
  pub named : key_ok w.key ≡ true
  pub bare : is_key w.key w.key ≡ true
  pub valued : value_ok w.value ≡ true

unfoldable pub AreSettings : List Setting → Type 0
AreSettings [] = Unit {0}
AreSettings (w ∷ ws) = IsSetting w × AreSettings ws

-- The map of the keys' values: the last setting of a key stands.
unfoldable pub replay : List Setting → Bytes → Bytes → Option Bytes → Option Bytes
replay [] t j before = before
replay (w ∷ ws) t j before =
    replay ws t j (if str_eq w.section t && str_eq w.key j then some w.value else before)

module _ (d : Disk) where
  abbrev write_next : ℤ → Option (List ℤ × d.State) → Option (List ℤ × d.State)
  write_next ret none = none
  write_next ret (some (rets, st)) = some (ret ∷ rets, st)

  -- The results of the calls, one by one, and the state behind the last.
  unfoldable pub write_all : d.State → Bytes → List Setting → Option (List ℤ × d.State)
  write_all st f [] = some ([], st)
  write_all st f (w ∷ ws) =
      elim (cfg_write_str d st (some f) (some w.section) (some w.key) (some w.value)) [
        | none ↦ none
        | some (ret, st') ↦ write_next ret (write_all st' f ws)
      ]

  write_all-step :
      (st st' : d.State) (f : Bytes) (w : Setting) (ws : List Setting) (ret : ℤ)
      → cfg_write_str d st (some f) (some w.section) (some w.key) (some w.value) ≡ some (ret, st')
      → write_all st f (w ∷ ws) ≡ write_next ret (write_all st' f ws)
  unfolding write_all
  write_all-step st st' f w ws ret done = rw (write_all, done) refl

  -- What the calls leave.
  record Replayed (st st' : d.State) (f : Bytes) (es es' : List Entry) (ws : List Setting)
      : Type 0 where
    done : write_all st f ws ≡ some (map (λ w. pos 0) ws, st')
    holds : Holds d st' f es'
    reads : (t j : Bytes) → lookup t j (items es') ≡ replay ws t j (lookup t j (items es))

  write_all-Replayed :
      (st : d.State) (f : Bytes) (es : List Entry) (ws : List Setting)
      → Keeps d
      → StaysWritable d
      → Holds d st f es
      → Accepts d st f
      → Every IsBare es
      → AreSettings ws
      → length es + 2 * length ws ≤ 103
      → (st' : d.State) × (es' : List Entry) × Replayed st st' f es es' ws
  unfolding write_all AreSettings replay
  write_all-Replayed st f es [] keeps stays h a bare q room =
      (st, es, record { done = refl; holds = h; reads = λ t j. refl })
  write_all-Replayed st f es (w ∷ ws) keeps stays h a bare (q, qs) room =
      let settable : Settable es w.section w.key = record {
        title = q.title;
        key = q.named;
        bare = q.bare;
        spelled = IsBare-PlainKeys w.key es bare;
        room = omega arith;
      } in
      let (st₁, es₁, x) =
        cfg_write_str-Written d st f es w.section w.key w.value keeps h a settable q.valued in
      let again : Accepts d st₁ f =
        subst (λ (s : d.State). Accepts d s f) (sym x.prints) (stays st f x.text a) in
      let (st', es', y) =
        write_all-Replayed st₁ f es₁ ws keeps stays x.holds again (x.keeps_bare bare) qs
          (omega (arith, x.longer)) in
      (
        st',
        es',
        record {
          done = write_all-step st st₁ f w ws (pos 0) x.done ∙ ap (write_next (pos 0)) y.done;
          holds = y.holds;
          reads = λ t j. y.reads t j ∙ ap (replay ws t j) (x.updates t j);
        },
      )

  -- Each of several calls of `Cfg_WriteStr` returns 0, if the file holds the printed text of printable
  -- entries, can be written now and after each time it was, the sections, keys and values are printable,
  -- no key is quoted, and the entries and twice the calls are at most 103; and `Cfg_ReadStr` of any section and key
  -- then returns 0 and gives the value of the last call for it, what stood in the file before if there was none, or else the default.
  pub write_all-cfg_read_str :
      (st : d.State) (f : Bytes) (es : List Entry) (ws : List Setting)
      → Keeps d
      → StaysWritable d
      → Holds d st f es
      → Accepts d st f
      → Every IsBare es
      → AreSettings ws
      → length es + 2 * length ws ≤ 103
      → (st' : d.State) × (write_all st f ws ≡ some (map (λ w. pos 0) ws, st'))
        × ((t j default : Bytes)
            → cfg_read_str d st' (some f) (some t) (some j) default
              ≡ some ((pos 0, value_or (replay ws t j (lookup t j (items es))) default), st'))
  write_all-cfg_read_str st f es ws keeps stays h a bare q room =
      let (st', es', x) = write_all-Replayed st f es ws keeps stays h a bare q room in
      (
        st',
        x.done,
        λ t j default.
            cfg_read_str-lookup d st' f es' t j default x.holds
            ∙ ap (λ o. some ((pos 0, value_or o default), st')) (x.reads t j),
      )

  -- A file that does not exist is created by the first call.
  cfg_init-created :
      (st : d.State) (f : Bytes)
      → Creates d st f
      → cfg_init d st (some f) true ≡ cfg_init d (d.created st f) (some f) true
  unfolding cfg_init init_new
  cfg_init-created st f c = rw (c.absent, c.memory, c.empty.is_present, c.empty.memory) refl

  write_all-created :
      (st : d.State) (f : Bytes) (w : Setting) (ws : List Setting)
      → Creates d st f
      → write_all st f (w ∷ ws) ≡ write_all (d.created st f) f (w ∷ ws)
  unfolding write_all cfg_write_str
  write_all-created st f w ws c =
      ap (λ o. elim o [ none ↦ none | some (ret, st') ↦ write_next ret (write_all st' f ws) ])
        (ap (write_str_in d (some w.section) (some w.key) (some w.value)) (cfg_init-created st f c))

  created-Holds : (st : d.State) (f : Bytes) → Creates d st f → Holds d (d.created st f) f []
  unfolding cfg_output output_from all_printable
  created-Holds st f c = record { serves = c.empty; printable = refl }

  -- Each of 1 to 51 calls of `Cfg_WriteStr` with the name of a file that does not exist returns 0, if
  -- the file can be created, read and written, and the sections, keys and values are printable and no key is quoted; and
  -- `Cfg_ReadStr` of any section and key then returns 0 and gives the value of the last call for it, or else the default.
  pub write_all-new_file :
      (st : d.State) (f : Bytes) (w : Setting) (ws : List Setting)
      → Keeps d
      → StaysWritable d
      → Creates d st f
      → AreSettings (w ∷ ws)
      → length ws ≤ 50
      → (st' : d.State) × (write_all st f (w ∷ ws) ≡ some (pos 0 ∷ map (λ w. pos 0) ws, st'))
        × ((t j default : Bytes)
            → cfg_read_str d st' (some f) (some t) (some j) default
              ≡ some ((pos 0, value_or (replay (w ∷ ws) t j none) default), st'))
  unfolding Every items lookup
  write_all-new_file st f w ws keeps stays c q room =
      let (st', done, reads) =
        write_all-cfg_read_str (d.created st f) f [] (w ∷ ws) keeps stays (created-Holds st f c)
          c.writable tt q (omega arith) in
      (st', write_all-created st f w ws c ∙ done, reads)
