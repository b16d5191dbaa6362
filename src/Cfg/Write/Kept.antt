-- ===== src/Cfg/Write/Kept.antt =====
-- What `cfg_write` of a value keeps of the entries, one by one.
use tcp_svr.Base.{
  ℕ, ◌+◌, ◌≤◌, Bytes, List, [], ◌∷◌, ◌++◌, Option, none, some, length, length-append, ℤ, true,
  false, leb, ◌≡◌, refl, sym, ap, ◌∙◌, subst, arith, inl, inr, Bool-cases, append_assoc,
}
use tcp_svr.Cfg.Entry.{Entry, Config, is_some, grown, dynamic_entry, cfg_storeentry}
use tcp_svr.Cfg.Cursor.{Outcome}
use tcp_svr.Cfg.Write.{
  names, with_value, inserted, find_section, Put, updated, insert, append, put_key, put_entries,
  write_found, write_missing, write_valid, cfg_write,
}
use tcp_svr.Cfg.Write.Readings.{fresh}
use tcp_svr.Cfg.Write.PutKey.{put_result, put_result-later}
use tcp_svr.Cfg.Write.Sections.{Finds, find_section-Finds}

-- Of each entry.
unfoldable pub Every : (Entry → Type 0) → List Entry → Type 0
Every P [] = Unit {0}
Every P (e ∷ es) = P e × Every P es

-- Of the entries that a key and its value may leave.
pub record Fits (P : Entry → Type 0) (s k w : Bytes) : Type 0 where
  pub title : P (dynamic_entry (some s) none none)
  pub new : P (fresh k w)
  pub changed :
      (e : Entry) → is_some e.section ≡ false → names e.id k ≡ true → P e → P (with_value e w)
  pub moved : (e : Entry) → P (inserted e k w)

-- What a change leaves, where it has no fault: an array of such entries, to be written to the file, with
-- at most two more than before.
pub record Left (P : Entry → Type 0) (before c : Config) : Type 0 where
  pub every : Every P c.entries
  pub still_valid : c.valid ≡ true
  pub is_dirty : c.dirty ≡ true
  pub longer : length c.entries ≤ length before.entries + 2
  pub room : before.max_entries ≤ c.max_entries

module _ (P : Entry → Type 0) where
  Every-append : (a b : List Entry) → Every P a → Every P b → Every P (a ++ b)
  unfolding Every
  Every-append [] b p q = q
  Every-append (e ∷ a) b (here, p) q = (here, Every-append a b p q)

  Every-front : (a b : List Entry) → Every P (a ++ b) → Every P a
  unfolding Every
  Every-front [] b p = tt
  Every-front (e ∷ a) b (here, p) = (here, Every-front a b p)

  Every-behind : (a b : List Entry) → Every P (a ++ b) → Every P b
  unfolding Every
  Every-behind [] b p = p
  Every-behind (e ∷ a) b (here, p) = Every-behind a b p

  -- The entries that a key is put to.
  put_key-Every :
      (s k w : Bytes) (es : List Entry)
      → Fits P s k w
      → Every P es
      → Every P (put_result es (fresh k w) (put_key k w es))
        × (length (put_result es (fresh k w) (put_key k w es)) ≤ length es + 1)
  unfolding put_key put_result Every
  put_key-Every s k w [] fits p = ((fits.new, tt), omega arith)
  put_key-Every s k w (e ∷ es) fits (here, p) = elim (Bool-cases (is_some e.section)) [
    | inl next ↦ rw (next, put_key) ((fits.moved e, (here, p)), omega arith)
    | inr top ↦ elim (Bool-cases (names e.id k)) [
      | inl same ↦ rw (top, same, put_key) ((fits.changed e top same here, p), omega arith)
      | inr other ↦
          let (later, longer) = put_key-Every s k w es fits p in
          rw (top, other, put_key, put_result-later e es (fresh k w) (put_key k w es))
            ((here, later), omega (arith, longer))
    ]
  ]

  abbrev Leaves : Config → Option Outcome → Type 0
  Leaves c₀ none = Unit {0}
  Leaves c₀ (some (ret, c)) = Left P c₀ c

  stored-room : (n m : ℕ) → m ≤ grown n m
  unfolding grown
  stored-room n m = ground arith

  put_entries-Leaves :
      (c : Config) (k w : Bytes) (front behind : List Entry) (p : Put)
      → c.valid ≡ true
      → c.entries ≡ front ++ behind
      → Every P front
      → Every P (put_result behind (fresh k w) p)
        × (length (put_result behind (fresh k w) p) ≤ length behind + 1)
      → Every P (c.entries ++ fresh k w ∷ [])
      → Leaves c (put_entries c k w front p)
  unfolding put_entries put_result cfg_storeentry
  put_entries-Leaves c k w front behind (updated es) ok whole pf (pr, longer) pa = record {
    every = Every-append front es pf pr;
    still_valid = ok;
    is_dirty = refl;
    room = omega arith;
    longer =
        omega (arith, length-append front es, ap length whole, length-append front behind, longer);
  }
  put_entries-Leaves c k w front behind (insert es) ok whole pf (pr, longer) pa =
      elim (Bool-cases (leb (length c.entries + 2) c.max_entries)) [
        | inl fits ↦ rw fits (record {
          every = Every-append front es pf pr;
          still_valid = ok;
          is_dirty = refl;
          room = omega arith;
          longer =
              omega (
                arith,
                length-append front es,
                ap length whole,
                length-append front behind,
                longer,
              );
        })
        | inr full ↦ rw full tt
      ]
  put_entries-Leaves c k w front behind append ok whole pf q pa = record {
    every = pa;
    still_valid = ok;
    is_dirty = refl;
    room = stored-room (length c.entries) c.max_entries;
    longer = omega (arith, length-append c.entries (fresh k w ∷ []));
  }

  write_section-Leaves :
      (c : Config) (s k w : Bytes) (o : Option (List Entry × Entry × List Entry))
      → c.valid ≡ true
      → Fits P s k w
      → Every P c.entries
      → Finds s c.entries o
      → Leaves c (elim o [
        | none ↦ some (write_missing c s (some k) (some w))
        | some (before, e, behind) ↦ write_found c (some k) (some w) before e behind
      ])
  unfolding write_missing write_found Finds cfg_storeentry Every
  write_section-Leaves c s k w none ok fits p f =
      let titled = c.entries ++ dynamic_entry (some s) none none ∷ [] in
      record {
        every =
            Every-append titled (fresh k w ∷ []) (Every-append c.entries _ p (fits.title, tt))
              (fits.new, tt);
        still_valid = ok;
        is_dirty = refl;
        room = omega (
          arith,
          stored-room (length c.entries) c.max_entries,
          stored-room (length titled) (grown (length c.entries) c.max_entries),
        );
        longer = omega (
          arith,
          length-append titled (fresh k w ∷ []),
          length-append c.entries (dynamic_entry (some s) none none ∷ []),
        );
      }
  write_section-Leaves c s k w (some (before, x, behind)) ok fits p f =
      let front : c.entries ≡ (before ++ x ∷ []) ++ behind =
        f.whole ∙ sym (append_assoc before (x ∷ []) behind) in
      let pieces : Every P ((before ++ x ∷ []) ++ behind) = subst (Every P) front p in
      put_entries-Leaves c k w (before ++ x ∷ []) behind (put_key k w behind) ok front
        (Every-front _ behind pieces)
        (put_key-Every s k w behind fits (Every-behind (before ++ x ∷ []) behind pieces))
        (Every-append c.entries _ p (fits.new, tt))

  -- What `cfg_write` of a key and a value leaves.
  pub cfg_write-Left :
      (c c' : Config) (s k w : Bytes) (ret : ℤ)
      → c.valid ≡ true
      → Fits P s k w
      → Every P c.entries
      → cfg_write c (some s) (some k) (some w) ≡ some (ret, c')
      → Left P c c'
  unfolding cfg_write write_valid
  cfg_write-Left c c' s k w ret ok fits p done = subst (Leaves c) done (
      simp ok (
        write_section-Leaves c s k w (find_section s c.entries) ok fits p
          (find_section-Finds s c.entries)))
