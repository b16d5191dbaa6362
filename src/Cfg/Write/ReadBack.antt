-- ===== src/Cfg/Write/ReadBack.antt =====
-- What is read back after `cfg_write` of a value.
use tcp_svr.Base.{
  ◌+◌, ◌≤◌, Bytes, List, [], ◌∷◌, ◌++◌, Option, none, some, length, length-append, pos, true, false,
  ◌&&◌, str_eq, str_eq_eq, leb, if◌then◌else◌, ◌≡◌, refl, sym, ap, append-nil, ◌∙◌, inl, inr, arith,
  Bool-cases, append_assoc, subst,
}
use tcp_svr.Cfg.Entry.{Entry, Config, dynamic_entry, cfg_storeentry}
use tcp_svr.Cfg.Cursor.{remove_quotes}
use tcp_svr.Cfg.Cursor.Items.{sect, def, item_of, items}
use tcp_svr.Cfg.Cursor.Items.Find.{is_key, lookup_in, lookup}
use tcp_svr.Cfg.Write.{
  names, find_section, Put, updated, insert, append, put_key, put_entries, write_found,
  write_missing, write_valid, cfg_write,
}
use tcp_svr.Cfg.Write.Readings.{Same, Same-entries, Same-other, fresh}
use tcp_svr.Cfg.Write.PutKey.{
  put_result, PlainKeys, lookup_in-def, lookup_in-put_key, put_key-Same, lookup-put_key,
}
use tcp_svr.Cfg.Write.Sections.{items-section, Found, Finds, lookup-section, find_section-Finds}

-- A change behind the section's entry, as the key put there shows.
record Wrote (s k v : Bytes) (es es' : List Entry) : Type 0 where
  value : lookup s k (items es') ≡ some v
  others :
      (t j : Bytes)
      → (str_eq s t && is_key k j) ≡ false
      → lookup t j (items es') ≡ lookup t j (items es)

section-Same :
    (s t j k v : Bytes) (x : Entry) (behind : List Entry)
    → names x.section s ≡ true
    → (str_eq s t && is_key k j) ≡ false
    → Same t j (items (x ∷ put_result behind (fresh k v) (put_key k v behind))) (items (x ∷ behind))
unfolding lookup lookup_in
section-Same s t j k v x behind named apart =
    rw
      (
        items-section x s behind named,
        items-section x s (put_result behind (fresh k v) (put_key k v behind)) named,
      )
      (record {
        outside = elim (Bool-cases (str_eq s t)) [
          | inl same ↦ rw same (put_key-Same t j k v behind (rw same at apart)).inside
          | inr other ↦ rw other (lookup-put_key t j k v behind)
        ];
        inside = refl;
      })

put-Wrote :
    (s k v : Bytes) (es before : List Entry) (x : Entry) (behind : List Entry)
    → is_key k k ≡ true
    → PlainKeys k behind
    → Found s es before x behind
    → Wrote s k v es (before ++ x ∷ put_result behind (fresh k v) (put_key k v behind))
put-Wrote s k v es before x behind own plain f = record {
  value = f.reads k _ ∙ lookup_in-put_key k v behind own plain;
  others = λ t j apart.
      (Same-entries t j before _ _ (section-Same s t j k v x behind f.named apart)).outside
      ∙ ap (λ l. lookup t j (items l)) (sym f.whole);
}

PlainKeys-behind :
    (k : Bytes) (before : List Entry) (x : Entry) (behind : List Entry)
    → PlainKeys k (before ++ x ∷ behind)
    → PlainKeys k behind
unfolding PlainKeys
PlainKeys-behind k [] x behind (p, plain) = plain
PlainKeys-behind k (e ∷ before) x behind (p, plain) = PlainKeys-behind k before x behind plain

-- With room for two more entries no branch of the update faults.
put_entries-result :
    (c : Config) (k v : Bytes) (front behind : List Entry) (p : Put)
    → c.entries ≡ front ++ behind
    → length c.entries + 2 ≤ c.max_entries
    → (c' : Config) × (put_entries c k v front p ≡ some (pos 0, c'))
      × (c'.entries ≡ front ++ put_result behind (fresh k v) p)
unfolding put_entries put_result cfg_storeentry
put_entries-result c k v front behind (updated es) whole room = (_, refl, refl)
put_entries-result c k v front behind (insert es) whole room =
    let fits : leb (length c.entries + 2) c.max_entries ≡ true = ground arith in
    (record c { dirty = true; entries = front ++ es }, rw fits refl, refl)
put_entries-result c k v front behind append whole room =
    (_, refl, ap (λ l. l ++ fresh k v ∷ []) whole ∙ append_assoc front behind (fresh k v ∷ []))

items-new_section :
    (s k v : Bytes)
    → items (dynamic_entry (some s) none none ∷ fresh k v ∷ []) ≡ sect s ∷ def k v ∷ []
unfolding items dynamic_entry item_of
items-new_section s k v = refl

new_section-Same :
    (s t j k v : Bytes) → (str_eq s t && is_key k j) ≡ false → Same t j (sect s ∷ def k v ∷ []) []
unfolding lookup lookup_in
new_section-Same s t j k v apart = record {
  outside = elim (Bool-cases (str_eq s t)) [
    | inl same ↦ rw same (Same-other t j k v [] (rw same at apart)).inside
    | inr other ↦ rw other refl
  ];
  inside = refl;
}

missing-Wrote :
    (s k v : Bytes) (es : List Entry)
    → is_key k k ≡ true
    → Finds s es none
    → Wrote s k v es (es ++ dynamic_entry (some s) none none ∷ fresh k v ∷ [])
unfolding Finds items
missing-Wrote s k v es own f = record {
  value =
      f k _
      ∙ rw (items-new_section s k v, lookup-section s k (def k v ∷ [])) (lookup_in-def k v [] own);
  others = λ t j apart.
      (Same-entries t j es _ []
        (rw (items-new_section s k v) (new_section-Same s t j k v apart))).outside
      ∙ ap (λ l. lookup t j (items l)) (append-nil es);
}

-- A key that is spelled without quotes is found under its own name only.
pub is_key-plain : (k j : Bytes) → is_key k k ≡ true → is_key k j ≡ str_eq k j
unfolding is_key
is_key-plain k j own = from_bare (remove_quotes k) own
  where
    from_bare :
        (o : Option Bytes)
        → elim o [ none ↦ false | some m ↦ str_eq m k ] ≡ true
        → elim o [ none ↦ false | some m ↦ str_eq m j ] ≡ str_eq k j
    from_bare none e = cc
    from_bare (some m) e = rw (str_eq_eq m k e) refl

Wrote-updates :
    (s k v t j : Bytes) (es es' : List Entry)
    → is_key k k ≡ true
    → Wrote s k v es es'
    → lookup t j (items es') ≡ (if str_eq s t && str_eq k j then some v else lookup t j (items es))
Wrote-updates s k v t j es es' own w = elim (Bool-cases (str_eq s t && str_eq k j)) [
  | inl both ↦
      let same_section : str_eq s t ≡ true = ground arith in
      let same_key : str_eq k j ≡ true = ground arith in
      rw (both, ← str_eq_eq s t same_section, ← str_eq_eq k j same_key) w.value
  | inr apart ↦ rw apart (w.others t j (rw (is_key-plain k j own) apart))
]

found-Wrote :
    (c : Config) (s k v : Bytes) (o : Option (List Entry × Entry × List Entry))
    → (1 ≤ length c.entries → length c.entries + 2 ≤ c.max_entries)
    → is_key k k ≡ true
    → PlainKeys k c.entries
    → Finds s c.entries o
    → (c' : Config) × (elim o [
      | none ↦ some (write_missing c s (some k) (some v))
      | some (before, e, behind) ↦ write_found c (some k) (some v) before e behind
    ]
        ≡ some (pos 0, c'))
      × Wrote s k v c.entries c'.entries
unfolding write_missing write_found Finds cfg_storeentry
found-Wrote c s k v none room own plain f = (
  _,
  refl,
  rw (append_assoc c.entries (dynamic_entry (some s) none none ∷ []) (fresh k v ∷ []))
      (missing-Wrote s k v c.entries own f),
)
found-Wrote c s k v (some (before, x, behind)) room own plain f =
    let front : c.entries ≡ (before ++ x ∷ []) ++ behind =
      f.whole ∙ sym (append_assoc before (x ∷ []) behind) in
    let some_entries : 1 ≤ length c.entries =
      omega (arith, ap length f.whole, length-append before (x ∷ behind)) in
    let (c', done, whole) =
      put_entries-result c k v (before ++ x ∷ []) behind (put_key k v behind) front
        (room some_entries) in
    let inner = PlainKeys-behind k before x behind (subst (PlainKeys k) f.whole plain) in
    (
      c',
      done,
      rw (whole, append_assoc before (x ∷ []) (put_result behind (fresh k v) (put_key k v behind)))
          (put-Wrote s k v c.entries before x behind own inner f),
    )

-- `cfg_write` of a value, if the array is empty or has room for two more entries, and the key is spelled
-- without quotes wherever it stands in the file, succeeds with no fault, and its effect on the lookups of the file's items is the
-- update of a map: the section's key has the new value, and every other key the one it had.
pub cfg_write-updates :
    (c : Config) (s k v : Bytes)
    → c.valid ≡ true
    → (1 ≤ length c.entries → length c.entries + 2 ≤ c.max_entries)
    → is_key k k ≡ true
    → PlainKeys k c.entries
    → (c' : Config) × (cfg_write c (some s) (some k) (some v) ≡ some (pos 0, c'))
      × ((t j : Bytes)
          → lookup t j (items c'.entries)
            ≡ (if str_eq s t && str_eq k j then some v else lookup t j (items c.entries)))
unfolding cfg_write write_valid
cfg_write-updates c s k v ok room own plain =
    let (c', done, w) =
      found-Wrote c s k v (find_section s c.entries) room own plain
        (find_section-Finds s c.entries) in
    (c', simp ok done, λ t j. Wrote-updates s k v t j c.entries c'.entries own w)
