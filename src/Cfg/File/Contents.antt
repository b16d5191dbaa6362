-- ===== src/Cfg/File/Contents.antt =====
-- Configurations up to what cfg_getstring2 tells apart: their entries up to equal lookups. list_sections, Cfg_GetKeys and the printers
-- may tell more of them apart.
use tcp_svr.Base.{
  ◌+◌, ◌≤◌, Bytes, List, [], ◌∷◌, Option, none, some, length, ℤ, pos, true, false, ◌&&◌, str_eq,
  str_eq_eq, str_eq_refl, if◌then◌else◌, ◌≡◌, ◌↔◌, refl, sym, ap, ◌∙◌, arith, inl, inr, Bool-cases,
}
use mathlib.Core.Bool.{true≢false}
use mathlib.Core.Quot
use mathlib.Core.Quot.{Quot}
use native.Mathlib.Nat.{ℕ_set}
use mathlib.Core.Option
use mathlib.Core.List
use tcp_svr.Cfg.Entry.{Entry, Config}
use tcp_svr.Cfg.Cursor.Items.{items}
use tcp_svr.Cfg.Cursor.Items.Find.{is_key, lookup, cfg_find-lookup}
use tcp_svr.Cfg.Write.{cfg_write}
use tcp_svr.Cfg.Write.ReadBack.{cfg_write-updates}
use tcp_svr.Cfg.Write.Kept.{Every, Left, cfg_write-Left}
use tcp_svr.Cfg.File.Api.{cfg_getstring2}
use tcp_svr.Cfg.File.Loaded.{value_or, get_found-Answers}
use tcp_svr.Cfg.File.Tidy.{IsBare, IsBare-PlainKeys, IsBare-Fits}

-- Every section and key has the same value in both.
abbrev pub SameValues : List Entry → List Entry → Type 0
SameValues a b = (t j : Bytes) → lookup t j (items a) ≡ lookup t j (items b)

abbrev pub Contents : Type 0
Contents = Quot SameValues

abbrev pub contents : Config → Contents
contents c = Quot.mk c.entries

values_set : IsSet (Option Bytes)
values_set = Option.is_set (List.is_set ℕ_set)

-- The value of a key.
value : Bytes → Bytes → Contents → Option Bytes
value t j = Quot.lift values_set (λ es. lookup t j (items es)) (λ a b same. same t j)

contents-SameValues : (c c' : Config) → contents c ≡ contents c' → SameValues c.entries c'.entries
unfolding value
contents-SameValues c c' e t j = ap (value t j) e

cfg_getstring2-value :
    (c : Config) (s k default : Bytes)
    → c.valid ≡ true
    → cfg_getstring2 c (some s) (some k) default
      ≡ some (pos 0, value_or (lookup s k (items c.entries)) default)
unfolding cfg_getstring2
cfg_getstring2-value c s k default ok = get_found-Answers _ c default _ (cfg_find-lookup c s k ok)

-- Two different defaults tell every value from none.
distinct : {A : Type 0} (v : Bytes) → [] ≡ v → 0 ∷ [] ≡ v → A
distinct v e f = cc

value_or-injective :
    (o p : Option Bytes) → ((default : Bytes) → value_or o default ≡ value_or p default) → o ≡ p
value_or-injective none none f = refl
value_or-injective none (some v) f = distinct v (f []) (f (0 ∷ []))
value_or-injective (some v) none f = distinct v (sym (f [])) (sym (f (0 ∷ [])))
value_or-injective (some v) (some w) f = ap some (f [])

abbrev stored_text : Option (ℤ × Bytes) → Bytes
stored_text none = []
stored_text (some (ret, v)) = v

-- Two valid configurations have equal lookups exactly when cfg_getstring2 reads the same from them, whatever
-- the section, the key and the default.
pub cfg_getstring2-contents :
    (c c' : Config)
    → c.valid ≡ true
    → c'.valid ≡ true
    → ((contents c ≡ contents c') ↔ (
        (s k default : Bytes)
        → cfg_getstring2 c (some s) (some k) default ≡ cfg_getstring2 c' (some s) (some k) default))
cfg_getstring2-contents c c' ok ok' = (
  λ e s k default.
      cfg_getstring2-value c s k default ok
      ∙ ap (λ o. some (pos 0, value_or o default)) (contents-SameValues c c' e s k)
      ∙ sym (cfg_getstring2-value c' s k default ok'),
  λ alike. Quot.sound (λ s k. value_or-injective _ _ (λ default. ap stored_text (
      sym (cfg_getstring2-value c s k default ok)
      ∙ alike s k default
      ∙ cfg_getstring2-value c' s k default ok'))),
)

-- The update of one key among all values.
abbrev update :
    Bytes → Bytes → Bytes → (Bytes → Bytes → Option Bytes) → Bytes → Bytes → Option Bytes
update s k v old t j = if str_eq s t && str_eq k j then some v else old t j

update-swap :
    (s k v s' k' v' t j : Bytes) (old : Bytes → Bytes → Option Bytes)
    → (str_eq s s' && str_eq k k') ≡ false
    → update s k v (update s' k' v' old) t j ≡ update s' k' v' (update s k v old) t j
update-swap s k v s' k' v' t j old apart = elim (Bool-cases (str_eq s t && str_eq k j)) [
  | inr one ↦ rw one refl
  | inl one ↦ elim (Bool-cases (str_eq s' t && str_eq k' j)) [
    | inr other ↦ rw (one, other) refl
    | inl other ↦ absurd (true≢false (sym (same one other) ∙ apart))
  ]
]
  where
    same :
        (str_eq s t && str_eq k j) ≡ true
        → (str_eq s' t && str_eq k' j) ≡ true
        → (str_eq s s' && str_eq k k') ≡ true
    same one other =
        let in_t : str_eq s t ≡ true = ground arith in
        let in_t' : str_eq s' t ≡ true = ground arith in
        let at_j : str_eq k j ≡ true = ground arith in
        let at_j' : str_eq k' j ≡ true = ground arith in
        rw
          (
            str_eq_eq s t in_t,
            str_eq_eq s' t in_t',
            str_eq_eq k j at_j,
            str_eq_eq k' j at_j',
            str_eq_refl t,
            str_eq_refl j,
          )
          refl

-- A write that goes well, and what it leaves.
record Wrote (c c' : Config) (s k v : Bytes) : Type 0 where
  done : cfg_write c (some s) (some k) (some v) ≡ some (pos 0, c')
  left : Left IsBare c c'
  updates :
      (t j : Bytes)
      → lookup t j (items c'.entries) ≡ update s k v (λ x y. lookup x y (items c.entries)) t j

cfg_write-Wrote :
    (c : Config) (s k v : Bytes)
    → c.valid ≡ true
    → length c.entries + 2 ≤ c.max_entries
    → is_key k k ≡ true
    → Every IsBare c.entries
    → (c' : Config) × Wrote c c' s k v
cfg_write-Wrote c s k v ok room own bare =
    let (c', done, updates) =
      cfg_write-updates c s k v ok (λ _. room) own (IsBare-PlainKeys k c.entries bare) in
    (
      c',
      record {
        done = done;
        left = cfg_write-Left IsBare c c' s k v (pos 0) ok (IsBare-Fits s k v own) bare done;
        updates = updates;
      },
    )

-- A second write.
Wrote-again :
    (c c' : Config) (s k v s' k' v' : Bytes)
    → length c.entries + 4 ≤ c.max_entries
    → is_key k' k' ≡ true
    → Wrote c c' s k v
    → (c″ : Config) × Wrote c' c″ s' k' v'
Wrote-again c c' s k v s' k' v' room own w =
    cfg_write-Wrote c' s' k' v' w.left.still_valid (omega (arith, w.left.longer, w.left.room)) own
      w.left.every

-- Two writes with `cfg_write`, of different keys that are spelled without quotes, into an array with room for four more entries whose keys
-- are spelled so too, succeed with no fault in either order, and leave arrays with equal lookups, which may differ.
pub cfg_write-order :
    (c : Config) (s k v s' k' v' : Bytes)
    → c.valid ≡ true
    → length c.entries + 4 ≤ c.max_entries
    → Every IsBare c.entries
    → is_key k k ≡ true
    → is_key k' k' ≡ true
    → (str_eq s s' && str_eq k k') ≡ false
    → (a b a' b' : Config) × (cfg_write c (some s) (some k) (some v) ≡ some (pos 0, a))
      × (cfg_write a (some s') (some k') (some v') ≡ some (pos 0, a'))
      × (cfg_write c (some s') (some k') (some v') ≡ some (pos 0, b))
      × (cfg_write b (some s) (some k) (some v) ≡ some (pos 0, b'))
      × (contents a' ≡ contents b')
cfg_write-order c s k v s' k' v' ok room bare own own' apart =
    let (a, wa) = cfg_write-Wrote c s k v ok (omega arith) own bare in
    let (b, wb) = cfg_write-Wrote c s' k' v' ok (omega arith) own' bare in
    let (a', wa') = Wrote-again c a s k v s' k' v' room own' wa in
    let (b', wb') = Wrote-again c b s' k' v' s k v room own wb in
    let old : Bytes → Bytes → Option Bytes = λ x y. lookup x y (items c.entries) in
    (
      a,
      b,
      a',
      b',
      wa.done,
      wa'.done,
      wb.done,
      wb'.done,
      Quot.sound (λ t j.
          wa'.updates t j
          ∙ ap (λ o. if str_eq s' t && str_eq k' j then some v' else o) (wa.updates t j)
          ∙ sym (update-swap s k v s' k' v' t j old apart)
          ∙ ap (λ o. if str_eq s t && str_eq k j then some v else o) (sym (wb.updates t j))
          ∙ sym (wb'.updates t j)),
    )
