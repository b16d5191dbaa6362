-- ===== src/Cfg/Entry.antt =====
-- TCFGENTRY and TCFGDATA, `_cfg_poolalloc` and `cfg_storeentry`. A `char *` is `none` where it is NULL.
-- The array `entries` is a list of `numEntries` entries in room for `max_entries`; the flags of an
-- entry and of the configuration are fields of their own.
use tcp_svr.Base.{
  ℕ, ◌+◌, ◌/◌, Bytes, List, [], ◌∷◌, ◌++◌, Option, none, some, length, Bool, true, false, ◌==◌,
  ◌||◌, ltb, if◌then◌else◌,
}

pub record Entry : Type 0 where
  pub section : Option Bytes
  pub id : Option Bytes
  pub value : Option Bytes
  pub comment : Option Bytes
  -- CFE_MUST_FREE_SECTION, .._ID, .._VALUE, .._COMMENT
  pub free_section : Bool
  pub free_id : Bool
  pub free_value : Bool
  pub free_comment : Bool

-- CFG_TYPE of the flags: CFG_ERROR, CFG_SECTION, CFG_DEFINE, CFG_CONTINUE
pub data Kind : Type 0 where
  error section define continue : Kind

pub record Config : Type 0 where
  pub entries : List Entry
  pub max_entries : ℕ
  pub dirty : Bool
  pub valid : Bool
  pub eof : Bool
  pub kind : Kind
  pub cursor : ℕ
  pub cur_section : Option Bytes
  pub cur_id : Option Bytes
  pub cur_value : Option Bytes

-- strchr ("\f\t ", c) != NULL, which also holds for the terminator
unfoldable pub is_white : ℕ → Bool
is_white c = c == 12 || c == 9 || c == 32 || c == 0

-- sizeof (TCFGENTRY) on a 64-bit machine
abbrev pub entry_size : ℕ
entry_size = 40

infixl 5 ◌>>=◌
abbrev pub ◌>>=◌ : {A B : Type 0} → Option A → (A → Option B) → Option B
none >>= f = none
(some a) >>= f = f a

abbrev pub is_some {ℓ} : {A : Type ℓ} → Option A → Bool
is_some none = false
is_some (some a) = true

-- The room after `_cfg_poolalloc (p, 1)`.
unfoldable pub grown : ℕ → ℕ → ℕ
grown count room =
    if ltb room (count + 1)
    then (if room == 0 then 1 + 4096 / entry_size else 1 + room + room / 2)
    else room

-- The new entry of `cfg_storeentry` when `dynamic` is set: its texts are copies. A comment would be
-- copied from the value; every call of the source passes none.
unfoldable pub dynamic_entry : Option Bytes → Option Bytes → Option Bytes → Entry
dynamic_entry s i v = record {
  section = s;
  id = i;
  value = v;
  comment = none;
  free_section = is_some s;
  free_id = is_some i;
  free_value = is_some v;
  free_comment = false;
}

-- The array after an entry was stored.
unfoldable pub stored : Config → Entry → Config
stored c e = record c {
  entries = c.entries ++ e ∷ [];
  max_entries = grown (length c.entries) c.max_entries;
}

-- `cfg_storeentry (pconfig, s, i, v, NULL, 1)`
unfoldable pub cfg_storeentry : Config → Option Bytes → Option Bytes → Option Bytes → Config
cfg_storeentry c s i v = record c {
  entries = c.entries ++ dynamic_entry s i v ∷ [];
  max_entries = grown (length c.entries) c.max_entries;
}
