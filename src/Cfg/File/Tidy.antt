-- ===== src/Cfg/File/Tidy.antt =====
-- Entries that a file can hold, with keys spelled without quotes, and the changes that keep them so.
use tcp_svr.Base.{
  Bytes, List, [], ◌∷◌, Option, none, some, true, false, ◌≡◌, refl, map, subst, arith,
}
use tcp_svr.Cfg.Entry.{Entry, is_some, dynamic_entry}
use tcp_svr.Cfg.Cursor.Items.Find.{is_key}
use tcp_svr.Cfg.Write.{names, with_value, inserted}
use tcp_svr.Cfg.Write.PutKey.{PlainKeys}
use tcp_svr.Cfg.Write.ReadBack.{is_key-plain}
use tcp_svr.Cfg.Write.Kept.{Every, Fits}
use tcp_svr.Cfg.Output.Printable.{
  header_ok, key_ok, value_ok, text_ok, printable_fields, is_printable, all_printable,
}
use tcp_svr.Cfg.Output.RoundTrip.{as_parsed}

abbrev pub IsPrintable : Entry → Type 0
IsPrintable e = is_printable e ≡ true

-- The key, if there is one, is spelled without quotes.
abbrev pub IsBare : Entry → Type 0
IsBare e = (i : Bytes) → e.id ≡ some i → is_key i i ≡ true

pub Every-IsPrintable : (es : List Entry) → all_printable es ≡ true → Every IsPrintable es
unfolding Every all_printable
Every-IsPrintable [] p = tt
Every-IsPrintable (e ∷ es) p =
    let here : is_printable e ≡ true = ground arith in
    let later : all_printable es ≡ true = ground arith in (here, Every-IsPrintable es later)

pub all_printable-Every : (es : List Entry) → Every IsPrintable es → all_printable es ≡ true
unfolding Every all_printable
all_printable-Every [] p = refl
all_printable-Every (e ∷ es) (here, p) = rw (here, all_printable-Every es p) refl

-- The parser's own entries have the same texts.
pub Every-as_parsed :
    (P : Entry → Type 0) (es : List Entry)
    → ((e : Entry) → P e → P (as_parsed e))
    → Every P es
    → Every P (map as_parsed es)
unfolding Every
Every-as_parsed P [] f p = tt
Every-as_parsed P (e ∷ es) f (here, p) = (f e here, Every-as_parsed P es f p)

-- With every key spelled without quotes, each key stands in the file under its own name only.
pub IsBare-PlainKeys : (k : Bytes) (es : List Entry) → Every IsBare es → PlainKeys k es
unfolding Every PlainKeys
IsBare-PlainKeys k [] p = tt
IsBare-PlainKeys k (e ∷ es) (here, p) =
    (λ i keyed. is_key-plain i k (here i keyed), IsBare-PlainKeys k es p)

-- An entry with a key keeps it.
fields-value :
    (s i v c : Option Bytes) (k w : Bytes)
    → is_some s ≡ false
    → names i k ≡ true
    → value_ok w ≡ true
    → printable_fields s i v c ≡ true
    → printable_fields s i (some w) c ≡ true
unfolding printable_fields
fields-value (some s) i v c k w top named ok p = cc
fields-value none none v c k w top named ok p = cc
fields-value none (some i) none c k w top named ok p = cc
fields-value none (some i) (some v) c k w top named ok p = ground (arith, ok, p)

pub IsPrintable-Fits :
    (s k w : Bytes)
    → header_ok s ≡ true
    → key_ok k ≡ true
    → value_ok w ≡ true
    → Fits IsPrintable s k w
unfolding is_printable printable_fields text_ok dynamic_entry with_value inserted
IsPrintable-Fits s k w title key value = record {
  title = rw title refl;
  new = rw (key, value) refl;
  changed = λ e top named p. fields-value e.section e.id e.value e.comment k w top named value p;
  moved = λ e. rw (key, value) refl;
}

pub IsBare-Fits : (s k w : Bytes) → is_key k k ≡ true → Fits IsBare s k w
unfolding dynamic_entry with_value inserted
IsBare-Fits s k w own = record {
  title = λ i e. cc;
  new = λ i e. named i e;
  changed = λ e top same p. p;
  moved = λ e i keyed. named i keyed;
}
  where
    named : (i : Bytes) → some k ≡ some i → is_key i i ≡ true
    named i e =
        subst (λ (o : Option Bytes). elim o [ none ↦ Unit {0} | some j ↦ is_key j j ≡ true ]) e own

pub IsPrintable-as_parsed : (e : Entry) → IsPrintable e → IsPrintable (as_parsed e)
unfolding is_printable
IsPrintable-as_parsed e p = p
