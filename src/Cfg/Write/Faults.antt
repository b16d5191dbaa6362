-- ===== src/Cfg/Write/Faults.antt =====
-- Where `cfg_write` leaves the array.
use tcp_svr.Base.{
  Bytes, List, [], ◌∷◌, ◌++◌, Option, none, some, Bool, true, false, ◌&&◌, ◌||◌, ◌≡◌, refl, ap, ◌∙◌,
  inl, inr, Bool-cases, Option-cases, str_eq,
}
use tcp_svr.Cfg.Entry.{Entry, Config, is_some, ◌>>=◌}
use tcp_svr.Cfg.Write.{
  names, find_section, is_comment, strip, split_section, delete_between, write_found, write_valid,
  cfg_write, update_anywhere,
}
use tcp_svr.Cfg.Write.Delete.{comment-nothing}

-- Nothing but comments.
unfoldable pub all_comments : List Entry → Bool
all_comments [] = true
all_comments (e ∷ es) = is_comment e && all_comments es

strip-comments : (x : List Entry) → all_comments x ≡ true → strip x ≡ none
unfolding strip all_comments
strip-comments [] c = refl
strip-comments (e ∷ es) c = elim (Bool-cases (is_comment e)) [
  | inl one ↦ rw (strip-comments es (rw one at c), one, strip) refl
  | inr other ↦ absurd (false_true (rw other at c))
]
  where
    false_true : false ≡ true → ⊥
    false_true e = cc

names-none : (o : Option Bytes) (s : Bytes) → is_some o ≡ false → names o s ≡ false
names-none none s e = refl
names-none (some t) s e = cc

find_section-comments :
    (s : Bytes) (before : List Entry) (x : Entry) (behind : List Entry)
    → all_comments before ≡ true
    → names x.section s ≡ true
    → find_section s (before ++ x ∷ behind) ≡ some (before, x, behind)
unfolding find_section all_comments
find_section-comments s [] x behind c named = rw named refl
find_section-comments s (e ∷ before) x behind c named = elim (Bool-cases (is_comment e)) [
  | inl one ↦
      let other = names-none e.section s (comment-nothing e [] one).1 in
      rw (other, find_section-comments s before x behind (rw one at c) named, find_section) refl
  | inr bad ↦ absurd (false_true (rw bad at c))
]
  where
    false_true : false ≡ true → ⊥
    false_true e = cc

write_found-fault :
    (c : Config) (value : Option Bytes) (before : List Entry) (x : Entry) (behind : List Entry)
    → strip before ≡ none
    → write_found c none value before x behind ≡ none
unfolding write_found delete_between
write_found-fault c value before x behind e =
    elim (Option-cases (strip (before ++ x ∷ (split_section behind).0))) [
      | inl out ↦ rw out refl
      | inr (kept, found) ↦ rw (found, e) refl
    ]

-- Deleting a section that has nothing but comments above it, or nothing at all, always faults: the
-- walk over comments reads the entry in front of the array.
pub cfg_write-first_section :
    (c : Config) (s : Bytes) (value : Option Bytes) (before : List Entry) (x : Entry)
    (behind : List Entry)
    → c.valid ≡ true
    → c.entries ≡ before ++ x ∷ behind
    → all_comments before ≡ true
    → names x.section s ≡ true
    → cfg_write c (some s) none value ≡ none
unfolding cfg_write write_valid
cfg_write-first_section c s value before x behind ok whole c_only named =
    let search : find_section s c.entries ≡ some (before, x, behind) =
      ap (find_section s) whole ∙ find_section-comments s before x behind c_only named in
    simp ok (
      rw (search, write_valid)
        (write_found-fault c value before x behind (strip-comments before c_only)))

-- Whether a key stands anywhere in a file.
pub has_key : Bytes → List Entry → Bool
has_key k [] = false
has_key k (e ∷ es) = names e.id k || has_key k es

is_some-bind :
    {A B : Type 0} (o : Option A) (f : A → B) → is_some (o >>= λ (a : A). some (f a)) ≡ is_some o
is_some-bind none f = refl
is_some-bind (some a) f = refl

update_anywhere-has_key :
    (k v : Bytes) (es : List Entry) → is_some (update_anywhere (some k) (some v) es) ≡ has_key k es
unfolding update_anywhere has_key
update_anywhere-has_key k v [] = refl
update_anywhere-has_key k v (e ∷ es) = elim (Option-cases e.id) [
  | inl bare ↦
      simp bare (
        is_some-bind (update_anywhere (some k) (some v) es) (◌∷◌ e)
        ∙ update_anywhere-has_key k v es)
  | inr (i, keyed) ↦ elim (Bool-cases (str_eq i k)) [
    | inl same ↦ simp (keyed, same) refl
    | inr other ↦
        simp (keyed, other)
          (is_some-bind (update_anywhere (some k) (some v) es) (◌∷◌ e)
            ∙ update_anywhere-has_key k v es)
  ]
]

-- Writing a value with no section faults exactly where no entry of the file has the key.
pub cfg_write-anywhere :
    (c : Config) (k v : Bytes)
    → c.valid ≡ true
    → is_some (cfg_write c none (some k) (some v)) ≡ has_key k c.entries
unfolding cfg_write write_valid
cfg_write-anywhere c k v ok = simp ok (
    is_some-bind (update_anywhere (some k) (some v) c.entries) _
    ∙ update_anywhere-has_key k v c.entries)
