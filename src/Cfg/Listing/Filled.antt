-- ===== src/Cfg/Listing/Filled.antt =====
-- The buffer that `list_sections` fills.
use tcp_svr.Base.{
  ℕ, zero, suc, ◌+◌, ◌-◌, ◌≤◌, ◌<◌, Bytes, List, [], ◌∷◌, ◌++◌, some, length, length-append,
  length-take, length-drop, take, true, false, ltb, ◌≡◌, refl, ap, ◌∙◌, arith, inl, inr, Bool-cases,
}
use tcp_svr.Cfg.Entry.{Entry, Config, error, ◌>>=◌}
use tcp_svr.Cfg.Cursor.Items.{items}
use tcp_svr.Cfg.Listing.{
  cfg_next_section, Listed, add_name, title_round, titles_loop, finish_list, list_names,
  list_sections,
}
use tcp_svr.Cfg.Listing.Buffer.{
  splice, joined, length-splice, splice-splice, add_name-splice, splice-nil, take_nil, take_none,
  joined-Cut, memmove-splice, splice-over, take-terminated, take-full, splice-front,
}
use tcp_svr.Cfg.Listing.Titles.{titles, Reads, NextTitle, section_loop-NextTitle, cfg_rewind-valid}

-- The names that are left, written behind each other where there is place.
abbrev Fills : ℕ → ℕ → List ℕ → List Bytes → Listed → Type 0
Fills cb curr buf names out =
    (c' : Config) × (out
      ≡ some (
        curr + length (take (cb - curr) (joined names)),
        splice curr (take (cb - curr) (joined names)) buf,
        c',
      ))

Fills-nothing :
    (cb curr : ℕ) (buf : List ℕ) (names : List Bytes) (c : Config)
    → take (cb - curr) (joined names) ≡ []
    → Fills cb curr buf names (some (curr, buf, c))
Fills-nothing cb curr buf names c nothing =
    let place : curr + length (take (cb - curr) (joined names)) ≡ curr =
      ap (λ x. curr + length x) nothing ∙ omega arith in
    (c, rw (place, nothing, splice-nil curr buf) refl)

Fills-add :
    (cb curr : ℕ) (buf : List ℕ) (s : Bytes) (names : List Bytes) (loop : ℕ → List ℕ → Listed)
    → curr ≤ cb
    → cb ≤ length buf
    → ((curr' : ℕ) (buf' : List ℕ)
        → curr' ≤ cb
        → length buf' ≡ length buf
        → Fills cb curr' buf' names (loop curr' buf'))
    → Fills cb curr buf (s ∷ names) (add_name buf cb curr s >>= λ (curr', buf'). loop curr' buf')
Fills-add cb curr buf s names loop low high later =
    let p = take (cb - curr) (s ++ 0 ∷ []) in
    let cut = joined-Cut cb curr s names low in
    let q = take (cb - (curr + length p)) (joined names) in
    let inside : curr + length p ≤ length buf = omega (arith, cut.fits, high) in
    let (c', done) =
      later (curr + length p) (splice curr p buf) cut.fits (length-splice curr p buf inside) in
    let place : curr + length p + length q ≡ curr + length (p ++ q) =
      omega (arith, length-append p q) in
    (
      c',
      rw
          (
            add_name-splice buf cb curr s low high,
            done,
            cut.whole,
            splice-splice curr p q buf inside,
            place,
          )
          refl,
    )

-- The loop of `list_sections` never writes behind the place that it is given, and fills it.
titles_loop-Fills :
    (fuel cb curr : ℕ) (buf : List ℕ) (es : List Entry) (c : Config)
    → length es < fuel
    → curr ≤ cb
    → cb ≤ length buf
    → Reads c es
    → Fills cb curr buf (titles (items es)) (titles_loop fuel cb curr buf c)
unfolding titles_loop title_round cfg_next_section NextTitle
titles_loop-Fills zero cb curr buf es c f low high r = absurd (omega arith)
titles_loop-Fills (suc fuel) cb curr buf es c f low high r = elim (Bool-cases (ltb curr cb)) [
  | inr full ↦
      rw (full, titles_loop)
        (Fills-nothing cb curr buf (titles (items es)) c
          (take_none (cb - curr) (joined (titles (items es))) (ground arith)))
  | inl more ↦
      let inner : length es < suc (length c.entries) =
        omega (arith, length-drop c.cursor c.entries, ap length r.place) in
      elim (section_loop-NextTitle (suc (length c.entries)) es c inner r) [
        | inl (c', nothing, done) ↦
            rw (more, done, nothing, titles_loop, title_round)
              (Fills-nothing cb curr buf [] c' (take_nil (cb - curr)))
        | inr (c', s, rest, done, whole, shown, less, r') ↦
            rw (more, done, whole, titles_loop, title_round, shown)
              (Fills-add cb curr buf s (titles (items rest))
                (λ curr' buf'. titles_loop fuel cb curr' buf' c') low high
                (λ curr' buf' low' same.
                  titles_loop-Fills fuel cb curr' buf' rest c' (omega (arith, less)) low'
                    (omega (arith, same, high)) r'))
      ]
]

finish-splice :
    (cb : ℕ) (all : Bytes) (buf : List ℕ) (c : Config)
    → 1 ≤ cb
    → cb ≤ length buf
    → finish_list cb
        (some (length (take cb all), splice 0 (take cb all) (splice 0 (0 ∷ []) buf), c))
      ≡ some (length (take cb all), splice 0 (take cb (all ++ 0 ∷ [])) buf, c)
unfolding finish_list
finish-splice cb all buf c low high =
    let t = take cb all in
    let size = length-take cb all in
    let cleared : length (splice 0 (0 ∷ []) buf) ≡ length buf =
      length-splice 0 (0 ∷ []) buf (omega (arith, low, high)) in
    elim (Bool-cases (ltb (length t) cb)) [
      | inl more ↦
          let short : length all < cb = ground (arith, size) in
          let fits : length t + 1 ≤ length buf = omega (arith, short, size, high) in
          rw
            (
              more,
              memmove-splice (splice 0 t (splice 0 (0 ∷ []) buf)) (length t) (0 ∷ []) (
                  omega (
                    arith,
                    fits,
                    cleared,
                    length-splice 0 t (splice 0 (0 ∷ []) buf) (omega (arith, fits, cleared)),
                  )),
            )
            (ap (λ b. some (length t, b, c))
              (splice-front t (0 ∷ []) (splice 0 (0 ∷ []) buf) (omega (arith, fits, cleared))
                ∙ splice-over 0 (t ++ 0 ∷ []) buf (omega (arith, length-append t (0 ∷ [])))
                ∙ ap (λ x. splice 0 x buf) (take-terminated cb all short)))
      | inr full ↦
          let long : cb ≤ length all = ground (arith, size) in
          rw
            (
              full,
              take-full cb all (0 ∷ []) long,
              splice-over 0 t buf (omega (arith, size, long, low)),
            )
            refl
    ]

Fills-start :
    (cb : ℕ) (buf : List ℕ) (names : List Bytes) (out : Listed)
    → Fills cb 0 buf names out
    → (c' : Config) × (out
        ≡ some (length (take cb (joined names)), splice 0 (take cb (joined names)) buf, c'))
Fills-start cb buf names out (c', done) =
    let whole : cb - 0 ≡ cb = omega arith in
    let count : 0 + length (take cb (joined names)) ≡ length (take cb (joined names)) =
      omega arith in
    (
      c',
      done
          ∙ ap (λ k. listed (0 + length (take k (joined names))) k) whole
          ∙ ap (λ n. listed n cb) count,
    )
  where
    listed : ℕ → ℕ → Listed
    listed n k = some (n, splice 0 (take k (joined names)) buf, c')

-- `list_sections` of a valid configuration, with a buffer of at least `cbRetBuffer` bytes, at least one,
-- writes nothing behind `cbRetBuffer`: it fills the front of the buffer with the names of the file's
-- sections, each with its terminator, and one more terminator, all cut at `cbRetBuffer`, and returns
-- the number of bytes that the names take.
pub list_sections-titles :
    (c : Config) (cb : ℕ) (buf : List ℕ)
    → c.valid ≡ true
    → 1 ≤ cb
    → cb ≤ length buf
    → (c' : Config) × (list_sections c cb buf
        ≡ some (
          length (take cb (joined (titles (items c.entries)))),
          splice 0 (take cb (joined (titles (items c.entries)) ++ 0 ∷ [])) buf,
          c',
        ))
unfolding list_sections list_names
list_sections-titles c cb buf ok low high =
    let start = record c { eof = false; kind = error; cursor = 0 } in
    let cleared = splice 0 (0 ∷ []) buf in
    let all = joined (titles (items c.entries)) in
    let room : cb ≤ length cleared =
      omega (arith, length-splice 0 (0 ∷ []) buf (omega (arith, low, high)), high) in
    let (c', done) = Fills-start cb cleared (titles (items c.entries)) _ (
      titles_loop-Fills (suc (length c.entries)) cb 0 cleared c.entries start (omega arith)
        (omega arith) room (record { ok = ok; going = refl; place = refl })) in
    (
      c',
      rw (memmove-splice buf 0 (0 ∷ []) (omega (arith, low, high)), cfg_rewind-valid c ok)
          (ap (finish_list cb) done ∙ finish-splice cb all buf c' low high),
    )
