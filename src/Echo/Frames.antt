-- ===== src/Echo/Frames.antt =====
-- The frames that `msgProc` takes.
use tcp_svr.Base.{
  ℕ, suc, ◌+◌, ◌-◌, ◌≤◌, ◌<◌, Bytes, [], ◌∷◌, ◌++◌, none, some, length, length-append, take, get_or,
  Bool, true, false, ◌==◌, ◌||◌, not, ltb, leb, if◌then◌else◌, ◌≡◌, refl, ap, ◌↔◌, arith,
}
use tcp_svr.Echo.{Json, msg_size, is_framed, answer_parsed, msg_proc}

-- A text in its frame, behind a byte for the kind of message.
pub frame : ℕ → Bytes → Bytes
frame kind text = b'@' ∷ b'@' ∷ kind ∷ (text ++ b'#' ∷ b'#' ∷ [])

short_frame : (s : Bytes) → is_framed s ≡ true → length s < 5 → s ≡ b'@' ∷ b'@' ∷ b'#' ∷ b'#' ∷ []
unfolding is_framed
short_frame [] e h = ground (arith, e)
short_frame (a ∷ []) e h = ground (arith, e)
short_frame (a ∷ b ∷ []) e h = ground (arith, e)
short_frame (a ∷ b ∷ c ∷ []) e h = ground (arith, e)
short_frame (a ∷ b ∷ c ∷ d ∷ []) e h =
    let at : a ≡ b'@' = ground (arith, e) in
    let at2 : b ≡ b'@' = ground (arith, e) in
    let hash : c ≡ b'#' = ground (arith, e) in
    let hash2 : d ≡ b'#' = ground (arith, e) in rw (at, at2, hash, hash2) refl
short_frame (a ∷ b ∷ c ∷ d ∷ x ∷ s) e h = absurd (omega arith)

get_or-behind :
    (a : Bytes) (b : ℕ) (rest : Bytes) (n : ℕ) → n ≡ length a → get_or (a ++ b ∷ rest) n 0 ≡ b
get_or-behind [] b rest n e = rw e refl
get_or-behind (x ∷ a) b rest n e = rw e (get_or-behind a b rest (length a) refl)

get_or-second :
    (a : Bytes) (b c : ℕ) (rest : Bytes) (n : ℕ)
    → n ≡ suc (length a)
    → get_or (a ++ b ∷ c ∷ rest) n 0 ≡ c
get_or-second [] b c rest n e = rw e refl
get_or-second (x ∷ a) b c rest n e = rw e (get_or-second a b c rest (suc (length a)) refl)

take-text : (text rest : Bytes) (n : ℕ) → n ≡ length text → take n (text ++ rest) ≡ text
take-text [] rest n e = rw e refl
take-text (b ∷ text) rest n e = rw e (ap (◌∷◌ b) (take-text text rest (length text) refl))

length-frame : (kind : ℕ) (text : Bytes) → length (frame kind text) ≡ length text + 5
unfolding frame
length-frame kind text = omega (arith, length-append text (b'#' ∷ b'#' ∷ []))

frame-is_framed : (kind : ℕ) (text : Bytes) → is_framed (frame kind text) ≡ true
unfolding is_framed frame
frame-is_framed kind text =
    let size = length-frame kind text in
    let front = b'@' ∷ b'@' ∷ kind ∷ text in
    rw
      (
        get_or-behind front b'#' (b'#' ∷ []) (length (frame kind text) - 2) (omega (arith, size)),
        get_or-second front b'#' b'#' [] (length (frame kind text) - 1) (omega (arith, size)),
      )
      refl

-- The tests of `msgProc` in a row.
only_fault :
    {A : Type 0} (refused framed short : Bool) (x y z : A)
    → (if refused then some x else if not framed then some y else if short then none else some z)
      ≡ none
    → (refused ≡ false) × (framed ≡ true) × (short ≡ true)
only_fault true framed short x y z e = cc
only_fault false false short x y z e = cc
only_fault false true false x y z e = cc
only_fault false true true x y z e = (refl, refl, refl)

module _ (j : Json) where
  -- A text of at most 155 bytes in its frame is answered as the JSON document that it is, whatever the
  -- byte for the kind of message.
  pub msg_proc-frame :
      (buffer : Bool) (kind : ℕ) (text : Bytes)
      → length text ≤ 155
      → msg_proc j buffer (frame kind text) ≡ some (answer_parsed j buffer (j.parse text))
  unfolding msg_proc frame
  msg_proc-frame buffer kind text h =
      let size = length-frame kind text in
      let short : (length (frame kind text) == 0 || ltb 160 (length (frame kind text))) ≡ false =
        ground (arith, size) in
      let long : (ltb (length (frame kind text)) 5 || leb msg_size (length (frame kind text) - 5))
          ≡ false =
        ground (arith, size) in
      rw
        (
          short,
          frame-is_framed kind text,
          long,
          take-text text (b'#' ∷ b'#' ∷ []) (length (frame kind text) - 5) (omega (arith, size)),
        )
        refl

  -- `msgProc` writes outside its buffer of 200 bytes, or leaves no terminator in it, for one message, "@@##", and for no
  -- other.
  pub msg_proc-faults :
      (buffer : Bool) (s : Bytes)
      → (msg_proc j buffer s ≡ none) ↔ (s ≡ b'@' ∷ b'@' ∷ b'#' ∷ b'#' ∷ [])
  unfolding msg_proc is_framed
  msg_proc-faults buffer s = (
    λ e.
        let (taken, framed, short) = only_fault _ (is_framed s) _ _ _ _ e in
        short_frame s framed (ground (arith, taken, short)),
    λ e. rw e refl,
  )
