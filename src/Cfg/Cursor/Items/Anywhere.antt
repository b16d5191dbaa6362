-- ===== src/Cfg/Cursor/Items/Anywhere.antt =====
-- `cfg_find` with no section.
use tcp_svr.Base.{
  ℕ, zero, suc, ◌≤◌, Bytes, List, [], ◌∷◌, Option, none, some, length, pos, negsuc, neg, Bool, true,
  false, not, if◌then◌else◌, ◌≡◌, refl, sym, subst, ◌∙◌, inl, inr, arith, ◌≢◌,
}
use tcp_svr.Cfg.Entry.{Kind, error, section, define, continue, Config}
use tcp_svr.Cfg.Cursor.{
  Outcome, cfg_rewind, cfg_nextentry, same_key, decide_key, enter_section, find_step, follow,
  find_round, find_loop, cfg_find,
}
use tcp_svr.Cfg.Cursor.Items.{Item, sect, def, cont, items, Shows, nextentry-Next}
use tcp_svr.Cfg.Cursor.Items.Find.{lookup_in, search_at, Answers, Answers-same, find_loop-Answers}

-- Once the search is inside, the section that was asked for is not looked at again.
follow-inside :
    (o : Option Bool) (c : Config) (f g : Bool → Config → Option Outcome)
    → f true c ≡ g true c
    → follow (decide_key o) c f ≡ follow (decide_key o) c g
unfolding follow
follow-inside none c f g e = refl
follow-inside (some true) c f g e = refl
follow-inside (some false) c f g e = e

step-inside :
    (s : Bytes) (id : Option Bytes) (k : Kind) (cs ci : Option Bytes) (c : Config)
    (f g : Bool → Config → Option Outcome)
    → f true c ≡ g true c
    → follow (find_step none id true k cs ci) c f ≡ follow (find_step (some s) id true k cs ci) c g
unfolding find_step follow
step-inside s id section cs ci c f g e = refl
step-inside s id define cs ci c f g e = follow-inside (same_key ci id) c f g e
step-inside s id error cs ci c f g e = e
step-inside s id continue cs ci c f g e = e

round-inside :
    (s : Bytes) (id : Option Bytes) (out : Outcome) (f g : Bool → Config → Option Outcome)
    → ((c : Config) → f true c ≡ g true c)
    → find_round none id true out f ≡ find_round (some s) id true out g
unfolding find_round
round-inside s id (negsuc n, c) f g e = refl
round-inside s id (pos n, c) f g e = step-inside s id c.kind c.cur_section c.cur_id c f g (e c)

find_loop-inside :
    (fuel : ℕ) (s : Bytes) (id : Option Bytes) (c : Config)
    → find_loop fuel none id true c ≡ find_loop fuel (some s) id true c
unfolding find_loop
find_loop-inside zero s id c = refl
find_loop-inside (suc fuel) s id c =
    round-inside s id (cfg_nextentry c) (find_loop fuel none id) (find_loop fuel (some s) id)
      (find_loop-inside fuel s id)

-- What the first item makes of a search with no section, where the items behind it give `o`.
abbrev FirstDecides : Item → Option Bytes → Config → Option Outcome → Type 0
FirstDecides (sect s) o c out = out ≡ none
FirstDecides (def i v) o c out = Answers o c out
FirstDecides (cont v) o c out = Answers o c out

FirstDecides-same :
    (it : Item) (o : Option Bytes) (c d : Config) (out : Option Outcome)
    → c.entries ≡ d.entries
    → FirstDecides it o c out
    → FirstDecides it o d out
FirstDecides-same (sect s) o c d out e a = a
FirstDecides-same (def i v) o c d out e a = Answers-same o c d out e a
FirstDecides-same (cont v) o c d out e a = Answers-same o c d out e a

first_round :
    (k : Bytes) (it : Item) (o : Option Bytes) (c d : Config) (f : Bool → Config → Option Outcome)
    → Shows it c
    → Answers o d (f true c)
    → FirstDecides it o d (follow (find_step none (some k) false c.kind c.cur_section c.cur_id) c f)
unfolding follow find_step enter_section
first_round k (sect s) o c d f (e, g) later = simp (e, g) refl
first_round k (def i v) o c d f (e, g, h) later = simp e later
first_round k (cont v) o c d f (e, g) later = simp e later

no_section :
    (fuel : ℕ) (c : Config) (k : Bytes) (it : Item) (its : List Item)
    → length c.entries ≤ fuel
    → c.valid ≡ true
    → c.eof ≡ false
    → c.cursor ≡ 0
    → items c.entries ≡ it ∷ its
    → FirstDecides it (lookup_in k its) c (find_loop (suc fuel) none (some k) false c)
unfolding find_loop find_round search_at
no_section fuel c k it its f ok open_ start first =
    elim (nextentry-Next c c.entries ok open_ (rw start refl)) [
      | inl (c', nothing, done, same) ↦ absurd (cons≢nil (sym first ∙ nothing))
      | inr (c', it', rest, reads, a) ↦
          let one : it' ≡ it = cc in
          let behind : items rest ≡ its = cc in
          let loop = find_loop fuel none (some k) in
          let out =
            follow (find_step none (some k) false c'.kind c'.cur_section c'.cur_id) c' loop in
          rw (reads, find_round)
            (subst (λ (i : Item). FirstDecides i (lookup_in k its) c out) one
              (subst (λ (l : List Item). FirstDecides it' (lookup_in k l) c out) behind
                (first_round k it' (lookup_in k (items rest)) c' c loop a.shown (
                  rw (find_loop-inside fuel [] (some k) c') (
                    Answers-same _ c' c _ a.same_entries (
                      find_loop-Answers fuel true [] k c' rest (omega (arith, a.shorter))
                        (a.still_valid ∙ ok) (a.not_eof ∙ open_) a.place))))))
    ]
  where
    cons≢nil : {x : Item} {l : List Item} → x ∷ l ≢ []
    cons≢nil e = cc

-- A file's first item decides a search with no section: a section makes strcmp(3) fault on the null
-- pointer; any other item is passed over, its key not compared, and the search goes on for the key
-- among the items behind it, up to the next section.
pub cfg_find-anywhere :
    (c : Config) (k : Bytes) (it : Item) (its : List Item)
    → c.valid ≡ true
    → items c.entries ≡ it ∷ its
    → FirstDecides it (lookup_in k its) c (cfg_find c none (some k))
unfolding cfg_find cfg_rewind
cfg_find-anywhere c k it its ok first =
    let d = record c { eof = false; kind = error; cursor = 0 } in
    let fuel = suc (length c.entries) in
    subst
      (λ (b : Bool).
        let start : Outcome = if b then (pos 0, d) else (neg 1, c) in
        FirstDecides it (lookup_in k its) c
          (if not b then some (neg 1, c) else find_loop fuel none (some k) false start.1))
      (sym ok)
      (FirstDecides-same it (lookup_in k its) d c _ refl
        (no_section (length c.entries) d k it its (omega arith) ok refl refl first))
