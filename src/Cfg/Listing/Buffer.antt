-- ===== src/Cfg/Listing/Buffer.antt =====
-- Names written one behind the other into a buffer.
use tcp_svr.Base.{
  ℕ, zero, suc, ◌+◌, ◌-◌, ◌≤◌, ◌<◌, min, Bytes, List, [], ◌∷◌, ◌++◌, some, length, length-append,
  length-take, length-drop, take, drop, take_all, drop-drop, true, leb, ◌≡◌, refl, sym, ap, ◌∙◌,
  arith, append_assoc, append-nil, inl, inr, Bool-cases,
}
use tcp_svr.Cfg.Listing.{memmove, add_name}

-- The buffer with a text at a place.
unfoldable pub splice : ℕ → Bytes → List ℕ → List ℕ
splice at s buf = take at buf ++ s ++ drop (at + length s) buf

-- Each name with its terminator.
unfoldable pub joined : List Bytes → Bytes
joined [] = []
joined (s ∷ ss) = (s ++ 0 ∷ []) ++ joined ss

take_same : (n m : ℕ) (xs : Bytes) → n ≡ m → take n xs ≡ take m xs
take_same n m xs e = ap (λ k. take k xs) e

drop_same : (n m : ℕ) (xs : Bytes) → n ≡ m → drop n xs ≡ drop m xs
drop_same n m xs e = ap (λ k. drop k xs) e

pub take-append : (n : ℕ) (xs ys : Bytes) → take n (xs ++ ys) ≡ take n xs ++ take (n - length xs) ys
take-append zero xs ys = take_same 0 (0 - length xs) ys (omega arith)
take-append (suc n) [] ys = take_same (suc n) (suc n - 0) ys (omega arith)
take-append (suc n) (x ∷ xs) ys = ap (◌∷◌ x) (
    take-append n xs ys
    ∙ ap (◌++◌ (take n xs)) (take_same (n - length xs) (suc n - suc (length xs)) ys (omega arith)))

take-exact : (n : ℕ) (xs ys : Bytes) → length xs ≡ n → take n (xs ++ ys) ≡ xs
take-exact zero [] ys e = refl
take-exact zero (x ∷ xs) ys e = absurd (omega arith)
take-exact (suc n) [] ys e = absurd (omega arith)
take-exact (suc n) (x ∷ xs) ys e = ap (◌∷◌ x) (take-exact n xs ys (omega arith))

drop-exact : (n m : ℕ) (xs ys : Bytes) → length xs ≡ n → drop (n + m) (xs ++ ys) ≡ drop m ys
drop-exact zero m [] ys e = drop_same (0 + m) m ys (omega arith)
drop-exact zero m (x ∷ xs) ys e = absurd (omega arith)
drop-exact (suc n) m [] ys e = absurd (omega arith)
drop-exact (suc n) m (x ∷ xs) ys e =
    drop_same (suc n + m) (suc (n + m)) (x ∷ xs ++ ys) (omega arith)
    ∙ drop-exact n m xs ys (omega arith)

pub length-splice :
    (at : ℕ) (s : Bytes) (buf : List ℕ)
    → at + length s ≤ length buf
    → length (splice at s buf) ≡ length buf
unfolding splice
length-splice at s buf h = omega (
  arith,
  length-append (take at buf ++ s) (drop (at + length s) buf),
  length-append (take at buf) s,
  length-take at buf,
  length-drop (at + length s) buf,
)

-- A text behind a text is one text.
pub splice-splice :
    (at : ℕ) (a b : Bytes) (buf : List ℕ)
    → at + length a ≤ length buf
    → splice (at + length a) b (splice at a buf) ≡ splice at (a ++ b) buf
unfolding splice
splice-splice at a b buf h =
    let front : length (take at buf ++ a) ≡ at + length a =
      omega (arith, length-append (take at buf) a, length-take at buf) in
    rw
      (
        take-exact (at + length a) (take at buf ++ a) (drop (at + length a) buf) front,
        drop-exact (at + length a) (length b) (take at buf ++ a) (drop (at + length a) buf) front,
        drop-drop (at + length a) (length b) buf,
      )
      (ap (◌++◌ (take at buf ++ a ++ b)) (
          drop_same (at + length a + length b) (at + length (a ++ b)) buf
            (omega (arith, length-append a b)))
        ∙ ap (λ x. x ++ drop (at + length (a ++ b)) buf) (append_assoc (take at buf) a b))

pub memmove-splice :
    (buf : List ℕ) (at : ℕ) (s : Bytes)
    → at + length s ≤ length buf
    → memmove buf at s ≡ some (splice at s buf)
unfolding memmove splice
memmove-splice buf at s h =
    let fits : leb (at + length s) (length buf) ≡ true = ground arith in rw fits refl

take-min : (n k : ℕ) (xs : Bytes) → length xs ≡ n → take (min n k) xs ≡ take k xs
take-min n k xs e = elim (Bool-cases (leb n k)) [
  | inl fits ↦
      let low : n ≤ k = ground arith in
      take_all (min n k) xs (omega (arith, low, e)) ∙ sym (take_all k xs (omega (arith, low, e)))
  | inr long ↦ let high : k ≤ n = ground arith in take_same (min n k) k xs (omega (arith, high))
]

-- The place behind a name, and the buffer with it.
pub add_name-splice :
    (buf : List ℕ) (cb curr : ℕ) (s : Bytes)
    → curr ≤ cb
    → cb ≤ length buf
    → add_name buf cb curr s
      ≡ some (
        curr + length (take (cb - curr) (s ++ 0 ∷ [])),
        splice curr (take (cb - curr) (s ++ 0 ∷ [])) buf,
      )
unfolding add_name
add_name-splice buf cb curr s low high =
    let name = s ++ 0 ∷ [] in
    let size : length name ≡ length s + 1 = length-append s (0 ∷ []) in
    let piece = take-min (length s + 1) (cb - curr) name size in
    let cut : length (take (cb - curr) name) ≡ min (length s + 1) (cb - curr) =
      omega (arith, length-take (cb - curr) name, size) in
    rw (piece, memmove-splice buf curr (take (cb - curr) name) (omega (arith, cut, low, high)), cut)
      refl

pub take_none : (n : ℕ) (xs : Bytes) → n ≡ 0 → take n xs ≡ []
take_none n xs e = ap (λ k. take k xs) e

pub take_nil : (n : ℕ) → take n (joined []) ≡ []
unfolding joined
take_nil zero = refl
take_nil (suc n) = refl

take-drop : (n : ℕ) (xs : List ℕ) → take n xs ++ drop n xs ≡ xs
take-drop zero xs = refl
take-drop (suc n) [] = refl
take-drop (suc n) (x ∷ xs) = ap (◌∷◌ x) (take-drop n xs)

pub splice-nil : (at : ℕ) (buf : List ℕ) → splice at [] buf ≡ buf
unfolding splice
splice-nil at buf =
    ap (λ x. x ++ drop (at + 0) buf) (append-nil (take at buf))
    ∙ ap (◌++◌ (take at buf)) (drop_same (at + 0) at buf (omega arith))
    ∙ take-drop at buf

-- A name and the names behind it, in the place that there is.
pub record Cut (cb curr : ℕ) (s : Bytes) (names : List Bytes) (place : ℕ) : Type 0 where
  pub fits : place ≤ cb
  pub whole :
      take (cb - curr) (joined (s ∷ names))
      ≡ take (cb - curr) (s ++ 0 ∷ []) ++ take (cb - place) (joined names)

pub joined-Cut :
    (cb curr : ℕ) (s : Bytes) (names : List Bytes)
    → curr ≤ cb
    → Cut cb curr s names (curr + length (take (cb - curr) (s ++ 0 ∷ [])))
unfolding joined
joined-Cut cb curr s names low =
    let name = s ++ 0 ∷ [] in
    let place = curr + length (take (cb - curr) name) in
    let left : cb - curr - length name ≡ cb - place =
      omega (arith, length-take (cb - curr) name, low) in
    record {
      fits = omega (arith, length-take (cb - curr) name, low);
      whole =
          take-append (cb - curr) name (joined names)
          ∙ ap (◌++◌ (take (cb - curr) name))
              (take_same (cb - curr - length name) (cb - place) (joined names) left);
    }

-- What is written over is not seen.
pub splice-over :
    (a : ℕ) (s : Bytes) (buf : List ℕ)
    → 1 ≤ length s
    → splice 0 s (splice 0 (a ∷ []) buf) ≡ splice 0 s buf
unfolding splice
splice-over a [] buf h = absurd (omega arith)
splice-over a (b ∷ s) buf h = ap (◌++◌ (b ∷ s)) (
    drop_same (0 + suc (length s)) (suc (length s)) (a ∷ drop 1 buf) (omega arith)
    ∙ drop-drop 1 (length s) buf
    ∙ drop_same (1 + length s) (0 + suc (length s)) buf (omega arith))

-- The text cut at the end of the place, with a terminator behind it where there is room.
pub take-terminated : (n : ℕ) (s : Bytes) → length s < n → take n s ++ 0 ∷ [] ≡ take n (s ++ 0 ∷ [])
take-terminated n s h =
    ap (λ x. x ++ 0 ∷ []) (take_all n s (omega arith))
    ∙ sym (take_all n (s ++ 0 ∷ []) (omega (arith, length-append s (0 ∷ []))))

pub take-full : (n : ℕ) (s t : Bytes) → n ≤ length s → take n (s ++ t) ≡ take n s
take-full n s t h =
    take-append n s t
    ∙ ap (◌++◌ (take n s)) (take_none (n - length s) t (omega arith))
    ∙ append-nil (take n s)

pub splice-front :
    (a b : Bytes) (buf : List ℕ)
    → length a ≤ length buf
    → splice (length a) b (splice 0 a buf) ≡ splice 0 (a ++ b) buf
splice-front a b buf h =
    move (length a) (0 + length a) (omega arith) ∙ splice-splice 0 a b buf (omega arith)
  where
    move : (n m : ℕ) → n ≡ m → splice n b (splice 0 a buf) ≡ splice m b (splice 0 a buf)
    move n m e = ap (λ k. splice k b (splice 0 a buf)) e
