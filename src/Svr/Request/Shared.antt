-- ===== src/Svr/Request/Shared.antt =====
-- `strtok` with the static position that the threads of all clients share, and the calls that two threads make of it.
use tcp_svr.Base.{
  Bytes, List, codes, str_eq, [], ◌∷◌, Option, none, some, Bool, true, false, if◌then◌else◌, ◌≡◌,
  refl, ap, ◌∙◌,
}
use tcp_svr.Svr.Request.{strtok, Request, hello}
use tcp_svr.Svr.Request.Fields.{
  fields, first, rest, kept, kept-fields, by_tokens, meaning, by_tokens-meaning,
}

-- `strtok (s, ",")`; `none` is a null pointer, with which the search goes on where the last one ended, whoever made it.
pub strtok_call : Option Bytes → Bytes → Option Bytes × Bytes
strtok_call none position = kept (strtok position)
strtok_call (some s) position = kept (strtok s)

-- Where the handler of a message is: before its first, second or third call, or behind them.
pub data Reader : Type 0 where
  fresh : Bytes → Reader
  second : Option Bytes → Reader
  third : Option Bytes → Option Bytes → Reader
  done : Request → Reader

pub after_first : Option Bytes → Reader
after_first none = second none
after_first (some action) =
    if str_eq action (codes "hello") then done hello else second (some action)

-- The next call of a handler.
pub read_step : Reader → Bytes → Reader × Bytes
read_step (fresh msg) position =
    let (token, next) = strtok_call (some msg) position in (after_first token, next)
read_step (second a) position =
    let (token, next) = strtok_call none position in (third a token, next)
read_step (third a b) position =
    let (token, next) = strtok_call none position in (done (by_tokens a b token), next)
read_step (done r) position = (done r, position)

-- Two handlers and the position; `true` is a call of the first one's.
pub record Pair : Type 0 where
  pub one : Reader
  pub other : Reader
  pub position : Bytes

pub pair_step : Bool → Pair → Pair
pair_step true p =
    let (r, next) = read_step p.one p.position in record p { one = r; position = next }
pair_step false p =
    let (r, next) = read_step p.other p.position in record p { other = r; position = next }

pub interleave : List Bool → Pair → Pair
interleave [] p = p
interleave (b ∷ bs) p = interleave bs (pair_step b p)

-- The first, the second and the third call.
pub three_steps : Reader → Bytes → Reader × Bytes
three_steps r position =
    let (r1, p1) = read_step r position in let (r2, p2) = read_step r1 p1 in read_step r2 p2

first_step :
    (s position : Bytes)
    → read_step (fresh s) position ≡ (after_first (first (fields s)), (kept (strtok s)).1)
unfolding read_step strtok_call
first_step s position = ap (λ t. (after_first t, (kept (strtok s)).1)) (kept-fields s).0

-- The second and the third call, from a position in a text.
second_step :
    (a : Option Bytes) (p : Bytes)
    → read_step (second a) p ≡ (third a (first (fields p)), (kept (strtok p)).1)
unfolding read_step strtok_call
second_step a p = ap (λ t. (third a t, (kept (strtok p)).1)) (kept-fields p).0

third_step :
    (a b : Option Bytes) (p : Bytes)
    → read_step (third a b) p ≡ (done (by_tokens a b (first (fields p))), (kept (strtok p)).1)
unfolding read_step strtok_call
third_step a b p = ap (λ t. (done (by_tokens a b t), (kept (strtok p)).1)) (kept-fields p).0

-- Both, from a position whose fields are known.
last_steps :
    (a : Option Bytes) (p : Bytes) (fs : List Bytes)
    → fields p ≡ fs
    → (q : Bytes) × (fields q ≡ rest (rest fs))
      × (read_step (second a) p ≡ (third a (first fs), (kept (strtok p)).1))
      × (read_step (third a (first fs)) (kept (strtok p)).1
          ≡ (done (by_tokens a (first fs) (first (rest fs))), q))
last_steps a p fs e =
    let q = (kept (strtok p)).1 in
    let behind : fields q ≡ rest fs = (kept-fields p).1 ∙ ap rest e in
    (
      (kept (strtok q)).1,
      (kept-fields q).1 ∙ ap rest behind,
      second_step a p ∙ ap (λ l. (third a (first l), q)) e,
      third_step a (first fs) q
          ∙ ap (λ l. (done (by_tokens a (first fs) (first l)), (kept (strtok q)).1)) behind,
    )

-- The first call found a token that is not "hello".
goes_on : (a : Bytes) → str_eq a (codes "hello") ≡ false → after_first (some a) ≡ second (some a)
unfolding after_first
goes_on a other = rw other refl

first_of : (s a : Bytes) (fs : List Bytes) → fields s ≡ a ∷ fs → first (fields s) ≡ some a
unfolding first
first_of s a fs e = ap first e

rest_of : (s a : Bytes) (fs : List Bytes) → fields s ≡ a ∷ fs → fields (kept (strtok s)).1 ≡ fs
unfolding rest
rest_of s a fs e = (kept-fields s).1 ∙ ap rest e

-- What the first call leads to.
begins :
    (s position a : Bytes) (fs : List Bytes)
    → fields s ≡ a ∷ fs
    → str_eq a (codes "hello") ≡ false
    → read_step (fresh s) position ≡ (second (some a), (kept (strtok s)).1)
begins s position a fs e other =
    first_step s position
    ∙ ap (λ o. (after_first o, (kept (strtok s)).1)) (first_of s a fs e)
    ∙ ap (λ r. (r, (kept (strtok s)).1)) (goes_on a other)

-- Where two handlers of messages that have a first field, no "hello", call strtok in the order one, other, one, one, other, other, the
-- first one takes its second and third token from the other's message, and the other one takes its own from what is left
-- of that, if anything is.
pub interleave-crossed :
    (mine other position a b : Bytes) (xs bs : List Bytes)
    → fields mine ≡ a ∷ xs
    → fields other ≡ b ∷ bs
    → str_eq a (codes "hello") ≡ false
    → str_eq b (codes "hello") ≡ false
    → let calls = true ∷ false ∷ true ∷ true ∷ false ∷ false ∷ [] in
      let p =
        interleave calls (record { one = fresh mine; other = fresh other; position = position }) in
      (p.one ≡ done (meaning (a ∷ bs))) × (p.other ≡ done (meaning (b ∷ rest (rest bs))))
unfolding interleave pair_step
interleave-crossed mine other position a b xs bs e f n m =
    let (q, left, s2, s3) = last_steps (some a) (kept (strtok other)).1 bs (rest_of other b bs f) in
    let (z, _, t2, t3) = last_steps (some b) q (rest (rest bs)) left in
    let one = begins mine position a xs e n in
    let two = begins other (kept (strtok mine)).1 b bs f m in
    rw (one, two, s2, s3, t2, t3)
      (ap done (by_tokens-meaning a bs n), ap done (by_tokens-meaning b (rest (rest bs)) m))
