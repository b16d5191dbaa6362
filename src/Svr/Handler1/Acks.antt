-- ===== src/Svr/Handler1/Acks.antt =====
-- What `_Msg_handler1` answers and returns.
use tcp_svr.Base.{
  ℕ, zero, suc, ◌+◌, ◌/◌, ◌<◌, Bytes, List, [], ◌∷◌, ◌++◌, codes, length, drop, length-drop, some,
  ℤ, pos, is_pos, is_neg, Bool, true, false, if◌then◌else◌, ◌≡◌, refl, sym, ap, ◌∙◌, inl, inr,
  arith, Bool-cases, append-nil, append_assoc, take_all,
}
use tcp_svr.Os.{Os, Call, History, delivered, SendBounded}
use tcp_svr.Net.Send.{net_send}
use tcp_svr.Net.Send.Delivery.{net_send-delivers}
use tcp_svr.Svr.Request.{Request, hello, incomplete, command, parse_request, tcp_msg_len}
use tcp_svr.Svr.Request.Fields.{fields, meaning, parse_request-meaning}
use tcp_svr.Svr.Handler1.{text_at, is_refused, answer_request, handle_from, msg_handler1}

-- The texts of the frames from `i` on, up to the first one that is refused.
pub accepted : Bytes → ℕ → ℕ → List Bytes
accepted buf zero i = []
accepted buf (suc left) i =
    if is_refused buf i then [] else text_at buf i ∷ accepted buf left (i + 1)

pub is_command : Request → Bool
is_command (command a t r) = true
is_command _ = false

-- "ack" for each text whose fields make a command.
pub acks : List Bytes → Bytes
unfolding is_command
acks [] = []
acks (m ∷ ms) = if is_command (meaning (fields m)) then codes "ack" ++ acks ms else acks ms

-- send(2) takes all that it is passed.
abbrev pub SendsAll : Os → Type 0
SendsAll os = (h : History) (fd : ℤ) (bs : Bytes) → (os h (Call.send fd bs)).ret ≡ pos (length bs)

SendsAll-SendBounded : (os : Os) → SendsAll os → SendBounded os
SendsAll-SendBounded os all h fd bs = rw (all h fd bs) (omega arith)

length_pos : (bs : Bytes) → is_pos (pos (length bs)) ≡ false → length bs ≡ 0
length_pos [] e = refl
length_pos (b ∷ bs) e = cc

pub net_send-all :
    (os : Os) (fd : ℤ) (buf : Bytes) (h : History)
    → SendsAll os
    → 0 < length buf
    → delivered os (net_send os fd (some buf) h).1 ≡ delivered os h ++ buf
net_send-all os fd buf h all ne =
    let (n, wire, end) = net_send-delivers os fd buf h (SendsAll-SendBounded os all) ne in
    wire
    ∙ ap (◌++◌ (delivered os h)) (
        take_all n buf (elim end [
          | inl (whole, _) ↦ omega arith
          | inr (g, short, _, _, bad) ↦ absurd (
              omega (
                arith,
                length-drop n buf,
                length_pos (drop n buf) (rw (all g fd (drop n buf)) at bad),
              ))
        ]))

answer-acks :
    (os : Os) (sock ret : ℤ) (h : History) (r : Request)
    → SendsAll os
    → delivered os (answer_request os sock ret r h).1
      ≡ delivered os h ++ (if is_command r then codes "ack" else [])
unfolding answer_request is_command
answer-acks os sock ret h hello all = sym (append-nil _)
answer-acks os sock ret h incomplete all = sym (append-nil _)
answer-acks os sock ret h (command a t r) all =
    net_send-all os sock (codes "ack") h all (omega arith)

acks-cons :
    (os : Os) (h : History) (m : Bytes) (ms : List Bytes)
    → (delivered os h ++ (if is_command (meaning (fields m)) then codes "ack" else [])) ++ acks ms
      ≡ delivered os h ++ acks (m ∷ ms)
unfolding acks
acks-cons os h m ms = elim (Bool-cases (is_command (meaning (fields m)))) [
  | inl e ↦ rw e (append_assoc (delivered os h) (codes "ack") (acks ms))
  | inr e ↦ rw (e, append-nil)
]

handle_from-acks :
    (os : Os) (sock : ℤ) (buf : Bytes) (left i : ℕ) (ret : ℤ) (h : History)
    → SendsAll os
    → delivered os (handle_from os sock buf left i ret h).1
      ≡ delivered os h ++ acks (accepted buf left i)
unfolding handle_from accepted acks
handle_from-acks os sock buf zero i ret h all = sym (append-nil (delivered os h))
handle_from-acks os sock buf (suc left) i ret h all = elim (Bool-cases (is_refused buf i)) [
  | inl stop ↦ rw (stop, handle_from) (sym (append-nil (delivered os h)))
  | inr go ↦
      let out = answer_request os sock ret (parse_request (text_at buf i)) h in
      rw (go, handle_from)
        (handle_from-acks os sock buf left (i + 1) out.0 out.1 all
          ∙ rw (answer-acks os sock ret h (parse_request (text_at buf i)) all) (
              rw parse_request-meaning
                (acks-cons os h (text_at buf i) (accepted buf left (i + 1)))))
]

-- `_Msg_handler1` puts on the wire one "ack" for each message that stands before the first refused
-- frame and has three or more fields, the first of them not "hello", and nothing else, if send(2)
-- takes all that it is passed.
pub msg_handler1-acks :
    (os : Os) (sock : ℤ) (buf : Bytes) (len : ℕ) (h : History)
    → SendsAll os
    → delivered os (msg_handler1 os sock buf len h).1
      ≡ delivered os h ++ acks (accepted buf (len / tcp_msg_len) 0)
unfolding msg_handler1
msg_handler1-acks os sock buf len h all = handle_from-acks os sock buf _ 0 (pos 0) h all

answer-nonneg :
    (os : Os) (sock ret : ℤ) (h : History) (r : Request)
    → SendBounded os
    → is_neg ret ≡ false
    → is_neg (answer_request os sock ret r h).0 ≡ false
unfolding answer_request
answer-nonneg os sock ret h hello b n = n
answer-nonneg os sock ret h incomplete b n = n
answer-nonneg os sock ret h (command a t r) b n =
    ground (arith, net_send-delivers os sock (codes "ack") h b (omega arith))

handle_from-nonneg :
    (os : Os) (sock : ℤ) (buf : Bytes) (left i : ℕ) (ret : ℤ) (h : History)
    → SendBounded os
    → is_neg ret ≡ false
    → is_neg (handle_from os sock buf left i ret h).0 ≡ false
unfolding handle_from
handle_from-nonneg os sock buf zero i ret h b n = n
handle_from-nonneg os sock buf (suc left) i ret h b n = elim (Bool-cases (is_refused buf i)) [
  | inl stop ↦ rw (stop, handle_from) n
  | inr go ↦
      let out = answer_request os sock ret (parse_request (text_at buf i)) h in
      rw (go, handle_from)
        (handle_from-nonneg os sock buf left (i + 1) out.0 out.1 b
          (answer-nonneg os sock ret h (parse_request (text_at buf i)) b n))
]

-- `_Msg_handler1` never returns an error, also when a reply cannot be sent: NET_Send reports a failed
-- call as 0, the number of bytes taken before it.
pub msg_handler1-nonneg :
    (os : Os) (sock : ℤ) (buf : Bytes) (len : ℕ) (h : History)
    → SendBounded os
    → is_neg (msg_handler1 os sock buf len h).0 ≡ false
unfolding msg_handler1
msg_handler1-nonneg os sock buf len h b = handle_from-nonneg os sock buf _ 0 (pos 0) h b refl
