-- ===== src/Svr/Handler2/Replies.antt =====
-- What `_Msg_handler2` answers.
use tcp_svr.Base.{
  ℕ, zero, suc, ◌+◌, ◌*◌, ◌/◌, ◌%◌, ◌^◌, ◌<◌, Bytes, [], ◌∷◌, ◌++◌, length, get_or, take, drop, ℤ,
  pos, Bool, true, false, ◌==◌, ltb, if◌then◌else◌, ◌≡◌, refl, sym, ap, ◌∙◌, arith, Bool-cases, inl,
  inr, append-nil, append_assoc, length-append, some, ◌⊎◌, ◌≢◌,
}
use tcp_svr.Os.{Os, History, delivered}
use tcp_svr.Net.Send.{net_send}
use tcp_svr.Svr.Handler1.Acks.{SendsAll, net_send-all}
use tcp_svr.Svr.Request.{cstr}
use tcp_svr.Svr.Handler2.{
  be32_at, be32, cmd_size, unknown_msg, MsgRes, encode_res, gmcode_of, response_to, ret_code,
  reply_to, handle2_from, msg_handler2, start_record, start_record_r, stop_record, stop_record_r,
}

-- A client's reading of a response.
pub decode_res : Bytes → MsgRes
decode_res b = record {
  cmd = be32_at b 0;
  size = be32_at b 4;
  ver = get_or b 8 0 * 0x100 + get_or b 9 0;
  gmcode = take 16 (drop 10 b);
  ret = be32_at b 26;
}

-- The numbers of a response fit their fields.
pub record Fits (r : MsgRes) : Type 0 where
  pub cmd_fits : r.cmd < 2 ^ 32
  pub size_fits : r.size < 2 ^ 32
  pub ver_fits : r.ver < 2 ^ 16
  pub gmcode_fits : length r.gmcode ≡ 16
  pub ret_fits : r.ret < 2 ^ 32

get_or-append : (g xs : Bytes) (i j d : ℕ) → i ≡ length g + j → get_or (g ++ xs) i d ≡ get_or xs j d
get_or-append [] xs i j d e = ap (λ k. get_or xs k d) (omega arith)
get_or-append (b ∷ g) xs zero j d e = absurd (omega arith)
get_or-append (b ∷ g) xs (suc i) j d e = get_or-append g xs i j d (omega arith)

take-append : (n : ℕ) (g xs : Bytes) → length g ≡ n → take n (g ++ xs) ≡ g
take-append zero [] xs e = refl
take-append zero (b ∷ g) xs e = absurd (omega arith)
take-append (suc n) [] xs e = absurd (omega arith)
take-append (suc n) (b ∷ g) xs e = ap (◌∷◌ b) (take-append n g xs (omega arith))

be32_at-be32 :
    (g : Bytes) (n : ℕ)
    → length g ≡ 16
    → n < 2 ^ 32
    → get_or (g ++ be32 n) 16 0 * 0x1000000
        + get_or (g ++ be32 n) 17 0 * 0x10000
        + get_or (g ++ be32 n) 18 0 * 0x100
        + get_or (g ++ be32 n) 19 0
      ≡ n
be32_at-be32 g n e f = omega (
  arith,
  get_or-append g (be32 n) 16 0 0 (omega arith),
  get_or-append g (be32 n) 17 1 0 (omega arith),
  get_or-append g (be32 n) 18 2 0 (omega arith),
  get_or-append g (be32 n) 19 3 0 (omega arith),
)

-- A response is read back from its bytes.
pub decode_res-encode_res : (r : MsgRes) → Fits r → decode_res (encode_res r) ≡ r
unfolding decode_res encode_res
decode_res-encode_res r f = λ i. record {
  cmd = number r.cmd f.cmd_fits i;
  size = number r.size f.size_fits i;
  ver = short i;
  gmcode = take-append 16 r.gmcode (be32 r.ret) f.gmcode_fits i;
  ret = be32_at-be32 r.gmcode r.ret f.gmcode_fits f.ret_fits i;
}
  where
    number : (n : ℕ) → n < 2 ^ 32 → be32_at (be32 n) 0 ≡ n
    number n h = omega arith

    short : r.ver / 0x100 % 256 * 0x100 + r.ver % 256 ≡ r.ver
    short = omega (arith, f.ver_fits)

-- So many copies of some bytes.
pub copies : ℕ → Bytes → Bytes
copies zero b = []
copies (suc n) b = b ++ copies n b

reply_to-again : (buf : Bytes) → reply_to buf (reply_to buf 0).ret ≡ reply_to buf 0
unfolding reply_to ret_code
reply_to-again buf = ground arith

length-encode_res : (r : MsgRes) → 0 < length (encode_res r)
unfolding encode_res
length-encode_res r = omega arith

handle2_from-copies :
    (os : Os) (sock : ℤ) (buf : Bytes) (left code : ℕ) (ret : ℤ) (h : History)
    → SendsAll os
    → (be32_at buf 4 == cmd_size) ≡ true
    → reply_to buf code ≡ reply_to buf 0
    → delivered os (handle2_from os sock buf left code ret h).1
      ≡ delivered os h ++ copies left (encode_res (reply_to buf 0))
unfolding handle2_from copies
handle2_from-copies os sock buf zero code ret h all e same = sym (append-nil _)
handle2_from-copies os sock buf (suc left) code ret h all e same =
    let r = reply_to buf code in
    let out = net_send os sock (some (encode_res r)) h in
    rw (e, handle2_from)
      (handle2_from-copies os sock buf left r.ret out.0 out.1 all e
          (ap (λ (q : MsgRes). reply_to buf q.ret) same ∙ reply_to-again buf)
        ∙ rw (net_send-all os sock (encode_res r) h all (length-encode_res r), same)
            (append_assoc (delivered os h) _ _))

handle2_from-refused :
    (os : Os) (sock : ℤ) (buf : Bytes) (left : ℕ) (h : History)
    → (be32_at buf 4 == cmd_size) ≡ false
    → delivered os (handle2_from os sock buf left 0 (pos 0) h).1 ≡ delivered os h ++ []
unfolding handle2_from
handle2_from-refused os sock buf zero h e = sym (append-nil _)
handle2_from-refused os sock buf (suc left) h e = rw (e, handle2_from) (sym (append-nil _))

-- `_Msg_handler2` answers every packet of the buffer with the reply to the first: it puts on the wire
-- as many copies of that reply as there are whole packets, or nothing if the first packet's size
-- field is not 30, if send(2) takes all that it is passed.
pub msg_handler2-copies :
    (os : Os) (sock : ℤ) (buf : Bytes) (len : ℕ) (h : History)
    → SendsAll os
    → delivered os (msg_handler2 os sock buf len h).1
      ≡ delivered os h
        ++ (if be32_at buf 4 == cmd_size
            then copies (len / cmd_size) (encode_res (reply_to buf 0))
            else [])
unfolding msg_handler2
msg_handler2-copies os sock buf len h all = elim (Bool-cases (be32_at buf 4 == cmd_size)) [
  | inl e ↦ rw e (handle2_from-copies os sock buf (len / cmd_size) 0 (pos 0) h all e refl)
  | inr e ↦ rw e (handle2_from-refused os sock buf (len / cmd_size) h e)
]

length-gmcode_of : (b : Bytes) (n : ℕ) → length (gmcode_of b n) ≡ n
unfolding gmcode_of
length-gmcode_of b zero = refl
length-gmcode_of b (suc n) = ap suc (length-gmcode_of b n)

response_to-lt : (a : ℕ) (b : Bool) → response_to a b < 2 ^ 16
unfolding response_to
response_to-lt a b = ground arith

ret_code-lt : (r : ℕ) → ret_code 0 r < 2 ^ 16
unfolding ret_code
ret_code-lt r = ground arith

reply_to-Fits : (buf : Bytes) → Fits (reply_to buf 0)
unfolding reply_to
reply_to-Fits buf = record {
  cmd_fits =
      omega (arith, response_to-lt (be32_at buf 0) (ltb 0 (length (cstr (gmcode_of buf 16)))));
  size_fits = omega arith;
  ver_fits = omega arith;
  gmcode_fits = length-gmcode_of buf 16;
  ret_fits =
      omega (
        arith,
        ret_code-lt (response_to (be32_at buf 0) (ltb 0 (length (cstr (gmcode_of buf 16))))),
      );
}

length-reply_to : (buf : Bytes) → length (encode_res (reply_to buf 0)) ≡ 30
unfolding encode_res reply_to
length-reply_to buf =
    omega
      (arith, length-append (gmcode_of buf 16) (be32 (reply_to buf 0).ret), length-gmcode_of buf 16)

response :
    (a : ℕ) (named : Bool)
    → (named ≡ true
        → a ≡ start_record
        → (response_to a named ≡ start_record_r) × (ret_code 0 (response_to a named) ≡ 0))
      × (named ≡ true
          → a ≡ stop_record
          → (response_to a named ≡ stop_record_r) × (ret_code 0 (response_to a named) ≡ 0))
      × ((named ≡ false) ⊎ ((a ≢ start_record) × (a ≢ stop_record))
          → (response_to a named ≡ unknown_msg) × (ret_code 0 (response_to a named) ≡ 0x1001))
unfolding response_to ret_code
response a named = (ground arith, ground arith, ground arith)

-- The reply that a client reads back to a packet: its game code returned, and START_RECORD_R or
-- STOP_RECORD_R with code 0 for a start or a stop that names a game, else UNKNOWN_MSG with 0x1001.
pub reply_to-decoded :
    (buf : Bytes)
    → let named = ltb 0 (length (cstr (gmcode_of buf 16))) in
      let action = be32_at buf 0 in
      let r = decode_res (encode_res (reply_to buf 0)) in
      (r.gmcode ≡ gmcode_of buf 16)
      × (r.size ≡ length (encode_res (reply_to buf 0)))
      × (named ≡ true → action ≡ start_record → (r.cmd ≡ start_record_r) × (r.ret ≡ 0))
      × (named ≡ true → action ≡ stop_record → (r.cmd ≡ stop_record_r) × (r.ret ≡ 0))
      × ((named ≡ false) ⊎ ((action ≢ start_record) × (action ≢ stop_record))
          → (r.cmd ≡ unknown_msg) × (r.ret ≡ 0x1001))
unfolding reply_to
reply_to-decoded buf =
    let r = response (be32_at buf 0) (ltb 0 (length (cstr (gmcode_of buf 16)))) in
    rw (decode_res-encode_res (reply_to buf 0) (reply_to-Fits buf))
      (refl, sym (length-reply_to buf), r.0, r.1, r.2)
