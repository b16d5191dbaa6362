-- ===== src/Svr/Handler2.antt =====
-- `_Msg_handler2` and the packed structures MSG_CMD_T and MSG_RES_T of tcpsvr.h, 30 bytes each, their
-- numbers in network order. `buf` is the receive buffer; past its end the memory reads as 0. The text
-- that the handler formats into TcpMsg goes nowhere and is left out.
pub mod Replies
use tcp_svr.Base.{
  ℕ, zero, suc, ◌+◌, ◌-◌, ◌*◌, ◌/◌, ◌%◌, ◌^◌, Bytes, [], ◌∷◌, ◌++◌, length, get_or, take, drop,
  some, ℤ, pos, Bool, true, false, ◌&&◌, not, ◌==◌, ltb, if◌then◌else◌,
}
use tcp_svr.Os.{Os, M}
use tcp_svr.Net.Send.{net_send}
use tcp_svr.Svr.Request.{cstr}

-- ntohl and htonl at an offset
abbrev pub be32_at : Bytes → ℕ → ℕ
be32_at b i =
    get_or b i 0 * 0x1000000
    + get_or b (i + 1) 0 * 0x10000
    + get_or b (i + 2) 0 * 0x100
    + get_or b (i + 3) 0

abbrev pub be32 : ℕ → Bytes
be32 n = (n / 0x1000000 % 256) ∷ (n / 0x10000 % 256) ∷ (n / 0x100 % 256) ∷ (n % 256) ∷ []

abbrev pub be16 : ℕ → Bytes
be16 n = (n / 0x100 % 256) ∷ (n % 256) ∷ []

abbrev pub start_record : ℕ
start_record = 0x5A01

abbrev pub start_record_r : ℕ
start_record_r = 0x5A02

abbrev pub stop_record : ℕ
stop_record = 0x5B01

abbrev pub stop_record_r : ℕ
stop_record_r = 0x5B02

abbrev pub unknown_msg : ℕ
unknown_msg = 0xffff

-- sizeof(MSG_CMD_T) and sizeof(MSG_RES_T)
abbrev pub cmd_size : ℕ
cmd_size = 30

pub record MsgRes : Type 0 where
  pub cmd : ℕ
  pub size : ℕ
  pub ver : ℕ
  pub gmcode : Bytes
  pub ret : ℕ

pub encode_res : MsgRes → Bytes
encode_res r = be32 r.cmd ++ be32 r.size ++ be16 r.ver ++ r.gmcode ++ be32 r.ret

-- `gmcode` of the packet, padded as the memory behind it is.
pub gmcode_of : Bytes → ℕ → Bytes
gmcode_of b zero = []
gmcode_of b (suc n) = get_or b (30 - suc n) 0 ∷ gmcode_of b n

-- The command, and whether `round_name` is not empty.
pub response_to : ℕ → Bool → ℕ
response_to action named =
    if action == start_record && named
    then start_record_r
    else if action == stop_record && named
    then stop_record_r
    else unknown_msg

-- `retCode` is set once and kept.
pub ret_code : ℕ → ℕ → ℕ
ret_code code response = if response == unknown_msg then 0x1001 else code

pub reply_to : Bytes → ℕ → MsgRes
reply_to buf code =
    let gmcode = gmcode_of buf 16 in
    let response = response_to (be32_at buf 0) (ltb 0 (length (cstr gmcode))) in
    record {
      cmd = response;
      size = cmd_size;
      ver = 1;
      gmcode = gmcode;
      ret = ret_code code response;
    }

-- `for (i = ..; i < msgNum; i++)`, with the rounds left. `pkg` is the head of the buffer in each.
pub handle2_from : Os → ℤ → Bytes → ℕ → ℕ → ℤ → M ℤ
handle2_from os sock buf zero code ret h = (ret, h)
handle2_from os sock buf (suc left) code ret h = elim (be32_at buf 4 == cmd_size) [
  | false ↦ (ret, h)
  | true ↦
      let r = reply_to buf code in
      let (ret', h') = net_send os sock (some (encode_res r)) h in
      handle2_from os sock buf left r.ret ret' h'
]

pub msg_handler2 : Os → ℤ → Bytes → ℕ → M ℤ
msg_handler2 os sock buf len = handle2_from os sock buf (len / cmd_size) 0 (pos 0)
