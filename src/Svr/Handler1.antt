-- ===== src/Svr/Handler1.antt =====
-- `_Msg_handler1`. `buf` is the receive buffer, cleared before each read, with `len` bytes read into
-- it; past its end the memory reads as 0. `strtok` writes only inside the message it is called on:
-- a message that is not refused ends before the next one begins, so the buffer is read as it was.
pub mod Acks
use tcp_svr.Base.{
  ℕ, zero, suc, ◌+◌, ◌*◌, ◌/◌, Bytes, codes, length, get_or, drop, some, ℤ, pos, Bool, true, false,
  ◌||◌, not, ◌==◌, leb, if◌then◌else◌,
}
use tcp_svr.Os.{Os, M, pure, ◌>>=◌}
use tcp_svr.Net.Send.{net_send}
use tcp_svr.Svr.Request.{
  tcp_msg_len, msg_head_magic, msg_tail_magic, cstr, Request, hello, incomplete, command,
  parse_request,
}

-- The string of message `i`, at its second byte.
pub text_at : Bytes → ℕ → Bytes
text_at buf i = cstr (drop (i * tcp_msg_len + 1) buf)

-- The two tests that end the loop: the frame's first and last bytes, and the length of the string.
pub is_refused : Bytes → ℕ → Bool
is_refused buf i =
    not (get_or buf (i * tcp_msg_len) 0 == msg_head_magic)
    || not (get_or buf (i * tcp_msg_len + 99) 0 == msg_tail_magic)
    || leb tcp_msg_len (length (text_at buf i))

-- One message: the new value of `ret`.
unfoldable pub answer_request : Os → ℤ → ℤ → Request → M ℤ
answer_request os sock ret hello = pure ret
answer_request os sock ret incomplete = pure ret
answer_request os sock ret (command action table round) = net_send os sock (some (codes "ack"))

-- `for (i = ..; i < msgNum; i++)`, with the rounds left.
unfoldable pub handle_from : Os → ℤ → Bytes → ℕ → ℕ → ℤ → M ℤ
handle_from os sock buf zero i ret h = (ret, h)
handle_from os sock buf (suc left) i ret h = elim (is_refused buf i) [
  | true ↦ (ret, h)
  | false ↦
      let (ret', h') = answer_request os sock ret (parse_request (text_at buf i)) h in
      handle_from os sock buf left (i + 1) ret' h'
]

unfoldable pub msg_handler1 : Os → ℤ → Bytes → ℕ → M ℤ
msg_handler1 os sock buf len = handle_from os sock buf (len / tcp_msg_len) 0 (pos 0)
