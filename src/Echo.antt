-- ===== src/Echo.antt =====
-- `EchoSession::msgProc` of src/tcpsvr.cpp, with the constants of src/tcpsvr.h: the entry server, which
-- tells an application or a device the address of its server. The JSON library is a parameter.
pub mod Frames
use tcp_svr.Base.{
  ℕ, ◌-◌, Bytes, List, [], ◌∷◌, ◌++◌, codes, Option, none, some, length, take, drop, get_or, ℤ, pos,
  neg, Bool, true, false, ◌==◌, ◌||◌, ◌&&◌, not, ltb, leb, if◌then◌else◌,
}
use tcp_svr.Cfg.Number.{print_number}

-- `json::parse`, which throws a parse_error for `none`, and `find` of a key, told from `end`.
pub record Json : Type 1 where
  pub Doc : Type 0
  pub parse : Bytes → Option Doc
  pub has : Doc → Bytes → Bool

abbrev pub tcp_server : Bytes
tcp_server = codes "47.115.190.127"

abbrev pub tcp_port_dev : ℕ
tcp_port_dev = 17030

abbrev pub tcp_port_app : ℕ
tcp_port_app = 17031

-- The text that `sprintf` leaves in `buf`.
pub redirect : ℕ → Bytes
redirect port =
    codes "{\"action\":\"redirect\",\"svrip\":\""
    ++ tcp_server
    ++ codes "\",\"svrport\":"
    ++ print_number (pos port)
    ++ codes "}"

-- `@@` at the front and `##` at the end; a byte behind the text is its terminator.
unfoldable pub is_framed : Bytes → Bool
is_framed s =
    get_or s 0 0 == b'@'
    && get_or s 1 0 == b'@'
    && get_or s (length s - 2) 0 == b'#'
    && get_or s (length s - 1) 0 == b'#'

-- `char msg[200]`
abbrev pub msg_size : ℕ
msg_size = 200

-- A call's result and what it passes to `send`.
abbrev pub Result : Type 0
Result = ℤ × Option Bytes

module _ (j : Json) where
  -- `buf`; a device's address replaces an application's.
  unfoldable pub answer_of : j.Doc → Bytes
  answer_of doc =
      let app = if j.has doc (codes "usrid") then redirect tcp_port_app else [] in
      if not (j.has doc (codes "action"))
      then []
      else if j.has doc (codes "devid")
      then redirect tcp_port_dev
      else app

  -- The sending; `buffer` is whether `obtainBuffer` gives one.
  unfoldable pub send_answer : Bool → Bytes → Result
  send_answer buffer [] = (pos 0, none)
  send_answer buffer (b ∷ bs) = (pos (length (b ∷ bs)), if buffer then some (b ∷ bs) else none)

  unfoldable pub answer_parsed : Bool → Option j.Doc → Result
  answer_parsed buffer none = (neg 3, none)
  answer_parsed buffer (some doc) = send_answer buffer (answer_of doc)

  -- `strncpy` is given `len - 5` bytes; of a message of four bytes that is the largest size_t. Where it writes behind
  -- `msg`, or leaves no terminator in it, there is a fault, as `none`.
  unfoldable pub msg_proc : Bool → Bytes → Option Result
  msg_proc buffer s =
      if length s == 0 || ltb 160 (length s)
      then some (neg 1, none)
      else if not (is_framed s)
      then some (neg 2, none)
      else if ltb (length s) 5 || leb msg_size (length s - 5)
      then none
      else some (answer_parsed buffer (j.parse (take (length s - 5) (drop 3 s))))
