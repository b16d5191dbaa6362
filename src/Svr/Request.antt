-- ===== src/Svr/Request.antt =====
-- The text of one message of `_Msg_handler1`: C strings and `strtok` with the separator ','.
pub mod Fields
pub mod Shared
use tcp_svr.Base.{
  ℕ, Bytes, codes, str_eq, [], ◌∷◌, Option, none, some, Bool, true, false, ◌==◌, if◌then◌else◌, ltb,
}

-- TCP_MSG_LEN, MSG_HEAD_MAGIC, MSG_TAIL_MAGIC
abbrev pub tcp_msg_len : ℕ
tcp_msg_len = 100

abbrev pub msg_head_magic : ℕ
msg_head_magic = 0x28

abbrev pub msg_tail_magic : ℕ
msg_tail_magic = 0x29

-- The string that starts at the head of a piece of memory.
pub cstr : Bytes → Bytes
cstr [] = []
cstr (b ∷ bs) = if b == 0 then [] else b ∷ cstr bs

pub skip_commas : Bytes → Bytes
skip_commas [] = []
skip_commas (b ∷ bs) = if b == b',' then skip_commas bs else b ∷ bs

-- The bytes up to the first ',', and those behind it.
pub until_comma : Bytes → Bytes × Bytes
until_comma [] = ([], [])
until_comma (b ∷ bs) = let (t, r) = until_comma bs in if b == b',' then ([], bs) else (b ∷ t, r)

-- One call of `strtok`: the token and what the next call starts from; `none` is NULL.
pub strtok : Bytes → Option (Bytes × Bytes)
strtok s = elim (skip_commas s) [ [] ↦ none | b ∷ bs ↦ some (until_comma (b ∷ bs)) ]

-- What the handler makes of a message: MSG_TYPE_HELLO, three tokens, or fewer.
pub data Request : Type 0 where
  hello incomplete : Request
  command : Bytes → Bytes → Bytes → Request

-- The calls of `strtok` after the first token.
pub parse_rest : Bytes → Option (Bytes × Bytes) → Request
parse_rest action none = incomplete
parse_rest action (some (table, rest)) = elim (strtok rest) [
  | none ↦ incomplete
  | some (round, _) ↦ command action table round
]

pub parse_first : Option (Bytes × Bytes) → Request
parse_first none = incomplete
parse_first (some (action, rest)) =
    if str_eq action (codes "hello") then hello else parse_rest action (strtok rest)

pub parse_request : Bytes → Request
parse_request msg = parse_first (strtok msg)
