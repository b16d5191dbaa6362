-- ===== src/Tests/Systems.antt =====
-- Operating systems that answer every call in a fixed way.
use tcp_svr.Base.{
  zero, suc, Bytes, [], ◌∷◌, ◌++◌, codes, length, ℤ, pos, negsuc, true, min, ◌-◌, arith, replicate,
}
use tcp_svr.Os.{Os, Call, Answer, SendBounded}

abbrev pub answer : ℤ → Bytes → Answer
answer r bs = record { ret = r; errno = 0; bytes = bs; ready = true; established = true }

-- Sockets are numbered 3; the client's is 5. Each `send` takes two bytes at most; a `recv` brings
-- `input`, as much of it as is asked for.
abbrev pub talking : Bytes → Os
talking input h Call.stream_socket = answer (pos 3) []
talking input h (Call.accept fd) = answer (pos 5) (codes "10.0.0.7")
talking input h (Call.select fd s us) = answer (pos 1) []
talking input h (Call.recv fd n) = answer (pos (length input)) input
talking input h (Call.send fd bs) = answer (pos (min 2 (length bs))) []
talking input h _ = answer (pos 0) []

-- Each `send` takes all that it is passed; nothing comes in.
abbrev pub silent : Os
silent h (Call.send fd bs) = answer (pos (length bs)) []
silent h _ = answer (pos 0) []

-- Each `recv` brings `input`, and each `send` takes all that it is passed.
abbrev pub asking : Bytes → Os
asking input h (Call.send fd bs) = answer (pos (length bs)) []
asking input h c = talking input h c

-- Calls of `bind` fail; everything else is as on `talking`.
abbrev pub in_use : Os
in_use h (Call.bind fd ip port) = answer (negsuc 0) []
in_use h (Call.recv fd zero) = answer (pos 0) []
in_use h (Call.recv fd (suc n)) = answer (pos 1) (b'x' ∷ [])
in_use h c = talking [] h c

pub talking-SendBounded : (input : Bytes) → SendBounded (talking input)
talking-SendBounded input h fd bs = omega arith

-- A message of TCP_MSG_LEN bytes.
abbrev pub frame : Bytes → Bytes
frame text = 0x28 ∷ text ++ replicate (98 - length text) 0 ++ 0x29 ∷ []
