-- ===== src/Tests/Entries.antt =====
-- The entry server on a message of a device, with a reader of two documents.
use tcp_svr.Base.{
  Bytes, List, [], ◌∷◌, codes, none, some, Bool, true, false, ◌||◌, str_eq, if◌then◌else◌, ◌≡◌, ◌↔◌,
}
use tcp_svr.Echo.{Json, msg_proc}
use tcp_svr.Echo.Frames.{msg_proc-faults}

abbrev member : Bytes → List Bytes → Bool
member k [] = false
member k (x ∷ xs) = str_eq x k || member k xs

abbrev device : Bytes
device = codes "{\"action\":\"redirect\",\"devid\":\"A680\"}"

-- A document is the list of its keys.
abbrev reader : Json
reader = record {
  Doc = List Bytes;
  parse = λ t. if str_eq t device then some (codes "action" ∷ codes "devid" ∷ []) else none;
  has = λ doc k. member k doc;
}

msg_proc-faults_example :
    (msg_proc reader true (codes "@@##") ≡ none) ↔ (codes "@@##" ≡ b'@' ∷ b'@' ∷ b'#' ∷ b'#' ∷ [])
msg_proc-faults_example = msg_proc-faults reader true (codes "@@##")
