-- ===== src/Net/Setup.antt =====
-- NET_OpenSock, NET_CloseSock, NET_OptSet, NET_PortBind, NET_Connect, NET_Ser_Bind, NET_Ser_Accept
-- and NET_ConnTcpSvr. `htons` keeps the low 16 bits of a port; `inet_addr` is the system's.
pub mod Descriptors
use tcp_svr.Base.{
  ℕ, ◌*◌, ◌/◌, ◌%◌, ◌^◌, Bytes, codes, str_eq, [], Option, none, some, ℤ, pos, negsuc, neg, to_ℕ,
  Bool, true, false, ltb, is_pos, is_neg, is_zero, eq_ℤ, not, if◌then◌else◌,
}
use tcp_svr.Os.{
  Os, M, Call, Answer, SockOpt, reuse_addr, rcv_timeo, snd_timeo, rcv_buf, snd_buf, sys, sys_, pure,
  ◌>>=◌, ◌>>◌,
}

pub net_open_sock : Os → Bytes → M ℤ
net_open_sock os sock_type = do
  a ← sys os (if str_eq sock_type (codes "TCP") then Call.stream_socket else Call.dgram_socket)
  pure a.ret

pub net_close_sock : Os → ℤ → M ℤ
net_close_sock os fd =
    if is_neg fd
    then pure (pos 0)
    else do a ← sys os (Call.shutdown fd); sys_ os (Call.close fd); pure a.ret

-- `timeout` in seconds; `bufsize` in KB is the bit pattern of an `int`, shifted left by 10.
pub net_opt_set : Os → ℤ → ℕ → ℕ → M ℤ
net_opt_set os fd timeout bufsize = do
  let size = bufsize * 1024 % 2 ^ 32
  a ← sys os (Call.setsockopt fd (rcv_timeo timeout 0))
  (if not (is_zero a.ret) then pure (neg 2) else do
    b ← sys os (Call.setsockopt fd (snd_timeo timeout 0))
    (if not (is_zero b.ret) then pure (neg 3) else do
      c ← sys os (Call.setsockopt fd (rcv_buf size))
      (if not (is_zero c.ret) then pure (neg 4) else do
        d ← sys os (Call.setsockopt fd (snd_buf size))
        pure (if not (is_zero d.ret) then neg 5 else d.ret))))

pub net_port_bind : Os → ℤ → ℤ → Option Bytes → M ℤ
net_port_bind os fd port ip = if not (is_pos port) then pure (neg 1) else do
  a ← sys os (Call.setsockopt fd reuse_addr)
  (if is_neg a.ret then pure (neg 2) else do
    b ← sys os (Call.bind fd ip (to_ℕ port % 2 ^ 16))
    (if not (is_zero b.ret) then pure (neg 10) else do
      c ← sys os (Call.listen_max fd)
      pure (if not (is_zero c.ret) then neg 11 else c.ret)))

pub net_connect : Os → ℤ → Option Bytes → ℤ → M ℤ
net_connect os fd none port = pure (neg 1)
net_connect os fd (some ip) port = if not (is_pos port) then pure (neg 2) else do
  a ← sys os (Call.connect fd ip (to_ℕ port % 2 ^ 16))
  pure (if not (is_zero a.ret) then neg 10 else a.ret)

abbrev pub buf_size : ℕ
buf_size = 512 * 1024

-- Once the socket is open, NET_Ser_Bind returns it, whatever happens to it.
unfoldable pub net_ser_bind : Os → ℕ → ℕ → M ℤ
net_ser_bind os port timeout_ms = do
  s ← sys os Call.stream_socket
  (if is_neg s.ret then pure s.ret else do
    sys_ os (Call.setsockopt s.ret reuse_addr)
    b ← sys os (Call.bind s.ret none (port % 2 ^ 16))
    (if is_neg b.ret then net_close_sock os s.ret >> pure s.ret else do
      l ← sys os (Call.listen s.ret 256)
      (if is_neg l.ret then net_close_sock os s.ret >> pure s.ret else do
        sys_ os (Call.setsockopt s.ret (snd_buf buf_size))
        sys_ os (Call.setsockopt s.ret (rcv_buf buf_size))
        sys_ os (Call.setsockopt s.ret (rcv_timeo (timeout_ms / 1000) (timeout_ms % 1000 * 1000)))
        sys_ os (Call.setsockopt s.ret (snd_timeo (timeout_ms / 1000) (timeout_ms % 1000 * 1000)))
        pure s.ret)))

-- NET_GetAddr with these lengths for both addresses; `none` is a fault. The length is compared as a size_t, so that
-- a negative one is large enough, and memset(3) then writes far out of range.
get_addr : Os → ℤ → M (Option ℤ)
get_addr os fd = do
  a ← sys os (Call.getsockname fd)
  (if not (is_zero a.ret) then pure (some (neg 10)) else do
    b ← sys os (Call.getpeername fd)
    pure (some (if not (is_zero b.ret) then neg 11 else b.ret)))

pub net_get_addr : Os → ℤ → Bool → Bool → ℤ → M (Option ℤ)
net_get_addr os fd true true (pos len) = if ltb len 16 then pure (some (neg 1)) else get_addr os fd
net_get_addr os fd true true (negsuc n) = pure none
net_get_addr os fd _ _ len = pure (some (neg 1))

-- The address of the client is the second result.
pub net_ser_accept : Os → ℤ → ℕ → M (ℤ × Bytes)
net_ser_accept os fd timeout = do
  s ← sys os (Call.select fd (timeout / 1000) (timeout % 1000 * 1000))
  (if not (is_pos s.ret) then pure (neg 2, []) else if not s.ready then pure (neg 4, []) else do
    a ← sys os (Call.accept fd)
    (if is_neg a.ret then pure (neg 5, []) else do
      sys_ os (Call.setsockopt a.ret (rcv_timeo (timeout / 1000) (timeout % 1000 * 1000)))
      sys_ os (Call.setsockopt a.ret (snd_timeo (timeout / 1000) (timeout % 1000 * 1000)))
      sys_ os (Call.setsockopt a.ret (snd_buf buf_size))
      sys_ os (Call.setsockopt a.ret (rcv_buf buf_size))
      sys_ os (Call.setsockopt a.ret reuse_addr)
      pure (a.ret, a.bytes)))

pub net_conn_tcp_svr : Os → Bytes → ℤ → M ℤ
net_conn_tcp_svr os svr port = do
  s ← sys os Call.stream_socket
  (if eq_ℤ s.ret (neg 1) then pure (neg 2) else do
    c ← sys os (Call.connect s.ret svr (to_ℕ port % 2 ^ 16))
    (if not (is_zero c.ret) then net_close_sock os s.ret >> pure (neg 3) else do
      sys_ os (Call.setsockopt s.ret (snd_buf buf_size))
      sys_ os (Call.setsockopt s.ret (rcv_buf buf_size))
      sys_ os (Call.setsockopt s.ret reuse_addr)
      sys_ os (Call.setsockopt s.ret (rcv_timeo 2 800000))
      sys_ os (Call.setsockopt s.ret (snd_timeo 2 800000))
      pure s.ret))
