-- ===== src/Server/Outgoing.antt =====
-- What src/server/main.c sends over all its rounds, against what it reads.
pub mod Reads
pub mod Round
pub mod Rounds
use benker_vpn.Base.{
  ℕ, suc, ◌+◌, ◌*◌, ◌/◌, ◌%◌, ◌^◌, ◌≤◌, ◌<◌, ◌≡◌, arith, sym, ap, ◌∙◌, fun_ext, List, [], ◌∷◌, ◌++◌,
  true, false, Bool, refl, subst,
}
use benker_vpn.Packet.{Buffer, IsBytes, ip_header_len, doff, put8, put16, put32}
use benker_vpn.Checksum.{ip_csum, tcp_csum}
use benker_vpn.Rewrite.{replace_dst_ip_port, replace_dst_ip, replace_dst_port}
use benker_vpn.Rewrite.Both.{IsLong, IsForwarded, replace_dst_ip_port-IsForwarded}
use benker_vpn.Net.{
  Call, call_sendto_ll, call_sendto_in, no_flags, msg_confirm, SockaddrLl, SockaddrIn, fill,
}
use benker_vpn.Server.{Server, Result, running, exited, after_send}

-- A packet that is read: the first `size` bytes of a message.
pub data Input : Type 0 where
  from_client from_world : Buffer → (size : ℕ) → Input

abbrev pub Starts : Buffer → (size : ℕ) → Buffer → Type 0
Starts msg size b = (i : ℕ) → i < size → b i ≡ msg i

-- The headers are no shorter than their fixed parts, and the message holds the fields that say so.
abbrev pub HasHeaders : Buffer → (size : ℕ) → Type 0
HasHeaders msg size = IsLong msg × (ip_header_len msg + 12 < size)

pub HasHeaders-IsLong :
    (msg : Buffer) (size : ℕ) (b : Buffer) → HasHeaders msg size → Starts msg size b → IsLong b
HasHeaders-IsLong msg size b (long, fits) same =
    let ip_long = long.ip_long in
    let tcp_long = long.tcp_long in
    let first = same 0 (omega arith) in
    let at : ip_header_len b ≡ ip_header_len msg = omega arith in
    let offset = same (ip_header_len msg + 12) (omega arith) in
    record { ip_long = omega arith; tcp_long = rw (at, offset) tcp_long }

-- What becomes of an input where it is sent on, by a server with this address and these sockets. A
-- packet of the client goes to the world, with the server's address and some port for its source; a
-- packet of the world goes to the client, with some address and port for its destination. Both
-- checksums are right, and no other byte of it is changed.
pub data Becomes (ip rawfd udpfd : ℕ) : Input → Call → Type 0 where
  to_world :
      {msg b r : Buffer} {size : ℕ} (port : ℕ) {ll : SockaddrLl}
      → Starts msg size b
      → IsForwarded 12 ip 0 port b r
      → Becomes ip rawfd udpfd (from_client msg size) (call_sendto_ll rawfd r size no_flags ll)
  to_client :
      {msg b r : Buffer} {size : ℕ} (address port : ℕ) {raddr : SockaddrIn}
      → Starts msg size b
      → IsForwarded 16 address 2 port b r
      → Becomes ip rawfd udpfd (from_world msg size) (call_sendto_in udpfd r size msg_confirm raddr)

-- Some of the inputs are sent on, each one once and in order.
pub data Selected (ip rawfd udpfd : ℕ) : List Input → List Call → Type 0 where
  none_left : Selected ip rawfd udpfd [] []
  dropped :
      {x : Input} {xs : List Input} {cs : List Call}
      → Selected ip rawfd udpfd xs cs
      → Selected ip rawfd udpfd (x ∷ xs) cs
  sent_on :
      {x : Input} {c : Call} {xs : List Input} {cs : List Call}
      → Becomes ip rawfd udpfd x c
      → Selected ip rawfd udpfd xs cs
      → Selected ip rawfd udpfd (x ∷ xs) (c ∷ cs)

module _ {ip rawfd udpfd : ℕ} where
  pub Selected-append :
      {xs xs' : List Input} {cs cs' : List Call}
      → Selected ip rawfd udpfd xs cs
      → Selected ip rawfd udpfd xs' cs'
      → Selected ip rawfd udpfd (xs ++ xs') (cs ++ cs')
  Selected-append none_left h' = h'
  Selected-append (dropped h) h' = dropped (Selected-append h h')
  Selected-append (sent_on b h) h' = sent_on b (Selected-append h h')

  pub all_dropped : (xs : List Input) → Selected ip rawfd udpfd xs []
  all_dropped [] = none_left
  all_dropped (x ∷ xs) = dropped (all_dropped xs)

  pub Selected-extend :
      {xs : List Input} {cs : List Call} (xs' : List Input)
      → Selected ip rawfd udpfd xs cs
      → Selected ip rawfd udpfd (xs ++ xs') cs
  Selected-extend xs' none_left = all_dropped xs'
  Selected-extend xs' (dropped h) = dropped (Selected-extend xs' h)
  Selected-extend xs' (sent_on b h) = sent_on b (Selected-extend xs' h)

-- The server's address and sockets.
abbrev pub Fixed : (ip rawfd udpfd : ℕ) → Server → Type 0
Fixed ip rawfd udpfd s = (s.local_ip ≡ ip) × (s.rawfd ≡ rawfd) × (s.udpfd ≡ udpfd)

-- The calls are made for some of the inputs, and address and sockets stay.
abbrev pub Sends : (ip rawfd udpfd : ℕ) → List Input → Result → Type 0
Sends ip rawfd udpfd xs (status, calls, s) =
    Fixed ip rawfd udpfd s × Selected ip rawfd udpfd xs calls

after_send-Sends :
    (ip rawfd udpfd : ℕ) (accepts : Bool) (x : Input) (c : Call) (s : Server)
    → Fixed ip rawfd udpfd s
    → Becomes ip rawfd udpfd x c
    → Sends ip rawfd udpfd (x ∷ []) (after_send accepts c s)
unfolding after_send
after_send-Sends ip rawfd udpfd true x c s f b = (f, sent_on b none_left)
after_send-Sends ip rawfd udpfd false x c s f b = (f, all_dropped (x ∷ []))

-- An address and a port are stored as 32 and as 16 bits.
put32_cut : (b : Buffer) (i v : ℕ) → put32 b i v ≡ put32 b i (v % 2 ^ 32)
unfolding put32 put16 put8
put32_cut b i v = fun_ext (λ j. ground arith)

put16_cut : (b : Buffer) (i v : ℕ) → put16 b i v ≡ put16 b i (v % 2 ^ 16)
unfolding put16 put8
put16_cut b i v = fun_ext (λ j. ground arith)

replace_dst_ip_cut : (b : Buffer) (ip : ℕ) → replace_dst_ip b ip ≡ replace_dst_ip b (ip % 2 ^ 32)
unfolding replace_dst_ip
replace_dst_ip_cut b ip =
    ap (λ named. put16 named 10 (ip_csum named)) (put32_cut (put16 b 10 0) 16 ip)

replace_dst_port_cut :
    (b : Buffer) (port : ℕ) → replace_dst_port b port ≡ replace_dst_port b (port % 2 ^ 16)
unfolding replace_dst_port
replace_dst_port_cut b port =
    let tcp = ip_header_len b in
    ap
      (λ (named : Buffer).
        let cleared = put16 named (tcp + 16) 0 in
        put16 cleared (tcp + 16) (tcp_csum cleared tcp (tcp + doff b tcp * 4)))
      (put16_cut b (tcp + 2) port)

replace_dst_ip_port_cut :
    (b : Buffer) (ip port : ℕ)
    → replace_dst_ip_port b ip port ≡ replace_dst_ip_port b (ip % 2 ^ 32) (port % 2 ^ 16)
unfolding replace_dst_ip_port
replace_dst_ip_port_cut b ip port =
    ap (λ mid. replace_dst_port mid port) (replace_dst_ip_cut b ip)
    ∙ replace_dst_port_cut (replace_dst_ip b (ip % 2 ^ 32)) port

-- Whatever the numbers are that `replace_dst_ip_port` gets.
pub replace_dst_ip_port-cut :
    (b : Buffer) (ip port : ℕ)
    → IsBytes b
    → IsLong b
    → IsForwarded 16 (ip % 2 ^ 32) 2 (port % 2 ^ 16) b (replace_dst_ip_port b ip port)
replace_dst_ip_port-cut b ip port h long = rw (replace_dst_ip_port_cut b ip port) (
    replace_dst_ip_port-IsForwarded b (ip % 2 ^ 32) (port % 2 ^ 16) h long (omega arith)
      (omega arith))
