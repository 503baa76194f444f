-- ===== src/Validate.antt =====
-- `validate_ip_tcp` of src/lib/protocol_headers.c.
use benker_vpn.Base.{
  ℕ, ◌+◌, ◌*◌, ◌≤◌, ◌≡◌, ◌↔◌, Bool, true, false, not, ltb, ◌==◌, if◌then◌else◌, arith,
}
use benker_vpn.Packet.{Buffer, ip_header_len, tot_len, protocol, doff}

abbrev pub sizeof_iphdr : ℕ
sizeof_iphdr = 20

abbrev pub sizeof_tcphdr : ℕ
sizeof_tcphdr = 20

abbrev pub ipproto_tcp : ℕ
ipproto_tcp = 6

-- `true` is `VALID_IP_TCP`. The headers that the code hands out are the offsets 0 and
-- `ip_header_len`.
unfoldable pub validate_ip_tcp : Buffer → ℕ → Bool
validate_ip_tcp b buffer_size =
    if ltb buffer_size (sizeof_iphdr + sizeof_tcphdr)
    then false
    else if not (protocol b == ipproto_tcp)
    then false
    else if ltb buffer_size (ip_header_len b + sizeof_tcphdr)
    then false
    else if ltb buffer_size (tot_len b)
    then false
    else if ltb (tot_len b) (ip_header_len b + doff b (ip_header_len b) * 4)
    then false
    else true

-- The packet is TCP, and its headers and its total length fit the buffer.
pub record IsTcpPacket (b : Buffer) (buffer_size : ℕ) : Type 0 where
  pub fixed_parts : sizeof_iphdr + sizeof_tcphdr ≤ buffer_size
  pub tcp : protocol b ≡ ipproto_tcp
  pub header_fits : ip_header_len b + sizeof_tcphdr ≤ buffer_size
  pub total_fits : tot_len b ≤ buffer_size
  pub headers_in_total : ip_header_len b + doff b (ip_header_len b) * 4 ≤ tot_len b

-- `validate_ip_tcp` accepts exactly the buffers whose protocol is TCP, whose fixed headers, IP
-- header with a fixed TCP header behind it and total length fit the size given, and whose total
-- length holds both headers.
pub validate_ip_tcp_iff :
    (b : Buffer) (buffer_size : ℕ)
    → (validate_ip_tcp b buffer_size ≡ true) ↔ IsTcpPacket b buffer_size
unfolding validate_ip_tcp
validate_ip_tcp_iff b buffer_size = ground arith
