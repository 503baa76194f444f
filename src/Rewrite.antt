-- ===== src/Rewrite.antt =====
-- Rewriting addresses and ports in place: the `replace_` functions of src/lib/protocol_headers.c.
pub mod Ip
pub mod Port
pub mod Both
use benker_vpn.Base.{ℕ, ◌+◌, ◌*◌}
use benker_vpn.Packet.{Buffer, put16, put32, ip_header_len, doff}
use benker_vpn.Checksum.{ip_csum, tcp_csum}

unfoldable pub replace_src_ip : Buffer → ℕ → Buffer
replace_src_ip b src_ip =
    let cleared = put16 b 10 0 in
    let named = put32 cleared 12 src_ip in put16 named 10 (ip_csum named)

unfoldable pub replace_dst_ip : Buffer → ℕ → Buffer
replace_dst_ip b src_ip =
    let cleared = put16 b 10 0 in
    let named = put32 cleared 16 src_ip in put16 named 10 (ip_csum named)

unfoldable pub replace_src_port : Buffer → ℕ → Buffer
replace_src_port b port =
    let tcp = ip_header_len b in
    let tcp_data = ip_header_len b + doff b tcp * 4 in
    let named = put16 b tcp port in
    let cleared = put16 named (tcp + 16) 0 in
    put16 cleared (tcp + 16) (tcp_csum cleared tcp tcp_data)

unfoldable pub replace_dst_port : Buffer → ℕ → Buffer
replace_dst_port b port =
    let tcp = ip_header_len b in
    let tcp_data = ip_header_len b + doff b tcp * 4 in
    let named = put16 b (tcp + 2) port in
    let cleared = put16 named (tcp + 16) 0 in
    put16 cleared (tcp + 16) (tcp_csum cleared tcp tcp_data)

unfoldable pub replace_src_ip_port : Buffer → ℕ → ℕ → Buffer
replace_src_ip_port b ip port = replace_src_port (replace_src_ip b ip) port

unfoldable pub replace_dst_ip_port : Buffer → ℕ → ℕ → Buffer
replace_dst_ip_port b ip port = replace_dst_port (replace_dst_ip b ip) port
