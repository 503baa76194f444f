-- ===== src/Tests/Packets.antt =====
-- src/lib/protocol_headers.c at concrete packets.
use benker_vpn.Base.{◌+◌, ◌≡◌, ◌↔◌, refl, arith, true, false}
use benker_vpn.Checksum.{summing, ip_csum, tcp_csum, pseudo_header}
use benker_vpn.Checksum.Sum.{word_sum, ones_sum, summing-ones_sum}
use benker_vpn.Rewrite.{replace_src_ip_port, replace_dst_ip_port}
use benker_vpn.Rewrite.Both.{
  IsLong, IsForwarded, replace_src_ip_port-IsForwarded, replace_dst_ip_port-IsForwarded,
}
use benker_vpn.Validate.{validate_ip_tcp, IsTcpPacket, validate_ip_tcp_iff}
use benker_vpn.Reset.{fillin_reset}
use benker_vpn.Reset.Laws.{IsReset, fillin_reset-IsReset}
use benker_vpn.Tests.Data.{
  syn, syn-IsBytes, answer, answer-IsBytes, captured, captured-IsBytes, local_ip,
}

-- The checksums of a captured packet are right by the code's own count.
captured_checksums : (ip_csum captured ≡ 0) × (tcp_csum captured 20 40 ≡ 0)
unfolding ip_csum tcp_csum summing pseudo_header
captured_checksums = (refl, refl)

syn_is_valid : (validate_ip_tcp syn 9000 ≡ true) × (validate_ip_tcp syn 39 ≡ false)
unfolding validate_ip_tcp
syn_is_valid = (refl, refl)

pub syn-IsLong : IsLong syn
syn-IsLong = omega arith

answer-IsLong : IsLong answer
answer-IsLong = omega arith

summing-ones_sum_example : summing captured 20 20 1000 ≡ ones_sum (1000 + word_sum captured 20 20)
summing-ones_sum_example = summing-ones_sum captured 20 20 1000 (unfold word_sum in omega arith)

replace_src_ip_port-IsForwarded_example :
    IsForwarded 12 local_ip 0 40000 syn (replace_src_ip_port syn local_ip 40000)
replace_src_ip_port-IsForwarded_example =
    replace_src_ip_port-IsForwarded syn local_ip 40000 syn-IsBytes syn-IsLong (omega arith)
      (omega arith)

replace_dst_ip_port-IsForwarded_example :
    IsForwarded 16 0x0a000002 2 32928 answer (replace_dst_ip_port answer 0x0a000002 32928)
replace_dst_ip_port-IsForwarded_example =
    replace_dst_ip_port-IsForwarded answer 0x0a000002 32928 answer-IsBytes answer-IsLong
      (omega arith) (omega arith)

validate_ip_tcp_iff_example : (validate_ip_tcp syn 9000 ≡ true) ↔ IsTcpPacket syn 9000
validate_ip_tcp_iff_example = validate_ip_tcp_iff syn 9000

fillin_reset-IsReset_example :
    IsReset captured (fillin_reset captured).0 × ((fillin_reset captured).1 ≡ 40)
fillin_reset-IsReset_example = fillin_reset-IsReset captured captured-IsBytes
