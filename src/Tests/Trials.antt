-- ===== src/Tests/Trials.antt =====
-- The trial programs at concrete inputs.
use benker_vpn.Base.{
  ℕ, ◌≡◌, refl, arith, true, false, none, some, Returns, List, [], ◌∷◌, int_zero, ok, ◌>>=◌,
}
use benker_vpn.Packet.{Buffer, IsBytes}
use benker_vpn.Session.{
  Memory, Ptr, init_hash_table, add_tcp_session, session_expired, get_tcp_session_by_server,
  get_tcp_session_by_client,
}
use benker_vpn.Session.Print.{Lines}
use benker_vpn.Handler.{
  Reply, refuse, handle_client_packet, handle_world_packet, client_flags, world_flags,
}
use benker_vpn.Validate.{validate_ip_tcp}
use benker_vpn.Reset.Laws.{fillin_reset-IsReset}
use benker_vpn.Net.{call_socket, call_sendto_ll, af_packet, sock_raw, eth_p_ip, no_flags}
use benker_vpn.Client.{TunRead, packet}
use benker_vpn.Tunnel.{ControlAnswers, iff_up}
use benker_vpn.Tunnel
use benker_vpn.Poc.RawSock
use benker_vpn.Poc.RawSock.{ll_addr}
use benker_vpn.Poc.RawSock.Laws.{IsTestFrame, main-IsTestFrame}
use benker_vpn.Poc.IpCommand.{do_chflags, get_ctl_fd}
use benker_vpn.Poc.IpCommand.Laws.{Agrees, opened, do_chflags-Agrees}
use benker_vpn.Trials.Sessions.{main4}
use benker_vpn.Trials.Sessions.Laws.{main4-NoLeak}
use benker_vpn.Trials.Resets.{main3}
use benker_vpn.Trials.Resets.Laws.{AllAnswered, ReplyBytes, main3-AllAnswered}
use benker_vpn.Trials.Connection.{OldHandler, play, packets}
use benker_vpn.Tests.Data.{
  syn, syn_bytes, buffer_of, buffer_of-IsBytes, syn-IsBytes, answer, answer-IsBytes, no_memory,
  frozen, value,
}

main-IsTestFrame_example :
    (frame : Buffer) × (RawSock.main syn (some 3) 1 2 (some answer) (some syn) ≡ (
      0,
      call_socket af_packet sock_raw eth_p_ip
          ∷ call_sendto_ll 3 frame 57 no_flags (ll_addr frame)
          ∷ [],
    ))
    × IsTestFrame syn answer syn frame 1 2
main-IsTestFrame_example =
    main-IsTestFrame syn 3 1 2 answer syn syn-IsBytes answer-IsBytes syn-IsBytes (omega arith)
      (omega arith)

-- The kernel gives a socket and the flags, and refuses the new ones.
abbrev refusing : ControlAnswers
refusing = record {
  inet = some 7;
  packet = none;
  inet6 = none;
  get_flags = some (λ i. false);
  accepts = false;
}

do_chflags-Agrees_example :
    Agrees
      (opened (get_ctl_fd refusing))
      (do_chflags refusing iff_up iff_up)
      (Tunnel.do_chflags refusing iff_up iff_up)
do_chflags-Agrees_example = do_chflags-Agrees refusing iff_up iff_up

main4-NoLeak_example :
    Returns
      (λ (r : List Lines × Memory).
        ((q : Ptr) → r.1.live q ≡ no_memory.live q)
        × ((q : Ptr) → no_memory.live q ≡ true → r.1.cell q ≡ no_memory.cell q))
      (main4 frozen (λ i. int_zero) no_memory)
main4-NoLeak_example = main4-NoLeak no_memory frozen (λ i. int_zero) (λ p h. cc)

-- A handler that refuses every packet.
abbrev refuses : Buffer → (size : ℕ) → Reply
refuses b size = refuse b

unfoldable refuses-ReplyBytes : (b : Buffer) (size : ℕ) → IsBytes b → ReplyBytes (refuses b size)
unfolding refuse
refuses-ReplyBytes b size h = (fillin_reset-IsReset b h).0.bytes

-- The `SYN` from the hardware address 1:1:1:1:1:1 to 2:2:2:2:2:2.
abbrev syn_frame_bytes : List ℕ
syn_frame_bytes = 2 ∷ 2 ∷ 2 ∷ 2 ∷ 2 ∷ 2 ∷ 1 ∷ 1 ∷ 1 ∷ 1 ∷ 1 ∷ 1 ∷ 8 ∷ 0 ∷ syn_bytes

abbrev reads : List TunRead
reads = packet (buffer_of syn_frame_bytes) 54 ∷ TunRead.failed 11 ∷ []

main3-AllAnswered_example :
    Returns
      (λ r. (r.0 ≡ call_socket af_packet sock_raw eth_p_ip ∷ []) × AllAnswered refuses 5 reads r.1)
      (main3 refuses (some 5) answer reads)
main3-AllAnswered_example =
    main3-AllAnswered refuses 5 refuses-ReplyBytes answer reads answer-IsBytes
      (buffer_of-IsBytes syn_frame_bytes (omega arith), tt)

-- The handlers as they are, at the address of the client.
abbrev handle_client : OldHandler
handle_client m t b buffer_len = handle_client_packet frozen int_zero m t b buffer_len 3232235778

abbrev handle_world : OldHandler
handle_world m t b buffer_len = do
  (reply, client_ip, m₁) ← handle_world_packet frozen m t b buffer_len 0
  ok (reply, m₁, t)

-- Which packets of the connection they pass.
connection_passed :
    (value
      ([], no_memory, init_hash_table 100 32928 33000)
      (play handle_client handle_world no_memory
        (init_hash_table 100 32928 33000)
        (λ i. 0)
        packets)).0
    ≡ true ∷ true ∷ true ∷ true ∷ true ∷ true ∷ true ∷ true ∷ true ∷ true ∷ []
unfolding play packets handle_client_packet handle_world_packet init_hash_table validate_ip_tcp
    add_tcp_session session_expired get_tcp_session_by_server client_flags get_tcp_session_by_client
    world_flags
connection_passed = refl
