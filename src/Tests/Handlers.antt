-- ===== src/Tests/Handlers.antt =====
-- src/lib/packet_handler.c at concrete packets.
use benker_vpn.Base.{
  ◌+◌, ◌-◌, ◌^◌, ◌≤◌, ◌<◌, ◌≡◌, refl, arith, true, false, none, Option, ok, Returns, Returns-at,
  int_zero, List, [], ◌∷◌, zero, suc, inl,
}
use benker_vpn.Packet.{Buffer, saddr, source, dest, ip_header_len, put16, put32}
use benker_vpn.Validate.{validate_ip_tcp}
use benker_vpn.Rewrite.{replace_src_ip_port, replace_src_ip, replace_src_port}
use benker_vpn.Rewrite.Both.{IsForwarded}
use benker_vpn.Session.{
  Session, Ptr, Memory, Clock, Table, add_tcp_session, session_expired, init_hash_table,
}
use benker_vpn.Session.Valid.{IsValid}
use benker_vpn.Session.Clean.{later}
use benker_vpn.Session.Add.{IsClient}
use benker_vpn.Session.Lookup.{add_tcp_session-IsValid}
use benker_vpn.Handler.{
  Reply, Segment, valid_session, segment_of, handle_client_packet, handle_world_packet,
  client_flags, world_flags, refuse,
}
use benker_vpn.Handler.Client.{ClientOutcome, handle_client_packet-Outcome}
use benker_vpn.Handler.World.{WorldOutcome, handle_world_packet-Outcome}
use benker_vpn.Handler.RoundTrip.{
  Reaches, handle_client_packet-IsForwarded, handle_world_packet-Reaches,
}
use benker_vpn.Handler.Expired.{handle_client_packet-expired}
use benker_vpn.Handler.Flags.{
  IsState, Advances, Event, from_client, from_world, on_event, run_events, SynMove,
  run_events-Advances, on_event-SynMove, world_flags_stuck,
}
use benker_vpn.Tests.Data.{
  syn, syn-IsBytes, answer, answer-IsBytes, local_ip, blank, no_memory, first_table,
  first_table-IsValid, frozen, value,
}
use benker_vpn.Tests.Packets.{syn-IsLong}

-- What the gateway makes of the `SYN`.
abbrev opened : Reply × Memory × Table
opened =
    value (valid_session syn, no_memory, first_table)
      (handle_client_packet frozen int_zero no_memory first_table syn 9000 local_ip)

abbrev sent_packet : Buffer
sent_packet = replace_src_ip_port syn local_ip 40000

opened_run :
    handle_client_packet frozen int_zero no_memory first_table syn 9000 local_ip
    ≡ ok (valid_session sent_packet, opened.1, opened.2)
unfolding handle_client_packet init_hash_table add_tcp_session validate_ip_tcp session_expired
    client_flags
opened_run = refl

sent_packet_port : source sent_packet 20 ≡ 40000
unfolding replace_src_ip_port replace_src_ip replace_src_port put16 put32
sent_packet_port = refl

syn_header : ip_header_len syn ≡ 20
syn_header = refl

answer_good : (validate_ip_tcp answer 9000 ≡ true) × (dest answer 20 ≡ 40000)
unfolding validate_ip_tcp
answer_good = (refl, refl)

opened-IsValid : IsValid opened.1 opened.2
opened-IsValid =
    (Returns-at
      (handle_client_packet-Outcome frozen int_zero no_memory first_table syn 9000 local_ip
        syn-IsBytes first_table-IsValid)
      opened_run).0

handle_client_packet-Outcome_example :
    Returns
      (λ r. IsValid r.1 r.2 × ClientOutcome frozen no_memory first_table syn 9000 local_ip r)
      (handle_client_packet frozen int_zero no_memory first_table syn 9000 local_ip)
handle_client_packet-Outcome_example =
    handle_client_packet-Outcome frozen int_zero no_memory first_table syn 9000 local_ip syn-IsBytes
      first_table-IsValid

handle_world_packet-Outcome_example :
    Returns
      (λ r. IsValid r.2 opened.2 × WorldOutcome frozen opened.1 opened.2 answer 9000 0 r)
      (handle_world_packet frozen opened.1 opened.2 answer 9000 0)
handle_world_packet-Outcome_example =
    handle_world_packet-Outcome frozen opened.1 opened.2 answer 9000 0 opened-IsValid answer-IsBytes

handle_client_packet-IsForwarded_example :
    IsForwarded 12 local_ip 0 (source sent_packet 20) syn sent_packet
    × (opened.2.min_port ≤ source sent_packet 20)
    × (source sent_packet 20 < opened.2.min_port + opened.2.mod_num)
handle_client_packet-IsForwarded_example =
    handle_client_packet-IsForwarded frozen 100 (λ n. refl) int_zero no_memory first_table syn 9000
      local_ip first_table-IsValid syn-IsBytes syn-IsLong (omega arith) sent_packet opened.1
      opened.2 opened_run

handle_world_packet-Reaches_example :
    Returns
      (Reaches answer (saddr syn) (source syn 20))
      (handle_world_packet frozen opened.1 opened.2 answer 9000 0)
handle_world_packet-Reaches_example =
    handle_world_packet-Reaches frozen 100 (λ n. refl) int_zero no_memory first_table syn 9000
      local_ip first_table-IsValid syn-IsBytes syn-IsLong (omega arith) sent_packet opened.1
      opened.2 opened_run answer 9000 0 answer-IsBytes answer_good.0
      (omega (arith, answer_good.1, sent_packet_port))

-- A second before the session was made, and two minutes later.
abbrev late_clock : Clock
late_clock zero = 100
late_clock (suc n) = 220

abbrev made : Option Ptr × Memory × Table
made =
    value (none, no_memory, first_table)
      (add_tcp_session late_clock int_zero no_memory first_table (saddr syn) (source syn 20) 10)

made_run :
    add_tcp_session late_clock int_zero no_memory first_table (saddr syn) (source syn 20) 10
    ≡ ok made
unfolding add_tcp_session init_hash_table
made_run = refl

made-IsValid : IsValid made.1 made.2
made-IsValid =
    Returns-at
      (add_tcp_session-IsValid late_clock int_zero no_memory first_table (saddr syn) (source syn 20)
        10 first_table-IsValid)
      made_run

made-IsClient : IsClient made.1 made.2 (saddr syn) (source syn 20) 1
unfolding add_tcp_session init_hash_table
made-IsClient = record { in_table = refl; same_ip = refl; same_port = refl }

made_late : (made.1.cell 1).expire < late_clock made.1.calls
unfolding add_tcp_session init_hash_table
made_late = omega arith

syn_good : validate_ip_tcp syn 9000 ≡ true
unfolding validate_ip_tcp
syn_good = refl

handle_client_packet-expired_example :
    handle_client_packet late_clock int_zero made.1 made.2 syn 9000 local_ip
    ≡ ok (refuse syn, later made.1 (made.1.calls + 1), made.2)
handle_client_packet-expired_example =
    handle_client_packet-expired late_clock int_zero made.1 made.2 syn 9000 local_ip 1 made-IsValid
      syn_good made-IsClient made_late

abbrev handshake : List Event
handshake = from_client (segment_of syn) ∷ from_world (segment_of answer) ∷ []

handshake_answered : (run_events blank handshake).syn_state ≡ 2
unfolding run_events on_event world_flags client_flags
handshake_answered = refl

blank-IsState : IsState blank
blank-IsState = record { syn = inl refl; client_fin = omega arith; server_fin = omega arith }

run_events-Advances_example :
    IsState (run_events blank handshake) × Advances blank (run_events blank handshake)
run_events-Advances_example = run_events-Advances blank handshake blank-IsState

on_event-SynMove_example :
    SynMove blank (from_world (segment_of answer)) (on_event blank (from_world (segment_of answer)))
on_event-SynMove_example = on_event-SynMove blank (from_world (segment_of answer))

-- A client that started with the last sequence number.
abbrev at_the_end : Session
at_the_end = record blank { client_last_state_seq = 2 ^ 32 - 1 }

world_flags_stuck_example :
    (world_flags at_the_end (segment_of answer)).syn_state ≡ at_the_end.syn_state
world_flags_stuck_example = world_flags_stuck at_the_end (segment_of answer) refl (omega arith)

-- The answer had the number 100, the `FIN` has 50, and the client acknowledges 60.
abbrev answered_session : Session
answered_session = record blank { syn_state = 2; server_last_state_seq = 100 }

abbrev early_fin : Segment
early_fin = record {
  is_syn = false;
  is_fin = true;
  is_ack = false;
  seq_number = 50;
  ack_number = 0;
}

abbrev low_ack : Segment
low_ack = record { is_syn = false; is_fin = false; is_ack = true; seq_number = 0; ack_number = 60 }
