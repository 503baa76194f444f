-- ===== src/Server/Outgoing/Round.antt =====
-- One half of a round of src/server/main.c.
use benker_vpn.Base.{
  ℕ, zero, suc, ◌^◌, ◌<◌, refl, arith, List, [], ◌∷◌, Option, none, some, Returns, returns,
  Returns-bind, Returns-both,
}
use benker_vpn.Packet.{Buffer}
use benker_vpn.Rewrite.Both.{IsLong, replace_src_ip_port-IsForwarded}
use benker_vpn.Session.{Memory, Table, Clock}
use benker_vpn.Session.Valid.{IsValid, server_home}
use benker_vpn.Session.Print.{print_session_hash_table-OnlyCalls}
use benker_vpn.Net.{read_msg_udp, send_ip_packet, send_msg_udp}
use benker_vpn.Net.Laws.{get_ip_packet-Picked}
use benker_vpn.Handler.{Reply}
use benker_vpn.Handler.Client
use benker_vpn.Handler.World
use benker_vpn.Server.{
  Server, Answers, client_reply, client_read, world_reply, world_read, serve_client, serve_world,
}
use benker_vpn.Server.Safe.{IsServing, AreSane, read_msg_udp-IsBytes}
use benker_vpn.Server.Outgoing.{
  Input, from_client, from_world, Starts, HasHeaders-IsLong, to_world, to_client, none_left,
  all_dropped, Sends, after_send-Sends, replace_dst_ip_port-cut,
}
use benker_vpn.Server.Outgoing.Reads.{
  client_inputs, world_inputs, AllHeaded, Read, read_error, read_nothing, read_message,
  read_msg_udp-Read, get_ip_packet-Read,
}

module _ (s : Server) (a : Answers) (serving : IsServing s) (fits : s.local_ip < 2 ^ 32)
    (msg : Buffer) (n : ℕ) (starts : Starts msg (suc n) s.buf) (long : IsLong s.buf) where
  client_reply-Sends :
      (clock : Clock) (x : Reply × Memory × Table)
      → IsValid x.1 x.2
      → Client.ClientOutcome clock s.memory s.table s.buf s.buf_len s.local_ip x
      → Returns
          (Sends s.local_ip s.rawfd s.udpfd (from_client msg (suc n) ∷ []))
          (client_reply clock s a (suc n) x)
  unfolding client_reply send_ip_packet
  client_reply-Sends clock x v (Client.bad_packet bad reset) =
      returns ((refl, refl, refl), all_dropped _)
  client_reply-Sends clock x v (Client.no_session good unused reset) =
      returns ((refl, refl, refl), all_dropped _)
  client_reply-Sends clock x v (Client.too_late p good c late reset) =
      returns ((refl, refl, refl), all_dropped _)
  client_reply-Sends clock x v (Client.forwarded {r} {m'} {t'} p good c early same) =
      let port = (m'.cell p).server_port in
      let (home, other, alive, low, high) = v.servers (server_home m' t' p) p c.in_table in
      let range = v.ports_fit in
      let f =
        replace_src_ip_port-IsForwarded s.buf s.local_ip port serving.bytes long fits
          (omega arith) in
      Returns-bind (print_session_hash_table-OnlyCalls clock m' t' v) (λ y q. returns (
        after_send-Sends s.local_ip s.rawfd s.udpfd a.world_accepts _ _ _ (refl, refl, refl)
          (to_world port starts (rw same f))))

  world_reply-Sends :
      (clock : Clock) (x : Reply × ℕ × Memory)
      → World.WorldOutcome clock s.memory s.table s.buf s.buf_len s.client_ip x
      → Sends s.local_ip s.rawfd s.udpfd (from_world msg (suc n) ∷ []) (world_reply s a (suc n) x)
  unfolding world_reply send_msg_udp
  world_reply-Sends clock x (World.bad_packet bad reset) = ((refl, refl, refl), all_dropped _)
  world_reply-Sends clock x (World.no_session good unused reset) =
      ((refl, refl, refl), all_dropped _)
  world_reply-Sends clock x (World.too_late p good c late reset) =
      ((refl, refl, refl), all_dropped _)
  world_reply-Sends clock x (World.delivered p good c early) =
      after_send-Sends s.local_ip s.rawfd s.udpfd a.client_accepts _ _ _ (refl, refl, refl)
        (to_client _ _ starts (replace_dst_ip_port-cut s.buf _ _ serving.bytes long))

module _ (s : Server) (a : Answers) (clock : Clock) (serving : IsServing s)
    (fits : s.local_ip < 2 ^ 32) where
  client_read-Sends :
      (ret : Option ℕ) (xs : List Input)
      → Read from_client ret s.buf xs
      → AllHeaded xs
      → Returns (Sends s.local_ip s.rawfd s.udpfd xs) (client_read clock s a ret)
  unfolding client_read
  client_read-Sends none _ read_error h = returns ((refl, refl, refl), none_left)
  client_read-Sends (some zero) _ read_nothing h = returns ((refl, refl, refl), none_left)
  client_read-Sends (some (suc n)) _ (read_message {msg} starts) h =
      Returns-bind
        (Client.handle_client_packet-Outcome clock a.count s.memory s.table s.buf s.buf_len
          s.local_ip serving.bytes serving.valid)
        (λ x o.
          client_reply-Sends s a serving fits msg n starts
            (HasHeaders-IsLong msg (suc n) s.buf h.0 starts) clock x o.0 o.1)

  world_read-Sends :
      (ret : Option ℕ) (xs : List Input)
      → Read from_world ret s.buf xs
      → AllHeaded xs
      → Returns (Sends s.local_ip s.rawfd s.udpfd xs) (world_read clock s a ret)
  unfolding world_read
  world_read-Sends none _ read_error h = returns ((refl, refl, refl), none_left)
  world_read-Sends (some zero) _ read_nothing h = returns ((refl, refl, refl), none_left)
  world_read-Sends (some (suc n)) _ (read_message {msg} starts) h =
      Returns-bind
        (World.handle_world_packet-Outcome clock s.memory s.table s.buf s.buf_len s.client_ip
          serving.valid serving.bytes)
        (λ x o. returns (
          world_reply-Sends s a serving fits msg n starts
            (HasHeaders-IsLong msg (suc n) s.buf h.0 starts) clock x o.1))

module _ (eagain ewouldblock packet_host : ℕ) (clock : Clock) where
  pub serve_client-Sends :
      (s : Server) (a : Answers)
      → IsServing s
      → AreSane packet_host a
      → s.local_ip < 2 ^ 32
      → AllHeaded (client_inputs a.udp)
      → Returns
          (Sends s.local_ip s.rawfd s.udpfd (client_inputs a.udp))
          (serve_client eagain ewouldblock packet_host clock s a)
  unfolding serve_client
  serve_client-Sends s a serving sane fits headed =
      let (ret, b, raddr) = read_msg_udp eagain ewouldblock s.buf s.raddr a.udp in
      client_read-Sends (record s { buf = b; raddr = raddr }) a clock
        (record {
          valid = serving.valid;
          bytes =
              read_msg_udp-IsBytes eagain ewouldblock s.buf s.raddr a.udp sane.udp serving.bytes;
        })
        fits ret _ (read_msg_udp-Read eagain ewouldblock s.buf s.raddr a.udp) headed

  pub serve_world-Sends :
      (s : Server) (a : Answers)
      → IsServing s
      → AreSane packet_host a
      → s.local_ip < 2 ^ 32
      → AllHeaded (world_inputs packet_host a.frames)
      → Returns
          (Sends s.local_ip s.rawfd s.udpfd (world_inputs packet_host a.frames))
          (serve_world eagain ewouldblock packet_host clock s a)
  unfolding serve_world
  serve_world-Sends s a serving sane fits headed =
      Returns-bind
        (Returns-both
          (get_ip_packet-Picked eagain ewouldblock packet_host s.buf a.other_ll a.frames
            serving.bytes sane.frames sane.end)
          (get_ip_packet-Read eagain ewouldblock packet_host s.buf a.other_ll a.frames sane.end))
        (λ r h.
          world_read-Sends (record s { buf = r.1 }) a clock
            (record { valid = serving.valid; bytes = h.0.0 }) fits r.0 _ h.1 headed)
