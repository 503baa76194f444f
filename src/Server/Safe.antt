-- ===== src/Server/Safe.antt =====
-- The loop of src/server/main.c never faults.
use benker_vpn.Base.{
  ℕ, zero, suc, ◌≡◌, ◌<◌, true, false, arith, Option, none, some, List, [], ◌∷◌, Bool, Returns,
  returns, Run, subst, Returns-bind,
}
use benker_vpn.Packet.{Buffer, IsBytes}
use benker_vpn.Packet.Bytes.{put16-IsBytes, put32-IsBytes}
use benker_vpn.Rewrite.{
  replace_src_ip_port, replace_dst_ip_port, replace_src_ip, replace_src_port, replace_dst_ip,
  replace_dst_port,
}
use benker_vpn.Session.{Ptr, Memory, Table, Clock}
use benker_vpn.Session.Valid.{IsValid, init_hash_table-IsValid}
use benker_vpn.Net.{
  Call, Received, message, read_msg_udp, SockaddrIn, Descriptor, no_socket, unbound, bound,
  get_udp_socket_server, get_vpn_raw_socket,
}
use benker_vpn.Session.Print.{print_session_hash_table-OnlyCalls}
use benker_vpn.Handler.Store.{later-IsValid}
use benker_vpn.Net.Laws.{SaneReceived, SaneFrames, ends, fill-IsBytes, get_ip_packet-Picked}
use benker_vpn.Handler.{Reply, valid_session, invalid_session}
use benker_vpn.Handler.Client
use benker_vpn.Handler.World
use benker_vpn.Server.{
  Server, Answers, Result, after_send, client_reply, world_reply, client_read, world_read,
  continue_with, running, exited, serve_client, serve_world, serve_round, serve, init_vpn_server,
  fill_in,
}

pub record IsServing (s : Server) : Type 0 where
  pub valid : IsValid s.memory s.table
  pub bytes : IsBytes s.buf

-- A kernel's answers to a round: they hold bytes, and the raw socket runs out of packets at last.
pub record AreSane (packet_host : ℕ) (a : Answers) : Type 0 where
  pub udp : SaneReceived a.udp
  pub frames : SaneFrames a.frames
  pub end : ends packet_host a.frames ≡ true

abbrev pub AllSane : ℕ → List Answers → Type 0
AllSane packet_host [] = Unit
AllSane packet_host (a ∷ rest) = AreSane packet_host a × AllSane packet_host rest

replace_src_ip_port-IsBytes :
    (b : Buffer) (ip port : ℕ) → IsBytes b → IsBytes (replace_src_ip_port b ip port)
unfolding replace_src_ip_port replace_src_ip replace_src_port
replace_src_ip_port-IsBytes b ip port h = put16-IsBytes _ _ (
    put16-IsBytes _ _
      (put16-IsBytes _ _ (put16-IsBytes _ _ (put32-IsBytes _ _ (put16-IsBytes _ _ h)))))

replace_dst_ip_port-IsBytes :
    (b : Buffer) (ip port : ℕ) → IsBytes b → IsBytes (replace_dst_ip_port b ip port)
unfolding replace_dst_ip_port replace_dst_ip replace_dst_port
replace_dst_ip_port-IsBytes b ip port h = put16-IsBytes _ _ (
    put16-IsBytes _ _
      (put16-IsBytes _ _ (put16-IsBytes _ _ (put32-IsBytes _ _ (put16-IsBytes _ _ h)))))

abbrev ReplyBytes : Reply → Type 0
ReplyBytes (valid_session r) = IsBytes r
ReplyBytes (invalid_session r size) = IsBytes r

client-ReplyBytes :
    (clock : Clock) (m : Memory) (t : Table) (b : Buffer) (len ip : ℕ)
    → IsBytes b
    → (x : Reply × Memory × Table) → Client.ClientOutcome clock m t b len ip x
    → ReplyBytes x.0
client-ReplyBytes clock m t b len ip h x (Client.bad_packet bad reset) = reset.bytes
client-ReplyBytes clock m t b len ip h x (Client.no_session good n reset) = reset.bytes
client-ReplyBytes clock m t b len ip h x (Client.too_late p good c late reset) = reset.bytes
client-ReplyBytes clock m t b len ip h x (Client.forwarded p good c early same) =
    rw same (replace_src_ip_port-IsBytes b ip _ h)

world-ReplyBytes :
    (clock : Clock) (m : Memory) (t : Table) (b : Buffer) (len ip : ℕ)
    → IsBytes b
    → (x : Reply × ℕ × Memory) → World.WorldOutcome clock m t b len ip x
    → ReplyBytes x.0
world-ReplyBytes clock m t b len ip h x (World.bad_packet bad reset) = reset.bytes
world-ReplyBytes clock m t b len ip h x (World.no_session good n reset) = reset.bytes
world-ReplyBytes clock m t b len ip h x (World.too_late p good c late reset) = reset.bytes
world-ReplyBytes clock m t b len ip h x (World.delivered p good c early) =
    replace_dst_ip_port-IsBytes b _ _ h

abbrev pub Safe : Result → Type 0
Safe (status, sent, s) = IsServing s

after_send-Safe :
    (accepts : Bool) (packet : Call) (s : Server) → IsServing s → Safe (after_send accepts packet s)
unfolding after_send
after_send-Safe true packet s h = h
after_send-Safe false packet s h = h

client_reply-Safe :
    (clock : Clock) (s : Server) (a : Answers) (n : ℕ) (x : Reply × Memory × Table)
    → IsValid x.1 x.2
    → ReplyBytes x.0
    → Returns Safe (client_reply clock s a n x)
unfolding client_reply
client_reply-Safe clock s a n (valid_session r, m, t) v h =
    Returns-bind (print_session_hash_table-OnlyCalls clock m t v) (λ y p. returns (
      after_send-Safe a.world_accepts _ _
        (record { valid = rw p.1 (later-IsValid p.0 v); bytes = h })))
client_reply-Safe clock s a n (invalid_session r size, m, t) v h =
    returns (record { valid = v; bytes = h })

world_reply-Safe :
    (s : Server) (a : Answers) (n : ℕ) (x : Reply × ℕ × Memory)
    → IsValid x.2 s.table
    → ReplyBytes x.0
    → Safe (world_reply s a n x)
unfolding world_reply
world_reply-Safe s a n (valid_session r, ip, m) v h =
    after_send-Safe a.client_accepts _ _ (record { valid = v; bytes = h })
world_reply-Safe s a n (invalid_session r size, ip, m) v h = record { valid = v; bytes = h }

client_read-Safe :
    (clock : Clock) (s : Server) (a : Answers) (ret : Option ℕ)
    → IsServing s
    → Returns Safe (client_read clock s a ret)
unfolding client_read
client_read-Safe clock s a none serving = returns serving
client_read-Safe clock s a (some zero) serving = returns serving
client_read-Safe clock s a (some (suc n)) serving =
    Returns-bind
      (Client.handle_client_packet-Outcome clock a.count s.memory s.table s.buf s.buf_len s.local_ip
        serving.bytes serving.valid)
      (λ x o.
        client_reply-Safe clock s a (suc n) x o.0
          (client-ReplyBytes clock s.memory s.table s.buf s.buf_len s.local_ip serving.bytes x o.1))

world_read-Safe :
    (clock : Clock) (s : Server) (a : Answers) (ret : Option ℕ)
    → IsServing s
    → Returns Safe (world_read clock s a ret)
unfolding world_read
world_read-Safe clock s a none serving = returns serving
world_read-Safe clock s a (some zero) serving = returns serving
world_read-Safe clock s a (some (suc n)) serving =
    Returns-bind
      (World.handle_world_packet-Outcome clock s.memory s.table s.buf s.buf_len s.client_ip
        serving.valid serving.bytes)
      (λ x o. returns (
        world_reply-Safe s a (suc n) x o.0 (
          world-ReplyBytes clock s.memory s.table s.buf s.buf_len s.client_ip serving.bytes x o.1)))

continue_with-Safe :
    (r : Result) (next : Server → Run Result)
    → Safe r
    → ((s : Server) → IsServing s → Returns Safe (next s))
    → Returns Safe (continue_with r next)
unfolding continue_with
continue_with-Safe (exited, sent, s) next safe h = returns safe
continue_with-Safe (running, sent, s) next safe h =
    Returns-bind (h s safe) (λ x safe'. returns safe')

fill_in-IsServing :
    (s : Server) (m : Memory)
    → IsBytes s.buf
    → ((p : Ptr) → m.live p ≡ true → p < m.next)
    → (fd fd' : ℕ) → IsServing (record (fill_in s m) { udpfd = fd; rawfd = fd' })
unfolding fill_in
fill_in-IsServing s m h fresh fd fd' = record {
  valid =
      init_hash_table-IsValid m 200 40000 41000 fresh (omega arith) (omega arith) (omega arith)
        (omega arith);
  bytes = h;
}

pub init_vpn_server-IsServing :
    (s : Server) (m : Memory) (udp raw : Descriptor) (s' : Server)
    → IsBytes s.buf
    → ((p : Ptr) → m.live p ≡ true → p < m.next)
    → (init_vpn_server s m udp raw).0 ≡ some s'
    → IsServing s'
unfolding init_vpn_server get_udp_socket_server get_vpn_raw_socket
init_vpn_server-IsServing s m no_socket raw s' h fresh e = absurd (cc)
init_vpn_server-IsServing s m (unbound fd) raw s' h fresh e = absurd (cc)
init_vpn_server-IsServing s m (bound fd) no_socket s' h fresh e = absurd (cc)
init_vpn_server-IsServing s m (bound fd) (unbound fd') s' h fresh e = absurd (cc)
init_vpn_server-IsServing s m (bound fd) (bound fd') s' h fresh e =
    let same : record (fill_in s m) { udpfd = fd; rawfd = fd' } ≡ s' = cc in
    subst IsServing same (fill_in-IsServing s m h fresh fd fd')

module _ (eagain ewouldblock : ℕ) where
  pub read_msg_udp-IsBytes :
      (b : Buffer) (raddr : SockaddrIn) (x : Received)
      → SaneReceived x
      → IsBytes b
      → IsBytes (read_msg_udp eagain ewouldblock b raddr x).1
  unfolding read_msg_udp
  read_msg_udp-IsBytes b raddr (Received.failed e) sane h = h
  read_msg_udp-IsBytes b raddr (message msg size from) sane h = fill-IsBytes msg size b sane h

  module _ (packet_host : ℕ) (clock : Clock) where
    pub serve_client-Safe :
        (s : Server) (a : Answers)
        → IsServing s
        → AreSane packet_host a
        → Returns Safe (serve_client eagain ewouldblock packet_host clock s a)
    unfolding serve_client
    serve_client-Safe s a serving sane = client_read-Safe clock _ a _ (record {
      valid = serving.valid;
      bytes = read_msg_udp-IsBytes s.buf s.raddr a.udp sane.udp serving.bytes;
    })

    pub serve_world-Safe :
        (s : Server) (a : Answers)
        → IsServing s
        → AreSane packet_host a
        → Returns Safe (serve_world eagain ewouldblock packet_host clock s a)
    unfolding serve_world
    serve_world-Safe s a serving sane =
        Returns-bind
          (get_ip_packet-Picked eagain ewouldblock packet_host s.buf a.other_ll a.frames
            serving.bytes sane.frames sane.end)
          (λ r h. world_read-Safe clock _ a r.0 (record { valid = serving.valid; bytes = h.0 }))

    serve_round-Safe :
        (s : Server) (a : Answers)
        → IsServing s
        → AreSane packet_host a
        → Returns Safe (serve_round eagain ewouldblock packet_host clock s a)
    unfolding serve_round
    serve_round-Safe s a serving sane = Returns-bind (serve_client-Safe s a serving sane) (λ r safe.
        continue_with-Safe r (λ s'. serve_world eagain ewouldblock packet_host clock s' a) safe
          (λ s' h. serve_world-Safe s' a h sane))

    serve-Safe :
        (s : Server) (rounds : List Answers)
        → IsServing s
        → AllSane packet_host rounds
        → Returns Safe (serve eagain ewouldblock packet_host clock s rounds)
    unfolding serve
    serve-Safe s [] serving sane = returns serving
    serve-Safe s (a ∷ rest) serving sane =
        Returns-bind (serve_round-Safe s a serving sane.0) (λ r safe.
          continue_with-Safe r (λ s'. serve eagain ewouldblock packet_host clock s' rest) safe
            (λ s' h. serve-Safe s' rest h sane.1))

    -- Once `init_vpn_server` has set the server up, it serves any number of rounds without a fault and
    -- leaves its session table well formed and bytes in its buffer, if the buffer starts with
    -- bytes, every allocated address of the heap lies below the next, and in each round the
    -- kernel's messages hold bytes and its answers end the loop that reads the raw socket.
    pub serve-IsServing :
        (s : Server) (m : Memory) (udp raw : Descriptor) (s' : Server) (rounds : List Answers)
        → IsBytes s.buf
        → ((p : Ptr) → m.live p ≡ true → p < m.next)
        → (init_vpn_server s m udp raw).0 ≡ some s'
        → AllSane packet_host rounds
        → Returns (λ r. IsServing r.2) (serve eagain ewouldblock packet_host clock s' rounds)
    serve-IsServing s m udp raw s' rounds h fresh start sane =
        serve-Safe s' rounds (init_vpn_server-IsServing s m udp raw s' h fresh start) sane
