-- ===== src/Server/Replies.antt =====
-- The answer of the world to a packet that src/server/main.c has sent for its client.
use benker_vpn.Base.{
  ℕ, suc, ◌^◌, ◌<◌, ◌≡◌, refl, ap, true, [], ◌∷◌, ok, List, Returns, returns, Returns-value,
  Bool-cases, inl, inr, subst, sym, ◌∙◌, ◌++◌,
}
use benker_vpn.Packet.Bytes.{get16-lt, get32-lt}
use benker_vpn.Packet.{Buffer, IsBytes, source, dest, saddr, ip_header_len}
use benker_vpn.Validate.{validate_ip_tcp}
use benker_vpn.Rewrite.{replace_dst_ip_port}
use benker_vpn.Rewrite.Both.{IsLong, IsForwarded, replace_dst_ip_port-IsForwarded}
use benker_vpn.Session.{Memory, Table, Clock}
use benker_vpn.Session.Valid.{IsValid}
use benker_vpn.Session.Clean.{later}
use benker_vpn.Session.Print.{print_session_hash_table-OnlyCalls}
use benker_vpn.Net.{
  message, SockaddrIn, SockaddrLl, Const, Frame, Frame.frame, call_sendto_ll, call_sendto_in,
  msg_confirm, fill, read_msg_udp, send_ip_packet, send_msg_udp,
}
use benker_vpn.Net.Laws.{fill-IsBytes, AllSkipped, filled, filled-IsBytes, get_ip_packet_skips}
use benker_vpn.Handler.{Reply, valid_session, invalid_session, handle_client_packet}
use benker_vpn.Handler.Client.{handle_client_packet-Outcome}
use benker_vpn.Handler.RoundTrip.{
  handle_client_packet-IsForwarded, handle_world_packet-Reaches-later,
}
use benker_vpn.Server.{
  Server, Answers, Result, running, client_reply, world_reply, client_read, world_read, after_send,
  serve_client, serve_world,
}
use benker_vpn.Server.Safe.{IsServing}

-- The handler has let the packet through, and the server is left with its result.
abbrev Kept : Server → (r : Buffer) → Reply × Memory × Table → Server → Type 0
Kept s r (reply, m, t) s' =
    (calls : ℕ) × (reply ≡ valid_session r)
    × (s' ≡ record s {
      buf = r;
      memory = later m calls;
      table = t;
      ll = record s.ll { sll_hatype = 0; sll_pkttype = 0 };
    })

client_reply-Kept :
    (clock : Clock) (s : Server) (a : Answers) (n : ℕ) (x : Reply × Memory × Table) {fd size : ℕ}
    {r : Buffer} {flags : Const} {ll : SockaddrLl} {s' : Server}
    → IsValid x.1 x.2
    → client_reply clock s a n x ≡ ok (running, call_sendto_ll fd r size flags ll ∷ [], s')
    → Kept s r x s'
unfolding client_reply send_ip_packet after_send
client_reply-Kept clock s a n (invalid_session b size, m, t) v e = absurd (cc)
client_reply-Kept clock s a n (valid_session b, m, t) {r} {s'} v e =
    let (y, run, (calls, later_is)) =
      Returns-value (print_session_hash_table-OnlyCalls clock m t v) in
    let e₁ = rw run at e in
    elim (Bool-cases a.world_accepts) [
      | inr refused ↦ let e₂ = rw refused at e₁ in absurd (cc e₂)
      | inl taken ↦
          let e₂ = rw taken at e₁ in
          let same : b ≡ r = cc e₂ in
          let left : record s {
            buf = b;
            memory = y.1;
            table = t;
            ll = record s.ll { sll_hatype = 0; sll_pkttype = 0 };
          }
              ≡ s' =
            cc e₂ in
          (calls, ap (λ (x : Buffer). valid_session x) same, rw (← left, ← same, later_is))
    ]

world_reply_sent :
    (s : Server) (a : Answers) (n : ℕ) (x : Reply × ℕ × Memory) (out : Buffer)
    → x.0 ≡ valid_session out
    → (s' : Server) × (world_reply s (record a { client_accepts = true }) n x
        ≡ (running, call_sendto_in s.udpfd out n msg_confirm s.raddr ∷ [], s'))
unfolding world_reply after_send send_msg_udp
world_reply_sent s a n (invalid_session b size, ip, m) out e = absurd (cc)
world_reply_sent s a n (valid_session b, ip, m) out e =
    let same : b ≡ out = cc in (record s { buf = b; client_ip = ip; memory = m }, rw same)

-- Where the world's answer is read.
module _ (eagain ewouldblock packet_host : ℕ) where
  module _ (clock : Clock) (now : ℕ) (still : (n : ℕ) → clock n ≡ now) (s : Server) (a : Answers)
      (msg : Buffer) (n : ℕ) (from : SockaddrIn) (serving : IsServing s) (h : IsBytes msg)
      (long : IsLong (fill msg (suc n) s.buf)) (fits : s.local_ip < 2 ^ 32) (fd size : ℕ)
      (r : Buffer) (flags : Const) (ll : SockaddrLl) (s' : Server)
      (run : serve_client eagain ewouldblock packet_host clock s
          (record a { udp = message msg (suc n) from })
        ≡ ok (running, call_sendto_ll fd r size flags ll ∷ [], s')) where
    abbrev asked : Buffer
    asked = fill msg (suc n) s.buf

    abbrev reader : Server
    reader = record s { buf = asked; raddr = from }

    -- One call sends the answer `w` to the client, its destination the address and the port from which
    -- the client has sent, both checksums right and no other byte changed.
    abbrev pub IsAnswered : Buffer → (size : ℕ) → Result → Type 0
    IsAnswered w count (status, calls, s'') =
        (out : Buffer) × (status ≡ running)
        × (calls ≡ call_sendto_in s.udpfd out count msg_confirm from ∷ [])
        × IsForwarded 16 (saddr asked) 2 (source asked (ip_header_len asked)) w out

    passed :
        (x : Reply × Memory × Table) × (handle_client_packet clock a.count s.memory s.table asked
            s.buf_len s.local_ip
          ≡ ok x)
        × Kept reader r x s'
    unfolding serve_client client_read read_msg_udp
    passed =
        let bytes = fill-IsBytes msg (suc n) s.buf h serving.bytes in
        let (x, handled, (v, o)) = Returns-value (
          handle_client_packet-Outcome clock a.count s.memory s.table asked s.buf_len s.local_ip
            bytes serving.valid) in
        let e = rw handled at run in
        (
          x,
          handled,
          client_reply-Kept clock reader (record a { udp = message msg (suc n) from }) (suc n) x v
              e,
        )

    -- The server after a packet of the client has passed the handler.
    abbrev after : Memory → Table → (calls : ℕ) → Server
    after m t calls = record reader {
      buf = r;
      memory = later m calls;
      table = t;
      ll = record s.ll { sll_hatype = 0; sll_pkttype = 0 };
    }

    after-IsAnswered :
        (m : Memory) (t : Table) (calls : ℕ)
        → handle_client_packet clock a.count s.memory s.table asked s.buf_len s.local_ip
          ≡ ok (valid_session r, m, t)
        → (a' : Answers) (skipped : List Frame) (w : Buffer) (k : ℕ) (wll : SockaddrLl)
          (rest : List Frame)
        → AllSkipped packet_host skipped
        → IsBytes w
        → wll.sll_pkttype ≡ packet_host
        → 0 < wll.sll_halen
        → IsLong (fill w (suc k) (filled skipped r))
        → validate_ip_tcp (fill w (suc k) (filled skipped r)) s.buf_len ≡ true
        → dest
            (fill w (suc k) (filled skipped r))
            (ip_header_len (fill w (suc k) (filled skipped r)))
          ≡ source r (ip_header_len asked)
        → Returns (IsAnswered (fill w (suc k) (filled skipped r)) (suc k)) (
            serve_world eagain ewouldblock packet_host clock (after m t calls) (record a' {
              frames = skipped ++ (frame w (suc k) wll ∷ rest);
              client_accepts = true;
            }))
    unfolding serve_world world_read world_reply after_send send_msg_udp
    after-IsAnswered m t calls handled a' skipped w k wll rest others w_bytes host hard w_long good
          to =
        let bytes = fill-IsBytes msg (suc n) s.buf h serving.bytes in
        let f =
          (handle_client_packet-IsForwarded clock now still a.count s.memory s.table asked s.buf_len
            s.local_ip serving.valid bytes long fits r m t handled).0 in
        let w' = fill w (suc k) (filled skipped r) in
        let bytes' =
          fill-IsBytes w (suc k) (filled skipped r) w_bytes
            (filled-IsBytes packet_host skipped r others f.bytes) in
        let (x, run', (is, ip)) = Returns-value (
          handle_world_packet-Reaches-later clock now still a.count s.memory s.table asked s.buf_len
            s.local_ip serving.valid bytes long fits r m t handled calls w' s.buf_len s.client_ip
            bytes' good to) in
        let out = replace_dst_ip_port w' (saddr asked) (source asked (ip_header_len asked)) in
        let forwarded =
          replace_dst_ip_port-IsForwarded w' (saddr asked) (source asked (ip_header_len asked))
            bytes' w_long (get32-lt asked bytes 12) (get16-lt asked bytes (ip_header_len asked)) in
        let (s'', sent) =
          world_reply_sent (record (after m t calls) { buf = w' })
            (record a' { frames = skipped ++ (frame w (suc k) wll ∷ rest) }) (suc k) x out is in
        rw
          (
            get_ip_packet_skips eagain ewouldblock packet_host r a'.other_ll skipped w (suc k) wll
                rest others host hard,
            run',
            sent,
          )
          (returns (out, refl, refl, forwarded))

    -- While `time(NULL)` returns one value, on a well formed table and with a server address of 32
    -- bits: once the server has sent a packet of the client to the world, in bytes and with headers no
    -- shorter than their fixed parts, it sends an answer of the world to the address from which that
    -- packet came, where the kernel takes it. The answer is a frame for this host, it has such
    -- headers, it is valid in its buffer, and it is sent to the port from which the packet left.
    -- It leaves with the address and the port of the client for its destination, with both checksums
    -- right, and with no other byte changed.
    pub serve_world-IsAnswered :
        (a' : Answers) (skipped : List Frame) (w : Buffer) (k : ℕ) (wll : SockaddrLl)
        (rest : List Frame)
        → AllSkipped packet_host skipped
        → IsBytes w
        → wll.sll_pkttype ≡ packet_host
        → 0 < wll.sll_halen
        → IsLong (fill w (suc k) (filled skipped s'.buf))
        → validate_ip_tcp (fill w (suc k) (filled skipped s'.buf)) s'.buf_len ≡ true
        → dest
            (fill w (suc k) (filled skipped s'.buf))
            (ip_header_len (fill w (suc k) (filled skipped s'.buf)))
          ≡ source r (ip_header_len asked)
        → Returns (IsAnswered (fill w (suc k) (filled skipped s'.buf)) (suc k)) (
            serve_world eagain ewouldblock packet_host clock s' (record a' {
              frames = skipped ++ (frame w (suc k) wll ∷ rest);
              client_accepts = true;
            }))
    serve_world-IsAnswered a' skipped w k wll rest others w_bytes host hard w_long good to =
        let ((reply, m, t), handled, (calls, is, left)) = passed in
        let e = handled ∙ ap (λ (y : Reply). ok (y, m, t)) is in
        subst
          (λ (x : Server).
            IsLong (fill w (suc k) (filled skipped x.buf))
            → validate_ip_tcp (fill w (suc k) (filled skipped x.buf)) x.buf_len ≡ true
            → dest (fill w (suc k) (filled skipped x.buf))
                (ip_header_len (fill w (suc k) (filled skipped x.buf)))
              ≡ source r (ip_header_len asked)
            → Returns (IsAnswered (fill w (suc k) (filled skipped x.buf)) (suc k)) (
                serve_world eagain ewouldblock packet_host clock x (record a' {
                  frames = skipped ++ (frame w (suc k) wll ∷ rest);
                  client_accepts = true;
                })))
          (sym left) (after-IsAnswered m t calls e a' skipped w k wll rest others w_bytes host hard)
          w_long good to
