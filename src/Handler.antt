-- ===== src/Handler.antt =====
-- The packet handlers of src/lib/packet_handler.c. What they print is left out.
pub mod Flags
pub mod Store
pub mod Client
pub mod World
pub mod RoundTrip
pub mod Expired
pub mod Served
use benker_vpn.Base.{
  ℕ, ◌+◌, ◌*◌, Bool, true, false, not, ◌&&◌, Option, none, some, ltb, ◌==◌, if◌then◌else◌, Run, ok,
  ◌>>=◌,
}
use benker_vpn.Packet.{
  Buffer, ip_header_len, saddr, source, dest, seq, ack_seq, flag, fin_bit, syn_bit, ack_bit,
}
use benker_vpn.Validate.{validate_ip_tcp}
use benker_vpn.Reset.{fillin_reset}
use benker_vpn.Rewrite.{replace_src_ip_port, replace_dst_ip_port}
use benker_vpn.Session.{
  Session, Ptr, Memory, Clock, Table, load, store, session_expired, add_tcp_session,
  get_tcp_session_by_client, get_tcp_session_by_server,
}

-- `VALID_SESSION` with the packet to send on; `INVALID_SESSION` with the reset packet and its size.
pub data Reply : Type 0 where
  valid_session : Buffer → Reply
  invalid_session : Buffer → ℕ → Reply

-- The flags and numbers of a TCP header that the handlers read.
pub record Segment : Type 0 where
  pub is_syn : Bool
  pub is_fin : Bool
  pub is_ack : Bool
  pub seq_number : ℕ
  pub ack_number : ℕ

abbrev pub segment_of : Buffer → Segment
segment_of b =
    let tcp = ip_header_len b in
    record {
      is_syn = flag b tcp syn_bit;
      is_fin = flag b tcp fin_bit;
      is_ack = flag b tcp ack_bit;
      seq_number = seq b tcp;
      ack_number = ack_seq b tcp;
    }

-- `handle tcp flags` of `handle_client_packet`.
unfoldable pub client_flags : Session → Segment → Session
client_flags s g =
    if g.is_syn && s.syn_state == 0
    then record s { client_last_state_seq = g.seq_number }
    else let acked =
        if g.is_ack && ltb s.server_last_state_seq g.ack_number
        then (if s.syn_state == 2
            then record s { syn_state = 3 }
            else if s.client_fin_state == 1
            then record s { client_fin_state = 2 }
            else s)
        else s in
      if g.is_fin && acked.server_fin_state == 0
      then record acked { server_fin_state = 1; client_last_state_seq = g.seq_number }
      else acked

-- `handle tcp flags` of `handle_world_packet`.
unfoldable pub world_flags : Session → Segment → Session
world_flags s g =
    if g.is_syn && s.syn_state == 0 && g.is_ack && ltb s.client_last_state_seq g.ack_number
    then record s { syn_state = 2; server_last_state_seq = g.seq_number }
    else let acked =
        if g.is_ack && s.server_fin_state == 1 && ltb s.client_last_state_seq g.ack_number
        then record s { server_fin_state = 2 }
        else s in
      if g.is_fin && acked.client_fin_state == 0
      then record acked { client_fin_state = 1; server_last_state_seq = g.seq_number }
      else acked

-- `*rst_size = fillin_reset(buffer); return INVALID_SESSION;`
unfoldable pub refuse : Buffer → Reply
refuse b = let (r, size) = fillin_reset b in invalid_session r size

abbrev pub default_timeout : ℕ
default_timeout = 10

-- The session for a packet of a client: a `syn` adds one.
unfoldable pub client_session :
    Clock → (count : ℕ) → Memory → Table → Buffer → Run (Option Ptr × Memory × Table)
client_session clock count m t b =
    let ip = saddr b in
    let port = source b (ip_header_len b) in
    if (segment_of b).is_syn
    then add_tcp_session clock count m t ip port default_timeout
    else do session ← get_tcp_session_by_client m t ip port; ok (session, m, t)

-- `count` is what the variable of `add_tcp_session` holds on entry.
unfoldable pub handle_client_packet :
    Clock
    → (count : ℕ) → Memory
    → Table
    → Buffer
    → (buffer_len vpn_server_ip : ℕ) → Run (Reply × Memory × Table)
unfolding refuse client_session
handle_client_packet clock count m t b buffer_len vpn_server_ip =
    if not (validate_ip_tcp b buffer_len) then ok (refuse b, m, t) else do
      (session, m₁, t₁) ← client_session clock count m t b
      elim session [
        | none ↦ ok (refuse b, m₁, t₁)
        | some p ↦ do
          (dead, m₂) ← session_expired clock m₁ p
          if dead then ok (refuse b, m₂, t₁) else do
            s ← load m₂ p
            let s' = client_flags s (segment_of b)
            ok (
              valid_session (replace_src_ip_port b vpn_server_ip s'.server_port),
              store m₂ p s',
              t₁,
            )
      ]

-- `client_ip` is what the caller's variable holds on entry, and its value afterwards is returned.
unfoldable pub handle_world_packet :
    Clock → Memory → Table → Buffer → (buffer_len client_ip : ℕ) → Run (Reply × ℕ × Memory)
unfolding refuse
handle_world_packet clock m t b buffer_len client_ip =
    if not (validate_ip_tcp b buffer_len) then ok (refuse b, client_ip, m) else do
      session ← get_tcp_session_by_server m t (dest b (ip_header_len b))
      elim session [
        | none ↦ ok (refuse b, client_ip, m)
        | some p ↦ do
          (dead, m₁) ← session_expired clock m p
          if dead then ok (refuse b, client_ip, m₁) else do
            s ← load m₁ p
            let s' = world_flags s (segment_of b)
            ok (
              valid_session (replace_dst_ip_port b s'.client_ip s'.client_port),
              s'.client_ip,
              store m₁ p s',
            )
      ]
