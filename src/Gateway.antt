-- ===== src/Gateway.antt =====
-- What the gateway promises, without its table: which session owns which port of the server. The code
-- is that of src/lib/packet_handler.c and of `clean_expired_session` (src/lib/session_struct.c).
pub mod View
pub mod Client
pub mod Refines
use benker_vpn.Base.{
  ℕ, ◌+◌, ◌≤◌, ◌<◌, ◌≡◌, ◌≢◌, true, false, Bool, Option, none, some, List, [], ◌∷◌, ltb, ◌==◌,
  if◌then◌else◌, Run, ok, ◌>>=◌,
}
use benker_vpn.Packet.{Buffer, saddr, source, dest, ip_header_len}
use benker_vpn.Validate.{validate_ip_tcp}
use benker_vpn.Session.{Session, Memory, Clock, Table, clean_expired_session}
use benker_vpn.Handler.{
  Reply, valid_session, invalid_session, Segment, segment_of, client_flags, world_flags,
  default_timeout, handle_client_packet, handle_world_packet,
}
use benker_vpn.Rewrite.{replace_src_ip_port, replace_dst_ip_port}

-- The owner of each port.
abbrev pub Mapping : Type 0
Mapping = ℕ → Option Session

abbrev pub set : Mapping → ℕ → Session → Mapping
set v n s k = if n == k then some s else v k

-- What is left of an owner at the time `now`.
abbrev pub unexpired : ℕ → Option Session → Option Session
unexpired now none = none
unexpired now (some s) = if ltb s.expire now then none else some s

-- The client at `ip` and `port` owns the port `n` by the session `s`.
pub record Owns (v : Mapping) (ip port n : ℕ) (s : Session) : Type 0 where
  pub owner : v n ≡ some s
  pub same_ip : s.client_ip ≡ ip
  pub same_port : s.client_port ≡ port

abbrev pub OwnsNone : Mapping → ℕ → ℕ → Type 0
OwnsNone v ip port = (n : ℕ) (s : Session) → v n ≡ some s → s.client_ip ≡ ip → s.client_port ≢ port

-- The session that a `SYN` makes.
abbrev pub opening : (now ip port n : ℕ) → Session
opening now ip port n = record {
  client_ip = ip;
  client_port = port;
  server_port = n;
  client_last_state_seq = 0;
  server_last_state_seq = 0;
  syn_state = 0;
  client_fin_state = 0;
  server_fin_state = 0;
  expire = now + default_timeout;
}

pub data Request : Type 0 where
  client_packet : Buffer → (buffer_len count : ℕ) → Request
  world_packet : Buffer → (buffer_len client_ip : ℕ) → Request
  clean_up : Request

-- What the outside sees of the answer: a packet that is sent on, or none.
pub data Answer : Type 0 where
  sent_on : Buffer → Answer
  refused : Answer

abbrev pub answer_of : Reply → Answer
answer_of (valid_session r) = sent_on r
answer_of (invalid_session r size) = refused

-- The steps of the gateway with the address `server_ip`, at the time `now`.
pub data Step (now server_ip : ℕ) (v : Mapping) : Request → Answer → Mapping → Type 0 where
  malformed_client :
      {b : Buffer} {len count : ℕ} {v' : Mapping}
      → validate_ip_tcp b len ≡ false
      → ((k : ℕ) → v' k ≡ v k)
      → Step now server_ip v (client_packet b len count) refused v'
  no_port :
      {b : Buffer} {len count : ℕ} {v' : Mapping}
      → validate_ip_tcp b len ≡ true
      → OwnsNone v (saddr b) (source b (ip_header_len b))
      → ((k : ℕ) → v' k ≡ v k)
      → Step now server_ip v (client_packet b len count) refused v'
  client_late :
      {b : Buffer} {len count : ℕ} {v' : Mapping} (n : ℕ) (s : Session)
      → validate_ip_tcp b len ≡ true
      → Owns v (saddr b) (source b (ip_header_len b)) n s
      → s.expire < now
      → ((k : ℕ) → v' k ≡ v k)
      → Step now server_ip v (client_packet b len count) refused v'
  client_known :
      {b : Buffer} {len count : ℕ} {v' : Mapping} (n : ℕ) (s : Session)
      → validate_ip_tcp b len ≡ true
      → Owns v (saddr b) (source b (ip_header_len b)) n s
      → now ≤ s.expire
      → ((k : ℕ) → v' k ≡ set v n (client_flags s (segment_of b)) k)
      → Step now server_ip v
          (client_packet b len count)
          (sent_on (replace_src_ip_port b server_ip n))
          v'
  client_opens :
      {b : Buffer} {len count : ℕ} {v' : Mapping} (n : ℕ)
      → validate_ip_tcp b len ≡ true
      → (segment_of b).is_syn ≡ true
      → OwnsNone v (saddr b) (source b (ip_header_len b))
      → v n ≡ none
      → ((k : ℕ)
          → v' k
            ≡ set v n
                (client_flags (opening now (saddr b) (source b (ip_header_len b)) n) (segment_of b))
                k)
      → Step now server_ip v
          (client_packet b len count)
          (sent_on (replace_src_ip_port b server_ip n))
          v'
  malformed_world :
      {b : Buffer} {len ip : ℕ} {v' : Mapping}
      → validate_ip_tcp b len ≡ false
      → ((k : ℕ) → v' k ≡ v k)
      → Step now server_ip v (world_packet b len ip) refused v'
  no_owner :
      {b : Buffer} {len ip : ℕ} {v' : Mapping}
      → validate_ip_tcp b len ≡ true
      → v (dest b (ip_header_len b)) ≡ none
      → ((k : ℕ) → v' k ≡ v k)
      → Step now server_ip v (world_packet b len ip) refused v'
  world_late :
      {b : Buffer} {len ip : ℕ} {v' : Mapping} (s : Session)
      → validate_ip_tcp b len ≡ true
      → v (dest b (ip_header_len b)) ≡ some s
      → s.expire < now
      → ((k : ℕ) → v' k ≡ v k)
      → Step now server_ip v (world_packet b len ip) refused v'
  world_known :
      {b : Buffer} {len ip : ℕ} {v' : Mapping} (s : Session)
      → validate_ip_tcp b len ≡ true
      → v (dest b (ip_header_len b)) ≡ some s
      → now ≤ s.expire
      → ((k : ℕ) → v' k ≡ set v (dest b (ip_header_len b)) (world_flags s (segment_of b)) k)
      → Step now server_ip v
          (world_packet b len ip)
          (sent_on (replace_dst_ip_port b s.client_ip s.client_port))
          v'
  cleaned :
      {v' : Mapping}
      → ((k : ℕ) → v' k ≡ unexpired now (v k))
      → Step now server_ip v clean_up refused v'

-- The code, request by request. `vpn_server_ip` is the address of the server.
unfoldable pub perform :
    Clock → (vpn_server_ip : ℕ) → Memory → Table → Request → Run (Answer × Memory × Table)
perform clock vpn_server_ip m t (client_packet b buffer_len count) = do
  (reply, m', t') ← handle_client_packet clock count m t b buffer_len vpn_server_ip
  ok (answer_of reply, m', t')
perform clock vpn_server_ip m t (world_packet b buffer_len client_ip) = do
  (reply, client_ip', m') ← handle_world_packet clock m t b buffer_len client_ip
  ok (answer_of reply, m', t)
perform clock vpn_server_ip m t clean_up = do
  (m', t') ← clean_expired_session clock m t
  ok (refused, m', t')

-- Each request with the time at which it is served.
unfoldable pub perform_all :
    (vpn_server_ip : ℕ) → Memory → Table → List (ℕ × Request) → Run (List Answer × Memory × Table)
unfolding perform
perform_all vpn_server_ip m t [] = ok ([], m, t)
perform_all vpn_server_ip m t ((now, r) ∷ rest) = do
  (answer, m₁, t₁) ← perform (λ n. now) vpn_server_ip m t r
  (answers, m₂, t₂) ← perform_all vpn_server_ip m₁ t₁ rest
  ok (answer ∷ answers, m₂, t₂)

-- The traces of the promise.
pub data Trace (server_ip : ℕ) : Mapping → List (ℕ × Request) → List Answer → Mapping → Type 0 where
  done : {v : Mapping} → Trace server_ip v [] [] v
  step :
      {v v₁ v₂ : Mapping} {now : ℕ} {r : Request} {a : Answer} {rs : List (ℕ × Request)}
      {as' : List Answer}
      → Step now server_ip v r a v₁
      → Trace server_ip v₁ rs as' v₂
      → Trace server_ip v ((now, r) ∷ rs) (a ∷ as') v₂
