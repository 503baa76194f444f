-- ===== src/Handler/Expired.antt =====
-- A session that has expired, in src/lib/packet_handler.c and src/lib/session_struct.c.
use benker_vpn.Base.{ℕ, ◌+◌, ◌<◌, ◌≡◌, refl, true, arith, ltb, some, ok, Bool-cases, inl, inr}
use benker_vpn.Packet.{Buffer, saddr, source, ip_header_len}
use benker_vpn.Validate.{validate_ip_tcp}
use benker_vpn.Session.{Ptr, Memory, Clock, Table}
use benker_vpn.Session.Valid.{IsValid}
use benker_vpn.Session.Clean.{later}
use benker_vpn.Session.Add.{IsClient}
use benker_vpn.Session.Lookup.{get_by_client-ok, add_tcp_session-existing}
use benker_vpn.Handler.{segment_of, client_session, handle_client_packet, refuse, default_timeout}
use benker_vpn.Handler.Store.{session_expired-run, live_of_listed}

pub client_session-existing :
    (clock : Clock) (count : ℕ) {m : Memory} {t : Table} (b : Buffer) {p : Ptr}
    → IsValid m t
    → IsClient m t (saddr b) (source b (ip_header_len b)) p
    → client_session clock count m t b ≡ ok (some p, m, t)
unfolding client_session
client_session-existing clock count {m} {t} b v c = elim (Bool-cases (segment_of b).is_syn) [
  | inl syn ↦ rw (syn, add_tcp_session-existing clock count default_timeout v c)
  | inr other ↦ rw (other, get_by_client-ok v c)
]

-- Once the session of a client has expired, `handle_client_packet` refuses every valid packet of that
-- client, a `SYN` as well, and changes neither the table nor a session: it never takes the
-- session out or renews it.
pub handle_client_packet-expired :
    (clock : Clock) (count : ℕ) (m : Memory) (t : Table) (b : Buffer) (len vpn_server_ip : ℕ)
    (p : Ptr)
    → IsValid m t
    → validate_ip_tcp b len ≡ true
    → IsClient m t (saddr b) (source b (ip_header_len b)) p
    → (m.cell p).expire < clock m.calls
    → handle_client_packet clock count m t b len vpn_server_ip
      ≡ ok (refuse b, later m (m.calls + 1), t)
unfolding handle_client_packet
handle_client_packet-expired clock count m t b len vpn_server_ip p v good c late =
    let dead : ltb (m.cell p).expire (clock m.calls) ≡ true = ground arith in
    rw
      (
        good,
        client_session-existing clock count b v c,
        session_expired-run clock m p (live_of_listed v p c.in_table),
        dead,
      )
      refl
