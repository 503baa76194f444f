-- ===== src/Handler/World.antt =====
-- `handle_world_packet` of src/lib/packet_handler.c.
use benker_vpn.Base.{
  ℕ, ◌+◌, ◌≤◌, ◌<◌, ◌≡◌, true, false, arith, ltb, Returns, returns, Bool-cases, inl, inr,
}
use benker_vpn.Packet.{Buffer, IsBytes, dest, ip_header_len}
use benker_vpn.Validate.{validate_ip_tcp}
use benker_vpn.Reset.Laws.{IsReset}
use benker_vpn.Rewrite.{replace_dst_ip_port}
use benker_vpn.Session.{Session, Ptr, Memory, Clock, Table, store}
use benker_vpn.Session.Search.{load-ok}
use benker_vpn.Session.Valid.{IsValid, listed, IsFree}
use benker_vpn.Session.Clean.{later}
use benker_vpn.Session.Lookup.{get_by_server-cases}
use benker_vpn.Handler.{
  Reply, valid_session, invalid_session, segment_of, world_flags, handle_world_packet,
}
use benker_vpn.Handler.Client.{refuse-IsReset}
use benker_vpn.Handler.Store.{
  SameKeys, store-IsValid, later-IsValid, session_expired-run, live_of_listed,
}

pub world_flags-SameKeys : (s : Session) (b : Buffer) → SameKeys s (world_flags s (segment_of b))
unfolding world_flags
world_flags-SameKeys s b = ground arith

-- The session with the port to which the packet was sent.
pub record IsServer (m : Memory) (t : Table) (port : ℕ) (p : Ptr) : Type 0 where
  pub in_table : listed m t p ≡ true
  pub same_port : (m.cell p).server_port ≡ port

abbrev pub ticked : Memory → Memory
ticked m = later m (m.calls + 1)

-- The memory after the session has been written back.
abbrev pub written : Memory → Ptr → Buffer → Memory
written m p b = store (ticked m) p (world_flags (m.cell p) (segment_of b))

-- The four ways in which the handler returns.
pub data WorldOutcome (clock : Clock) (m : Memory) (t : Table) (b : Buffer) (len client_ip : ℕ)
    : Reply × ℕ × Memory → Type 0 where
  bad_packet :
      {r : Buffer}
      → validate_ip_tcp b len ≡ false
      → IsReset b r
      → WorldOutcome clock m t b len client_ip (invalid_session r 40, client_ip, m)
  no_session :
      {r : Buffer}
      → validate_ip_tcp b len ≡ true
      → IsFree m t (dest b (ip_header_len b))
      → IsReset b r
      → WorldOutcome clock m t b len client_ip (invalid_session r 40, client_ip, m)
  too_late :
      {r : Buffer} (p : Ptr)
      → validate_ip_tcp b len ≡ true
      → IsServer m t (dest b (ip_header_len b)) p
      → (m.cell p).expire < clock m.calls
      → IsReset b r
      → WorldOutcome clock m t b len client_ip (invalid_session r 40, client_ip, ticked m)
  delivered :
      (p : Ptr)
      → validate_ip_tcp b len ≡ true
      → IsServer m t (dest b (ip_header_len b)) p
      → clock m.calls ≤ (m.cell p).expire
      → WorldOutcome clock m t b len client_ip (
        valid_session (replace_dst_ip_port b (m.cell p).client_ip (m.cell p).client_port),
        (m.cell p).client_ip,
        written m p b,
      )

module _ (clock : Clock) (m : Memory) (t : Table) (b : Buffer) (len client_ip : ℕ)
    (v : IsValid m t) where
  written-IsValid : (p : Ptr) → IsValid (written m p b) t
  written-IsValid p =
      store-IsValid (ticked m) t p _ (world_flags-SameKeys (m.cell p) b)
        (later-IsValid (m.calls + 1) v)

  written-delivered :
      (p : Ptr)
      → validate_ip_tcp b len ≡ true
      → IsServer m t (dest b (ip_header_len b)) p
      → clock m.calls ≤ (m.cell p).expire
      → let s' = world_flags (m.cell p) (segment_of b) in
        WorldOutcome clock m t b len client_ip (
          valid_session (replace_dst_ip_port b s'.client_ip s'.client_port),
          s'.client_ip,
          written m p b,
        )
  written-delivered p good server early =
      let k = world_flags-SameKeys (m.cell p) b in
      simp (k.ip, k.port) (delivered p good server early)

  -- On a buffer of bytes and a well formed table `handle_world_packet` does not fault and leaves
  -- the table well formed. It refuses with a reset packet of 40 bytes if the packet is not valid,
  -- if no session has the port to which it was sent, or if that session has expired; else it
  -- rewrites the destination to the session's client, reports the client's address, and writes the
  -- session back.
  pub handle_world_packet-Outcome :
      IsBytes b
      → Returns
          (λ r. IsValid r.2 t × WorldOutcome clock m t b len client_ip r)
          (handle_world_packet clock m t b len client_ip)
  unfolding handle_world_packet
  handle_world_packet-Outcome h =
      let (r, refused, reset) = refuse-IsReset b h in
      elim (Bool-cases (validate_ip_tcp b len)) [
        | inr bad ↦ rw (bad, refused) (returns (v, bad_packet bad reset))
        | inl good ↦ elim (get_by_server-cases (dest b (ip_header_len b)) v) [
          | inl (unused, run) ↦ rw (good, run, refused) (returns (v, no_session good unused reset))
          | inr (p, run, l, e) ↦
              let server : IsServer m t (dest b (ip_header_len b)) p = record {
                in_table = l;
                same_port = e;
              } in
              let dead = session_expired-run clock m p (live_of_listed v p l) in
              let here = load-ok (ticked m) p (live_of_listed v p l) in
              rw (good, run, dead)
                (elim (Bool-cases (ltb (m.cell p).expire (clock m.calls))) [
                  | inl late ↦
                      rw (late, refused)
                        (returns (
                          later-IsValid (m.calls + 1) v,
                          too_late p good server (ground arith) reset,
                        ))
                  | inr early ↦
                      rw (early, here)
                        (returns
                          (written-IsValid p, written-delivered p good server (ground arith)))
                ])
        ]
      ]
