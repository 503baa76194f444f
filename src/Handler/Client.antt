-- ===== src/Handler/Client.antt =====
-- `handle_client_packet` of src/lib/packet_handler.c.
use benker_vpn.Base.{
  ℕ, ◌+◌, ◌-◌, ◌≤◌, ◌<◌, ◌≡◌, ap, ◌∙◌, true, false, arith, ltb, Returns, returns, Returns-value,
  Bool-cases, inl, inr,
}
use benker_vpn.Packet.{Buffer, IsBytes, saddr, source, ip_header_len}
use benker_vpn.Validate.{validate_ip_tcp}
use benker_vpn.Reset.Laws.{IsReset, fillin_reset-IsReset}
use benker_vpn.Reset.{fillin_reset}
use benker_vpn.Rewrite.{replace_src_ip_port}
use benker_vpn.Session.{Session, Ptr, Memory, Clock, Table, store}
use benker_vpn.Session.Search.{load-ok}
use benker_vpn.Session.Valid.{IsValid}
use benker_vpn.Session.Clean.{later}
use benker_vpn.Session.Add.{IsClient, NoClient}
use benker_vpn.Session.Lookup.{Held, held, not_held, Held-cases, add_tcp_session-Held, found_cases}
use benker_vpn.Handler.{
  Reply, valid_session, invalid_session, segment_of, client_flags, client_session,
  handle_client_packet, refuse, default_timeout,
}
use benker_vpn.Handler.Store.{
  SameKeys, store-calls, store_self, listed-store, store-IsValid, later-IsValid,
  session_expired-run, live_of_listed,
}

pub refuse-IsReset :
    (b : Buffer) → IsBytes b → (r : Buffer) × (refuse b ≡ invalid_session r 40) × IsReset b r
unfolding refuse
refuse-IsReset b h =
    let (is, size) = fillin_reset-IsReset b h in
    ((fillin_reset b).0, ap (λ n. invalid_session (fillin_reset b).0 n) size, is)

pub client_flags-SameKeys : (s : Session) (b : Buffer) → SameKeys s (client_flags s (segment_of b))
unfolding client_flags
client_flags-SameKeys s b = ground arith

pub client_session-Held :
    (clock : Clock) (count : ℕ) (m : Memory) (t : Table) (b : Buffer)
    → IsValid m t
    → Returns (Held (saddr b) (source b (ip_header_len b))) (client_session clock count m t b)
unfolding client_session
client_session-Held clock count m t b v =
    let ip = saddr b in
    let port = source b (ip_header_len b) in
    elim (Bool-cases (segment_of b).is_syn) [
      | inl syn ↦ rw syn (add_tcp_session-Held clock count m t ip port default_timeout v)
      | inr other ↦ rw other (elim (found_cases ip port v) [
        | inl (p, run, c) ↦ rw run (returns (held p v c))
        | inr (n, run) ↦ rw run (returns (not_held v n))
      ])
    ]

-- The four ways in which the handler returns.
pub data ClientOutcome (clock : Clock) (m : Memory) (t : Table) (b : Buffer) (len vpn_server_ip : ℕ)
    : Reply × Memory × Table → Type 0 where
  bad_packet :
      {r : Buffer}
      → validate_ip_tcp b len ≡ false
      → IsReset b r
      → ClientOutcome clock m t b len vpn_server_ip (invalid_session r 40, m, t)
  no_session :
      {r : Buffer} {m' : Memory} {t' : Table}
      → validate_ip_tcp b len ≡ true
      → NoClient m' t' (saddr b) (source b (ip_header_len b))
      → IsReset b r
      → ClientOutcome clock m t b len vpn_server_ip (invalid_session r 40, m', t')
  too_late :
      {r : Buffer} {m' : Memory} {t' : Table} (p : Ptr)
      → validate_ip_tcp b len ≡ true
      → IsClient m' t' (saddr b) (source b (ip_header_len b)) p
      → (m'.cell p).expire < clock (m'.calls - 1)
      → IsReset b r
      → ClientOutcome clock m t b len vpn_server_ip (invalid_session r 40, m', t')
  forwarded :
      {r : Buffer} {m' : Memory} {t' : Table} (p : Ptr)
      → validate_ip_tcp b len ≡ true
      → IsClient m' t' (saddr b) (source b (ip_header_len b)) p
      → clock (m'.calls - 1) ≤ (m'.cell p).expire
      → r ≡ replace_src_ip_port b vpn_server_ip (m'.cell p).server_port
      → ClientOutcome clock m t b len vpn_server_ip (valid_session r, m', t')

-- The session is written back as the flags of the packet left it.
module _ (clock : Clock) (m : Memory) (t₀ : Table) (m₁ : Memory) (t₁ : Table) (b : Buffer)
    (len vpn_server_ip : ℕ) (p : Ptr) (good : validate_ip_tcp b len ≡ true) (v₁ : IsValid m₁ t₁)
    (c : IsClient m₁ t₁ (saddr b) (source b (ip_header_len b)) p) where
  abbrev after : Session
  after = client_flags (m₁.cell p) (segment_of b)

  abbrev clocked : Memory
  clocked = later m₁ (m₁.calls + 1)

  after-SameKeys : SameKeys (m₁.cell p) after
  after-SameKeys = client_flags-SameKeys (m₁.cell p) b

  written-IsValid : IsValid (store clocked p after) t₁
  written-IsValid =
      store-IsValid clocked t₁ p after after-SameKeys (later-IsValid (m₁.calls + 1) v₁)

  written-late :
      {r : Buffer}
      → IsReset b r
      → (m₁.cell p).expire < clock m₁.calls
      → ClientOutcome clock m t₀ b len vpn_server_ip (invalid_session r 40, clocked, t₁)
  written-late reset late =
      let when : clocked.calls - 1 ≡ m₁.calls = omega arith in
      too_late p good
        (record { in_table = c.in_table; same_ip = c.same_ip; same_port = c.same_port })
        (rw when late) reset

  written-forwarded :
      clock m₁.calls ≤ (m₁.cell p).expire
      → ClientOutcome clock m t₀ b len vpn_server_ip (
        valid_session (replace_src_ip_port b vpn_server_ip after.server_port),
        store clocked p after,
        t₁,
      )
  written-forwarded early =
      let k = after-SameKeys in
      let self = store_self clocked p after in
      let m' = store clocked p after in
      let when : m'.calls - 1 ≡ m₁.calls = omega (arith, store-calls clocked p after) in
      let expire : (m'.cell p).expire ≡ (m₁.cell p).expire =
        ap (λ (x : Session). x.expire) self ∙ k.same_expire in
      forwarded p good
        (record {
          in_table = listed-store clocked t₁ p after k p ∙ c.in_table;
          same_ip = rw self (k.ip ∙ c.same_ip);
          same_port = rw self (k.port ∙ c.same_port);
        })
        (rw (when, expire) early) (rw self)

module _ (clock : Clock) (count : ℕ) (m : Memory) (t : Table) (b : Buffer) (len vpn_server_ip : ℕ)
    (h : IsBytes b) (v : IsValid m t) where
  -- On a buffer of bytes and a well formed table `handle_client_packet` does not fault and leaves a
  -- well formed table. It refuses with a reset packet of 40 bytes if the packet is not valid (and
  -- then changes nothing), if the client has no session afterwards, or if its session has expired;
  -- else it forwards the packet under the port of the client's session.
  pub handle_client_packet-Outcome :
      Returns
        (λ r. IsValid r.1 r.2 × ClientOutcome clock m t b len vpn_server_ip r)
        (handle_client_packet clock count m t b len vpn_server_ip)
  unfolding handle_client_packet
  handle_client_packet-Outcome =
      let (r, refused, reset) = refuse-IsReset b h in
      elim (Bool-cases (validate_ip_tcp b len)) [
        | inr bad ↦ rw (bad, refused) (returns (v, bad_packet bad reset))
        | inl good ↦
            let (found, run, got) = Returns-value (client_session-Held clock count m t b v) in
            elim (Held-cases got) [
              | inr (m₁, t₁, e, v₁, n) ↦
                  rw (good, run, e, refused) (returns (v₁, no_session good n reset))
              | inl (p, m₁, t₁, e, v₁, c) ↦
                  let dead = session_expired-run clock m₁ p (live_of_listed v₁ p c.in_table) in
                  let here = load-ok (later m₁ (m₁.calls + 1)) p (live_of_listed v₁ p c.in_table) in
                  rw (good, run, e, dead)
                    (elim (Bool-cases (ltb (m₁.cell p).expire (clock m₁.calls))) [
                      | inl late ↦
                          rw (late, refused)
                            (returns (
                              later-IsValid (m₁.calls + 1) v₁,
                              written-late clock m t m₁ t₁ b len vpn_server_ip p good v₁ c reset
                                  (ground arith),
                            ))
                      | inr early ↦
                          rw (early, here)
                            (returns (
                              written-IsValid clock m t m₁ t₁ b len vpn_server_ip p good v₁ c,
                              written-forwarded clock m t m₁ t₁ b len vpn_server_ip p good v₁ c
                                  (ground arith),
                            ))
                    ])
            ]
      ]
