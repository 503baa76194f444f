-- ===== src/Handler/Served.antt =====
-- Which packets of a client src/lib/packet_handler.c is bound to send on.
use benker_vpn.Base.{
  ℕ, u32, ◌+◌, ◌^◌, ◌≤◌, ◌<◌, ◌≡◌, refl, ap, true, false, arith, ltb, some, Option, ok, Returns,
  returns, Returns-value, int_zero,
}
use benker_vpn.Packet.{Buffer, saddr, source, ip_header_len}
use benker_vpn.Validate.{validate_ip_tcp}
use benker_vpn.Rewrite.{replace_src_ip_port}
use benker_vpn.Session.{Session, Ptr, Memory, Clock, Table, add_tcp_session}
use benker_vpn.Session.Search.{load-ok}
use benker_vpn.Session.Valid.{IsValid, listed, IsFree, server_home, renumber-IsValid}
use benker_vpn.Session.Clean.{later}
use benker_vpn.Session.Port.{candidate, advance}
use benker_vpn.Session.Add.{
  IsClient, NoClient, Added, existing, full, created, add_tcp_session-Added, new_cell, listed_new,
  fresh_session, memory_with,
}
use benker_vpn.Session.Lookup.{created-IsValid}
use benker_vpn.Session.Lookup.Full.{add_tcp_session-none}
use benker_vpn.Handler.{
  Reply, valid_session, segment_of, client_session, handle_client_packet, default_timeout,
}
use benker_vpn.Handler.Expired.{client_session-existing}
use benker_vpn.Handler.Client.{client_flags-SameKeys}
use benker_vpn.Handler.Store.{session_expired-run}

-- The client has a session that has not expired; or it opens one, a port of the range is free, the
-- count of `add_tcp_session` starts at 0 or less and `next_num` does not wrap in the search.
pub data CanPass (now count : ℕ) (m : Memory) (t : Table) (b : Buffer) : Type 0 where
  has_session :
      (p : Ptr)
      → IsClient m t (saddr b) (source b (ip_header_len b)) p
      → now ≤ (m.cell p).expire
      → CanPass now count m t b
  can_open :
      (n : ℕ)
      → (segment_of b).is_syn ≡ true
      → NoClient m t (saddr b) (source b (ip_header_len b))
      → IsFree m t n
      → t.min_port ≤ n
      → n < t.min_port + t.mod_num
      → count ≤ int_zero
      → t.next_num + t.mod_num < 2 ^ 32
      → CanPass now count m t b

-- The packet is sent on under a port of the table's range.
abbrev pub IsPassed : Table → (server_ip : ℕ) → Buffer → Reply × Memory × Table → Type 0
IsPassed t server_ip b (reply, m', t') =
    (n : ℕ) × (reply ≡ valid_session (replace_src_ip_port b server_ip n))
    × (t.min_port ≤ n)
    × (n < t.min_port + t.mod_num)

-- A session that is found and has not expired lets the packet pass.
data Opened (now : ℕ) (t : Table) : Option Ptr × Memory × Table → Type 0 where
  opened :
      {m' : Memory} {t' : Table} (p : Ptr)
      → IsValid m' t'
      → listed m' t' p ≡ true
      → now ≤ (m'.cell p).expire
      → t'.min_port ≡ t.min_port
      → t'.mod_num ≡ t.mod_num
      → Opened now t (some p, m', t')

module _ (clock : Clock) (now : ℕ) (still : (n : ℕ) → clock n ≡ now) (count : ℕ) (m : Memory)
    (t : Table) (b : Buffer) (v : IsValid m t) where
  added-Opened :
      (n : ℕ)
      → NoClient m t (saddr b) (source b (ip_header_len b))
      → IsFree m t n
      → t.min_port ≤ n
      → n < t.min_port + t.mod_num
      → count ≤ int_zero
      → t.next_num + t.mod_num < 2 ^ 32
      → (r : Option Ptr × Memory × Table)
      → add_tcp_session clock count m t (saddr b) (source b (ip_header_len b)) default_timeout
        ≡ ok r
      → Added clock count m t (saddr b) (source b (ip_header_len b)) default_timeout r
      → Opened now t r
  added-Opened n none_such unused low high at_most no_wrap r run (existing p c) =
      absurd (none_such p c.in_table c.same_ip c.same_port)
  added-Opened n none_such unused low high at_most no_wrap r run (full k none_here over all) =
      let (p, l, at) =
        add_tcp_session-none m t v no_wrap clock count _ _ default_timeout _ _ at_most run n low
          high in
      absurd (unused p l at)
  added-Opened n none_such unused low high at_most no_wrap r run
        (created k none_here is_free before) =
      let ip = saddr b in
      let port = source b (ip_header_len b) in
      let s = fresh_session clock m ip port (candidate t k) default_timeout in
      let v₁ = renumber-IsValid (u32 (t.next_num + (k + 1))) (omega arith) v in
      let expire : ((memory_with m s).cell m.next).expire ≡ clock m.calls + default_timeout =
        ap (λ (x : Session). x.expire) (new_cell m s) in
      opened m.next (created-IsValid clock count m t ip port default_timeout v k none_such is_free)
        (ground (arith, listed_new m (advance t (k + 1)) s v₁ m.next))
        (omega (arith, still m.calls, expire)) refl refl

  client_session-Opened :
      CanPass now count m t b → Returns (Opened now t) (client_session clock count m t b)
  unfolding client_session
  client_session-Opened (has_session p c early) =
      rw (client_session-existing clock count b v c)
        (returns (opened p v c.in_table early refl refl))
  client_session-Opened (can_open n syn none_such unused low high at_most no_wrap) =
      let (r, run, a) = Returns-value (
        add_tcp_session-Added clock m t (saddr b) (source b (ip_header_len b)) default_timeout count
          v) in
      rw (syn, run) (returns (added-Opened n none_such unused low high at_most no_wrap r run a))

Opened-cases :
    {now : ℕ} {t : Table} {r : Option Ptr × Memory × Table}
    → Opened now t r
    → (p : Ptr) × (m' : Memory) × (t' : Table) × (r ≡ (some p, m', t'))
      × IsValid m' t'
      × (listed m' t' p ≡ true)
      × (now ≤ (m'.cell p).expire)
      × (t'.min_port ≡ t.min_port)
      × (t'.mod_num ≡ t.mod_num)
Opened-cases (opened {m'} {t'} p v l early low width) = (p, m', t', refl, v, l, early, low, width)

-- While `time(NULL)` returns one value, `handle_client_packet` on a well formed table sends on, under
-- a port of the table's range, every valid packet of a client that has a session which has not
-- expired, and every valid `SYN` of a client without a session while a port of the range is free, if
-- the count of `add_tcp_session` holds 0 or less on entry and `next_num` does not wrap in the search.
pub handle_client_packet-IsPassed :
    (clock : Clock) (now : ℕ) (still : (n : ℕ) → clock n ≡ now) (count : ℕ) (m : Memory) (t : Table)
    (b : Buffer) (len vpn_server_ip : ℕ)
    → IsValid m t
    → validate_ip_tcp b len ≡ true
    → CanPass now count m t b
    → Returns
        (IsPassed t vpn_server_ip b)
        (handle_client_packet clock count m t b len vpn_server_ip)
unfolding handle_client_packet
handle_client_packet-IsPassed clock now still count m t b len vpn_server_ip v good can =
    let (r, run, o) = Returns-value (client_session-Opened clock now still count m t b v can) in
    let (p, m₁, t₁, e, v₁, l, early, low, width) = Opened-cases o in
    let alive : ltb (m₁.cell p).expire (clock m₁.calls) ≡ false = ground (arith, still m₁.calls) in
    let (home, other, live, above, below) = v₁.servers (server_home m₁ t₁ p) p l in
    rw
      (
        good,
        run,
        e,
        session_expired-run clock m₁ p live,
        alive,
        load-ok (later m₁ (m₁.calls + 1)) p live,
      )
      (returns (
        (m₁.cell p).server_port,
        ap (λ n. valid_session (replace_src_ip_port b vpn_server_ip n))
            (client_flags-SameKeys (m₁.cell p) b).server,
        omega arith,
        omega arith,
      ))
