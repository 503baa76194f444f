-- ===== src/Session/Safe.antt =====
-- What the operations of src/lib/session_struct.c need so as not to fault, whatever the clock says.
-- While `clean_expired_session` runs a session can expire, and then only one of the two lists loses it.
pub mod Part
pub mod Clean
use benker_vpn.Base.{
  ℕ, zero, suc, ◌+◌, ◌-◌, ◌%◌, ◌<◌, ◌≤◌, ◌≡◌, refl, Bool, true, false, ◌||◌, ltb, arith, Option,
  none, some, Run, ok, Returns, ◌==◌, Bool-cases, Option-cases, returns, inl, inr, u32, u16,
  int_zero,
}
use benker_vpn.Session.{
  Session, Ptr, Memory, Clock, Table, alloc, claim_port, claim_fuel, new_session, add_tcp_session,
  get_tcp_session_by_client, get_tcp_session_by_server, init_hash_table,
}
use benker_vpn.Session.Search.{
  AllLive, Distinct, has, Searched, found, absent, search_by_client-Searched,
  search_by_server-Searched,
}
use benker_vpn.Session.Valid.{IsValid, listed, server_home, client_hash, server_hash}
use benker_vpn.Session.Add.Insert.{memory_with, table_with, has-insert_at, Distinct-insert_at}
use benker_vpn.Session.Add.{fresh_session}
use benker_vpn.Session.Port.{rem-ok}

-- The sessions of both arrays are allocated, and each one stands once in the server's lists, in the one
-- of its port. A list of the client may hold sessions that no list of the server holds, and the other
-- way round.
pub record IsSafe (m : Memory) (c : Table) : Type 0 where
  pub len_pos : 0 < c.len
  pub mod_pos : 0 < c.mod_num
  pub fresh : (p : Ptr) → m.live p ≡ true → p < m.next
  pub clients_live : (i : ℕ) → AllLive m (c.list_client_key i)
  pub servers_live : (i : ℕ) → AllLive m (c.list_server_key i)
  pub server_once : (i : ℕ) → Distinct (c.list_server_key i)
  pub at_home : (i : ℕ) (p : Ptr) → has p (c.list_server_key i) ≡ true → server_home m c p ≡ i

pub IsValid-IsSafe : {m : Memory} {c : Table} → IsValid m c → IsSafe m c
IsValid-IsSafe {m} {c} v = record {
  len_pos = v.len_pos;
  mod_pos = v.mod_pos;
  fresh = v.fresh;
  clients_live = λ i p h. ground (arith, v.clients i p, v.servers (server_home m c p) p);
  servers_live = λ i p h. ground (arith, v.servers i p);
  server_once = v.server_once;
  at_home = λ i p h. ground (arith, v.servers i p);
}

pub renumber-IsSafe :
    {m : Memory} {c : Table} (n : ℕ) → IsSafe m c → IsSafe m (record c { next_num = n })
renumber-IsSafe n v = record {
  len_pos = v.len_pos;
  mod_pos = v.mod_pos;
  fresh = v.fresh;
  clients_live = v.clients_live;
  servers_live = v.servers_live;
  server_once = v.server_once;
  at_home = v.at_home;
}

pub init_hash_table-IsSafe :
    (m : Memory) (num_entry min_port max_port : ℕ)
    → ((p : Ptr) → m.live p ≡ true → p < m.next)
    → 0 < num_entry
    → min_port ≤ max_port
    → max_port < 65536
    → max_port - min_port < 65535
    → IsSafe m (init_hash_table num_entry min_port max_port)
unfolding init_hash_table
init_hash_table-IsSafe m num_entry min_port max_port fresh pos order top room = record {
  len_pos = pos;
  mod_pos = omega arith;
  fresh = fresh;
  clients_live = λ i p h. cc;
  servers_live = λ i p h. cc;
  server_once = λ i. tt;
  at_home = λ i p h. cc;
}

module _ (m : Memory) (c : Table) (s : Session) (v : IsSafe m c) where
  next_client : (i : ℕ) → has m.next (c.list_client_key i) ≡ false
  next_client i = ground (arith, v.clients_live i m.next, v.fresh m.next)

  next_server : (i : ℕ) → has m.next (c.list_server_key i) ≡ false
  next_server i = ground (arith, v.servers_live i m.next, v.fresh m.next)

  -- A new session in both lists.
  pub with-IsSafe : IsSafe (memory_with m s) (table_with m c s)
  unfolding alloc
  with-IsSafe = record {
    len_pos = v.len_pos;
    mod_pos = v.mod_pos;
    fresh = λ p h. ground (arith, v.fresh p);
    clients_live = λ i p h. ground (
      arith,
      v.clients_live i p,
      has-insert_at c.list_client_key (client_hash c s.client_ip s.client_port) i m.next p,
    );
    servers_live = λ i p h. ground (
      arith,
      v.servers_live i p,
      has-insert_at c.list_server_key (server_hash c s.server_port) i m.next p,
    );
    server_once =
        let home = server_hash c s.server_port in
        λ i. Distinct-insert_at c.list_server_key home i m.next (next_server home) v.server_once;
    at_home = λ i p h. ground (
      arith,
      v.at_home i p,
      next_server i,
      has-insert_at c.list_server_key (server_hash c s.server_port) i m.next p,
    );
  }

  -- The new session is in a list of the server, and nothing else is new.
  pub listed_with :
      (p : Ptr) → listed (memory_with m s) (table_with m c s) p ≡ (listed m c p || (m.next == p))
  unfolding alloc
  listed_with p = ground (
    arith,
    next_server (server_home m c p),
    has-insert_at c.list_server_key (server_hash c s.server_port) (server_home m c p) m.next p,
    has-insert_at c.list_server_key (server_hash c s.server_port) (server_hash c s.server_port)
        m.next p,
    next_server (server_hash c s.server_port),
  )

-- A search through allocated sessions does not fault.
Searched-run :
    {test : Ptr → Bool} {ps : _} {r : Run (Option Ptr)}
    → Searched test ps r
    → (o : Option Ptr) × (r ≡ ok o)
Searched-run (found p i h) = (some p, refl)
Searched-run (absent h) = (none, refl)

module _ {m : Memory} {c : Table} (v : IsSafe m c) where
  pub get_by_client-run :
      (ip port : ℕ) → (o : Option Ptr) × (get_tcp_session_by_client m c ip port ≡ ok o)
  unfolding get_tcp_session_by_client
  get_by_client-run ip port =
      let i = client_hash c ip port in
      let (o, run) =
        Searched-run
          (search_by_client-Searched m (c.list_client_key i) ip port (v.clients_live i)) in
      (o, rw (rem-ok (u32 (ip + port)) c.len v.len_pos) run)

  pub get_by_server-run :
      (port : ℕ) → (o : Option Ptr) × (get_tcp_session_by_server m c port ≡ ok o)
  unfolding get_tcp_session_by_server
  get_by_server-run port =
      let i = server_hash c port in
      let (o, run) =
        Searched-run (search_by_server-Searched m (c.list_server_key i) port (v.servers_live i)) in
      (o, rw (rem-ok port c.len v.len_pos) run)

-- The search for a port ends, and moves `next_num` on.
claim_port-ends :
    (m : Memory) (rounds count : ℕ) (c : Table)
    → IsSafe m c
    → 0 < rounds
    → c.mod_num + int_zero < count + rounds
    → (o : Option ℕ) × (n : ℕ) × (claim_port m rounds count c ≡ ok (o, record c { next_num = n }))
unfolding claim_port
claim_port-ends m zero count c v some_round enough = absurd (omega arith)
claim_port-ends m (suc rounds) count c v some_round enough =
    let port = u16 (c.next_num % c.mod_num + c.min_port) in
    let i = server_hash c port in
    let (o, run) =
      Searched-run (search_by_server-Searched m (c.list_server_key i) port (v.servers_live i)) in
    let next = u32 (c.next_num + 1) in
    let whole = rem-ok c.next_num c.mod_num v.mod_pos in
    let list = rem-ok port c.len v.len_pos in
    elim (Option-cases o) [
      | inl e ↦ (some port, next, rw (whole, list, run, e) refl)
      | inr (p, e) ↦ elim (Bool-cases (ltb (c.mod_num + int_zero) (count + 1))) [
        | inl full ↦ (none, next, rw (whole, list, run, e, full) refl)
        | inr more ↦
            let (o', n, run') =
              claim_port-ends m rounds (count + 1) (record c { next_num = next })
                (renumber-IsSafe next v) (ground arith) (ground arith) in
            (o', n, rw (whole, list, run, e, more) run')
      ]
    ]

-- What `add_tcp_session` leaves: nothing new, or one new session in both lists.
pub data Extends (clock : Clock) (m : Memory) (c : Table)
    : Option Ptr × Memory × Table → Type 0 where
  unchanged : (o : Option Ptr) (n : ℕ) → Extends clock m c (o, m, record c { next_num = n })
  extended :
      (n : ℕ) (s : Session)
      → Extends clock m c (some m.next, memory_with m s, table_with m (record c { next_num = n }) s)

pub add_tcp_session-Extends :
    (clock : Clock) (count : ℕ) (m : Memory) (c : Table) (ip client_port timeout : ℕ)
    → IsSafe m c
    → Returns (Extends clock m c) (add_tcp_session clock count m c ip client_port timeout)
unfolding add_tcp_session claim_fuel new_session
add_tcp_session-Extends clock count m c ip client_port timeout v =
    let i = client_hash c ip client_port in
    let (o, run) =
      Searched-run
        (search_by_client-Searched m (c.list_client_key i) ip client_port (v.clients_live i)) in
    rw (rem-ok (u32 (ip + client_port)) c.len v.len_pos, run)
      (elim (Option-cases o) [
        | inr (p, e) ↦ rw e (returns (unchanged (some p) c.next_num))
        | inl e ↦ rw e (
            let (o', n, run') =
              claim_port-ends m (claim_fuel c count) count c v (omega arith) (omega arith) in
            rw run' (elim (Option-cases o') [
              | inl none_free ↦ rw none_free (returns (unchanged none n))
              | inr (port, free) ↦
                  rw (free, rem-ok port c.len v.len_pos)
                    (returns (extended n (fresh_session clock m ip client_port port timeout)))
            ]))
      ])
