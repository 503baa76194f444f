-- ===== src/Session/Add/Insert.antt =====
-- The table after a session has been put at the end of both chains, in src/lib/session_struct.c.
use benker_vpn.Base.{
  ℕ, ◌+◌, ◌≤◌, ◌<◌, ◌≡◌, ◌≢◌, true, false, ◌&&◌, ◌||◌, arith, ◌==◌, Bool-cases, inl, inr,
}
use benker_vpn.Session.{Session, Ptr, Memory, Chain, Table, alloc, update, insert_tcp_session}
use benker_vpn.Session.Search.{has, Distinct, has-insert_tcp_session, Distinct-insert_tcp_session}
use benker_vpn.Session.Valid.{
  IsValid, listed, client_home, server_home, client_hash, server_hash, IsFree,
}

abbrev pub insert_at : (ℕ → Chain) → ℕ → Ptr → ℕ → Chain
insert_at a home p = update a home (insert_tcp_session (a home) p)

pub has-insert_at :
    (a : ℕ → Chain) (home i : ℕ) (p q : Ptr)
    → has q (insert_at a home p i) ≡ (has q (a i) || ((home == i) && (q == p)))
has-insert_at a home i p q = ground (arith, has-insert_tcp_session q p (a home))

pub Distinct-insert_at :
    (a : ℕ → Chain) (home i : ℕ) (p : Ptr)
    → has p (a home) ≡ false
    → ((j : ℕ) → Distinct (a j))
    → Distinct (insert_at a home p i)
Distinct-insert_at a home i p new d = elim (Bool-cases (home == i)) [
  | inl here ↦ rw here (Distinct-insert_tcp_session p (a home) new (d home))
  | inr away ↦ rw away (d i)
]

-- No session of the table has this client address and port.
abbrev pub NoClient : Memory → Table → ℕ → ℕ → Type 0
NoClient m t ip port =
    (p : Ptr) → listed m t p ≡ true → (m.cell p).client_ip ≡ ip → (m.cell p).client_port ≢ port

abbrev pub memory_with : Memory → Session → Memory
memory_with m s = record (alloc m s) { calls = m.calls + 1 }

abbrev pub table_with : Memory → Table → Session → Table
table_with m t s = record t {
  list_client_key = insert_at t.list_client_key (client_hash t s.client_ip s.client_port) m.next;
  list_server_key = insert_at t.list_server_key (server_hash t s.server_port) m.next;
}

pub new_cell : (m : Memory) (s : Session) → (memory_with m s).cell m.next ≡ s
unfolding alloc
new_cell m s = ground arith

module _ (m : Memory) (t : Table) (s : Session) (v : IsValid m t) where
  next-not-server : (i : ℕ) → has m.next (t.list_server_key i) ≡ false
  next-not-server i = ground (arith, v.servers i m.next, v.fresh m.next)

  next-not-client : (i : ℕ) → has m.next (t.list_client_key i) ≡ false
  next-not-client i = ground (arith, v.clients i m.next, next-not-server (server_home m t m.next))

  -- The sessions of the table keep their contents and their places.
  pub kept :
      (p : Ptr)
      → listed m t p ≡ true
      → ((memory_with m s).cell p ≡ m.cell p)
        × (listed (memory_with m s) (table_with m t s) p ≡ true)
  unfolding alloc
  kept p l = ground (
    arith,
    next-not-server (server_home m t p),
    has-insert_at t.list_server_key (server_hash t s.server_port) (server_home m t p) m.next p,
  )

  -- The new session is in the table, and nothing else is new.
  pub listed_new :
      (p : Ptr) → listed (memory_with m s) (table_with m t s) p ≡ (listed m t p || (m.next == p))
  unfolding alloc
  listed_new p = ground (
    arith,
    next-not-server (server_home m t p),
    has-insert_at t.list_server_key (server_hash t s.server_port) (server_home m t p) m.next p,
    has-insert_at t.list_server_key (server_hash t s.server_port) (server_hash t s.server_port)
        m.next p,
    next-not-server (server_hash t s.server_port),
  )

  module _ (absent : NoClient m t s.client_ip s.client_port) (unused : IsFree m t s.server_port)
      (low : t.min_port ≤ s.server_port) (high : s.server_port < t.min_port + t.mod_num) where
    with_clients :
        (i : ℕ) (p : Ptr)
        → has p ((table_with m t s).list_client_key i) ≡ true
        → (client_home (memory_with m s) (table_with m t s) p ≡ i)
          × (listed (memory_with m s) (table_with m t s) p ≡ true)
    unfolding alloc
    with_clients i p h = ground (
      arith,
      v.clients i p,
      listed_new p,
      next-not-client i,
      has-insert_at t.list_client_key (client_hash t s.client_ip s.client_port) i m.next p,
    )

    with_servers :
        (i : ℕ) (p : Ptr)
        → has p ((table_with m t s).list_server_key i) ≡ true
        → (server_home (memory_with m s) (table_with m t s) p ≡ i)
          × (has p (
                (table_with m t s).list_client_key
                  (client_home (memory_with m s) (table_with m t s) p))
              ≡ true)
          × ((memory_with m s).live p ≡ true)
          × (t.min_port ≤ ((memory_with m s).cell p).server_port)
          × (((memory_with m s).cell p).server_port < t.min_port + t.mod_num)
    unfolding alloc
    with_servers i p h = ground (
      arith,
      v.servers i p,
      next-not-server i,
      has-insert_at t.list_server_key (server_hash t s.server_port) i m.next p,
      has-insert_at t.list_client_key (client_hash t s.client_ip s.client_port) (client_home m t p)
          m.next p,
      has-insert_at t.list_client_key (client_hash t s.client_ip s.client_port)
          (client_hash t s.client_ip s.client_port) m.next p,
    )

    with_client_key :
        (p q : Ptr)
        → listed (memory_with m s) (table_with m t s) p ≡ true
        → listed (memory_with m s) (table_with m t s) q ≡ true
        → ((memory_with m s).cell p).client_ip ≡ ((memory_with m s).cell q).client_ip
        → ((memory_with m s).cell p).client_port ≡ ((memory_with m s).cell q).client_port
        → p ≡ q
    with_client_key p q hp hq e f = ground (
      arith,
      listed_new p,
      listed_new q,
      kept p,
      kept q,
      new_cell m s,
      absent p,
      absent q,
      v.client_key p q,
    )

    with_server_key :
        (p q : Ptr)
        → listed (memory_with m s) (table_with m t s) p ≡ true
        → listed (memory_with m s) (table_with m t s) q ≡ true
        → ((memory_with m s).cell p).server_port ≡ ((memory_with m s).cell q).server_port
        → p ≡ q
    with_server_key p q hp hq e = ground (
      arith,
      listed_new p,
      listed_new q,
      kept p,
      kept q,
      new_cell m s,
      unused p,
      unused q,
      v.server_key p q,
    )

    pub with-IsValid : IsValid (memory_with m s) (table_with m t s)
    unfolding alloc
    with-IsValid = record {
      len_pos = v.len_pos;
      mod_pos = v.mod_pos;
      ports_fit = v.ports_fit;
      next_fits = v.next_fits;
      fresh = λ p h. ground (arith, v.fresh p);
      clients = with_clients;
      servers = with_servers;
      client_once = λ i.
          Distinct-insert_at t.list_client_key (client_hash t s.client_ip s.client_port) i m.next
            (next-not-client (client_hash t s.client_ip s.client_port)) v.client_once;
      server_once = λ i.
          Distinct-insert_at t.list_server_key (server_hash t s.server_port) i m.next
            (next-not-server (server_hash t s.server_port)) v.server_once;
      client_key = with_client_key;
      server_key = with_server_key;
    }
