-- ===== src/Session/Add.antt =====
-- `add_tcp_session` of src/lib/session_struct.c: what it returns, and the table that it leaves.
pub mod Insert
pub use Insert.{memory_with, table_with, NoClient, new_cell, kept, listed_new, with-IsValid}
use benker_vpn.Base.{
  ℕ, ◌+◌, ◌%◌, ◌^◌, ◌≤◌, ◌<◌, ◌≡◌, ◌≢◌, refl, Bool, true, false, ◌&&◌, ◌||◌, arith, ◌==◌,
  if◌then◌else◌, Option, none, some, Run, ok, Returns, returns, Returns-mono, u32, ◌⊎◌, inl, inr,
  int_zero, Returns-value, Option-cases,
}
use benker_vpn.Session.{
  Session, Ptr, Memory, Chain, Clock, Table, claim_port, claim_fuel, new_session, add_tcp_session,
  search_tcp_session_by_client, rem,
}
use benker_vpn.Session.Search.{has, Searched, found, absent, is_client, search_by_client-Searched}
use benker_vpn.Session.Valid.{
  IsValid, listed, client_home, server_home, client_hash, server_hash, IsFree, Taken,
  renumber-IsValid,
}
use benker_vpn.Session.Port.{rem-ok, candidate, advance, Claims, claim_port-Claims, Claims-cases}

-- The session that the code fills in.
abbrev pub fresh_session :
    Clock → Memory → (client_ip client_port server_port timeout : ℕ) → Session
fresh_session clock m client_ip client_port server_port timeout = record {
  client_ip = client_ip;
  client_port = client_port;
  server_port = server_port;
  client_last_state_seq = 0;
  server_last_state_seq = 0;
  syn_state = 0;
  client_fin_state = 0;
  server_fin_state = 0;
  expire = clock m.calls + timeout;
}

-- The session of the client that the table holds.
pub record IsClient (m : Memory) (t : Table) (ip port : ℕ) (p : Ptr) : Type 0 where
  pub in_table : listed m t p ≡ true
  pub same_ip : (m.cell p).client_ip ≡ ip
  pub same_port : (m.cell p).client_port ≡ port

pub data Looked (m : Memory) (t : Table) (ip port : ℕ) : Run (Option Ptr) → Type 0 where
  known : (p : Ptr) → IsClient m t ip port p → Looked m t ip port (ok (some p))
  unknown : NoClient m t ip port → Looked m t ip port (ok none)

client_chain_live :
    {m : Memory} {t : Table}
    → IsValid m t
    → (i : ℕ) (p : Ptr) → has p (t.list_client_key i) ≡ true
    → m.live p ≡ true
client_chain_live {m} {t} v i p h = ground (arith, v.clients i p, v.servers (server_home m t p) p)

looked :
    {m : Memory} {t : Table} (ip port : ℕ) {r : Run (Option Ptr)}
    → IsValid m t
    → Searched (is_client m ip port) (t.list_client_key (client_hash t ip port)) r
    → Looked m t ip port r
looked {m} {t} ip port v (found p i h) = known p (record {
  in_table = (v.clients (client_hash t ip port) p i).1;
  same_ip = ground arith;
  same_port = ground arith;
})
looked {m} {t} ip port v (absent no_one) = unknown λ p l e f.
    let i = rw (e, f) at (v.servers (server_home m t p) p l).1 in ground (arith, no_one p i)

pub search_by_client-Looked :
    {m : Memory} {t : Table} (ip port : ℕ)
    → IsValid m t
    → Looked m t ip port
        (search_tcp_session_by_client m (t.list_client_key (client_hash t ip port)) ip port)
search_by_client-Looked {m} {t} ip port v = looked ip port v (
    search_by_client-Searched m (t.list_client_key (client_hash t ip port)) ip port
      (client_chain_live v (client_hash t ip port)))

-- The three ways in which the code returns.
pub data Added (clock : Clock) (count : ℕ) (m : Memory) (t : Table) (ip port timeout : ℕ)
    : Option Ptr × Memory × Table → Type 0 where
  existing :
      (p : Ptr) → IsClient m t ip port p → Added clock count m t ip port timeout (some p, m, t)
  full :
      (k : ℕ)
      → NoClient m t ip port
      → t.mod_num + int_zero < count + k + 1
      → ((j : ℕ) → j ≤ k → Taken m t (candidate t j))
      → Added clock count m t ip port timeout (none, m, advance t (k + 1))
  created :
      (k : ℕ)
      → NoClient m t ip port
      → IsFree m t (candidate t k)
      → ((j : ℕ) → j < k → Taken m t (candidate t j))
      → Added clock count m t ip port timeout (
        some m.next,
        memory_with m (fresh_session clock m ip port (candidate t k) timeout),
        table_with m (advance t (k + 1)) (fresh_session clock m ip port (candidate t k) timeout),
      )

pub Looked-cases :
    {m : Memory} {t : Table} {ip port : ℕ} {r : Run (Option Ptr)}
    → Looked m t ip port r
    → ((p : Ptr) × (r ≡ ok (some p)) × IsClient m t ip port p)
      ⊎ (NoClient m t ip port × (r ≡ ok none))
Looked-cases (known p c) = inl (p, refl, c)
Looked-cases (unknown none_such) = inr (none_such, refl)

module _ (clock : Clock) (m : Memory) (t : Table) (ip port timeout : ℕ) where
  new_session-ok :
      (t₁ : Table) (server_port : ℕ)
      → 0 < t₁.len
      → let s = fresh_session clock m ip port server_port timeout in
        new_session clock m t₁ (client_hash t₁ ip port) ip port server_port timeout
        ≡ ok (m.next, memory_with m s, table_with m t₁ s)
  unfolding new_session
  new_session-ok t₁ server_port pos = rw (rem-ok server_port t₁.len pos)

  -- In a well formed table `add_tcp_session` does not fault and its loop ends, whatever `count`
  -- holds on entry. It returns the session that the client has; or a new one, with the first free
  -- candidate for a port; or nothing, when the count has passed `mod_num` and every candidate that
  -- was tried is taken, and then only `next_num` has changed.
  pub add_tcp_session-Added :
      (count : ℕ)
      → IsValid m t
      → Returns
          (Added clock count m t ip port timeout)
          (add_tcp_session clock count m t ip port timeout)
  unfolding add_tcp_session
  add_tcp_session-Added count v =
      rw (rem-ok (u32 (ip + port)) t.len v.len_pos)
        (elim (Looked-cases (search_by_client-Looked ip port v)) [
          | inl (p, run, c) ↦ rw run (returns (existing p c))
          | inr (none_such, run) ↦
              let (r, claim, c) = Returns-value (
                claim_port-Claims m (claim_fuel t count) count t v
                  (unfold claim_fuel in omega arith) (unfold claim_fuel in omega arith)) in
              rw (run, claim)
                (elim (Claims-cases m t count r c) [
                  | inl (k, e, unused, before) ↦
                      rw (e, new_session-ok (advance t (k + 1)) (candidate t k) v.len_pos)
                        (returns (created k none_such unused before))
                  | inr (k, e, over, all) ↦ rw e (returns (full k none_such over all))
                ])
        ])
