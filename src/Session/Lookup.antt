-- ===== src/Session/Lookup.antt =====
-- Reading a session table after `add_tcp_session`, in src/lib/session_struct.c.
pub mod Full
use benker_vpn.Base.{
  ℕ, ◌+◌, ◌%◌, ◌^◌, ◌≤◌, ◌<◌, ◌≡◌, ◌≢◌, refl, Bool, true, false, arith, ◌==◌, Option, none, some,
  Run, ok, Returns, returns, Returns-mono, u16, u32, ap, ◌⊎◌, inl, inr,
}
use benker_vpn.Session.{
  Session, Ptr, Memory, Chain, Clock, Table, alloc, add_tcp_session, get_tcp_session_by_client,
  get_tcp_session_by_server,
}
use benker_vpn.Session.Valid.{IsValid, listed, client_hash, server_hash, IsFree, renumber-IsValid}
use benker_vpn.Session.Port.{rem-ok, candidate, advance, search_by_server-Tried, Tried-cases}
use benker_vpn.Session.Add.{with-IsValid, new_cell, kept, listed_new}
use benker_vpn.Session.Add.{
  memory_with, table_with, NoClient, IsClient, fresh_session, Added, existing, full, created,
  search_by_client-Looked, Looked-cases, add_tcp_session-Added,
}

candidate_range :
    {m : Memory} (t : Table) (k : ℕ)
    → IsValid m t
    → (t.min_port ≤ candidate t k) × (candidate t k < t.min_port + t.mod_num)
candidate_range t k v =
    let p = v.mod_pos in let q = v.ports_fit in let r = v.next_fits in grind arith

module _ (clock : Clock) (count : ℕ) (m : Memory) (t : Table) (ip port timeout : ℕ)
    (v : IsValid m t) where
  abbrev made : ℕ → Session
  made k = fresh_session clock m ip port (candidate t k) timeout

  pub created-IsValid :
      (k : ℕ)
      → NoClient m t ip port
      → IsFree m t (candidate t k)
      → IsValid (memory_with m (made k)) (table_with m (advance t (k + 1)) (made k))
  created-IsValid k none_such unused =
      let range = candidate_range t k v in
      with-IsValid m (advance t (k + 1)) (made k)
        (renumber-IsValid (u32 (t.next_num + (k + 1))) (omega arith) v) none_such unused range.0
        range.1

  pub Added-IsValid :
      {r : Option Ptr × Memory × Table} → Added clock count m t ip port timeout r → IsValid r.1 r.2
  Added-IsValid (existing p c) = v
  Added-IsValid (full k none_such over all) =
      renumber-IsValid (u32 (t.next_num + (k + 1))) (omega arith) v
  Added-IsValid (created k none_such unused before) = created-IsValid k none_such unused

  -- `add_tcp_session` on a well formed table does not fault and leaves the table well formed on
  -- every way out.
  pub add_tcp_session-IsValid :
      Returns (λ r. IsValid r.1 r.2) (add_tcp_session clock count m t ip port timeout)
  add_tcp_session-IsValid =
      Returns-mono (add_tcp_session-Added clock m t ip port timeout count v)
        (λ r a. Added-IsValid a)

-- A lookup by client returns the session of that client, if the table has one.
pub get_by_client-ok :
    {m : Memory} {t : Table} {ip port : ℕ} {p : Ptr}
    → IsValid m t
    → IsClient m t ip port p
    → get_tcp_session_by_client m t ip port ≡ ok (some p)
unfolding get_tcp_session_by_client
get_by_client-ok {m} {t} {ip} {port} {p} v c =
    rw (rem-ok (u32 (ip + port)) t.len v.len_pos)
      (elim (Looked-cases (search_by_client-Looked ip port v)) [
        | inl (q, run, d) ↦ ground (arith, v.client_key p q, run)
        | inr (none_such, run) ↦ absurd (none_such p c.in_table c.same_ip c.same_port)
      ])

-- A lookup by port returns the session with that port, if the table has one.
pub get_by_server-ok :
    {m : Memory} {t : Table} {port : ℕ} {p : Ptr}
    → IsValid m t
    → listed m t p ≡ true
    → (m.cell p).server_port ≡ port
    → get_tcp_session_by_server m t port ≡ ok (some p)
unfolding get_tcp_session_by_server
get_by_server-ok {m} {t} {port} {p} v l e =
    rw (rem-ok port t.len v.len_pos) (elim (Tried-cases (search_by_server-Tried port v)) [
      | inl (unused, run) ↦ absurd (unused p l e)
      | inr (q, run, l', e') ↦ ground (arith, v.server_key p q, run)
    ])

pub get_by_client-none :
    {m : Memory} {t : Table} {ip port : ℕ}
    → IsValid m t
    → NoClient m t ip port
    → get_tcp_session_by_client m t ip port ≡ ok none
unfolding get_tcp_session_by_client
get_by_client-none {m} {t} {ip} {port} v none_such =
    rw (rem-ok (u32 (ip + port)) t.len v.len_pos)
      (elim (Looked-cases (search_by_client-Looked ip port v)) [
        | inl (q, run, d) ↦ absurd (none_such q d.in_table d.same_ip d.same_port)
        | inr (none_here, run) ↦ run
      ])

-- What the table answers once `add_tcp_session` has returned `r`: the session returned is found by
-- its client and by its port; every session that was in the table before has kept its contents, and
-- is found by both as well; without a session returned, the client has none.
abbrev pub AddThenGet : Memory → Table → ℕ → ℕ → Option Ptr × Memory × Table → Type 0
AddThenGet m t ip port (o, m', t') =
    Answers o
    × ((q : Ptr)
        → listed m t q ≡ true
        → (m'.cell q ≡ m.cell q)
          × (get_tcp_session_by_client m' t' (m.cell q).client_ip (m.cell q).client_port
              ≡ ok (some q))
          × (get_tcp_session_by_server m' t' (m.cell q).server_port ≡ ok (some q)))
  where
    Answers : Option Ptr → Type 0
    Answers none = get_tcp_session_by_client m' t' ip port ≡ ok none
    Answers (some p) =
        (get_tcp_session_by_client m' t' ip port ≡ ok (some p))
        × (get_tcp_session_by_server m' t' (m'.cell p).server_port ≡ ok (some p))

module _ (clock : Clock) (count : ℕ) (m : Memory) (t : Table) (ip port timeout : ℕ)
    (v : IsValid m t) where
  before :
      (q : Ptr) → listed m t q ≡ true → IsClient m t (m.cell q).client_ip (m.cell q).client_port q
  before q l = record { in_table = l; same_ip = refl; same_port = refl }

  Added-get :
      {r : Option Ptr × Memory × Table}
      → Added clock count m t ip port timeout r
      → AddThenGet m t ip port r
  Added-get (existing p c) = (
    (get_by_client-ok v c, get_by_server-ok v c.in_table refl),
    λ q l. (refl, get_by_client-ok v (before q l), get_by_server-ok v l refl),
  )
  Added-get (full k none_such over all) =
      let v' = renumber-IsValid (u32 (t.next_num + (k + 1))) (omega arith) v in
      (
        get_by_client-none v' none_such,
        λ q l. (
          refl,
          get_by_client-ok v' (record { in_table = l; same_ip = refl; same_port = refl }),
          get_by_server-ok v' l refl,
        ),
      )
  Added-get (created k none_such unused earlier) =
      let s = fresh_session clock m ip port (candidate t k) timeout in
      let t₁ = advance t (k + 1) in
      let v₁ = renumber-IsValid (u32 (t.next_num + (k + 1))) (omega arith) v in
      let v' = created-IsValid clock count m t ip port timeout v k none_such unused in
      let is_new : listed (memory_with m s) (table_with m t₁ s) m.next ≡ true =
        ground (arith, listed_new m t₁ s v₁ m.next) in
      let cell = new_cell m s in
      (
        (
          get_by_client-ok v' (record {
            in_table = is_new;
            same_ip = ap (λ (x : Session). x.client_ip) cell;
            same_port = ap (λ (x : Session). x.client_port) cell;
          }),
          get_by_server-ok v' is_new refl,
        ),
        λ q l.
            let (same, l') = kept m t₁ s v₁ q l in
            (
              same,
              get_by_client-ok v' (record {
                in_table = l';
                same_ip = ap (λ (x : Session). x.client_ip) same;
                same_port = ap (λ (x : Session). x.client_port) same;
              }),
              get_by_server-ok v' l' (ap (λ (x : Session). x.server_port) same),
            ),
      )

  -- After `add_tcp_session` on a well formed table, the session that it returned is found by its
  -- client and by its port, each session that was there before is found as before with the contents
  -- that it had, and where it returned nothing, no session of the client is found.
  pub add_tcp_session-get :
      Returns (AddThenGet m t ip port) (add_tcp_session clock count m t ip port timeout)
  add_tcp_session-get =
      Returns-mono (add_tcp_session-Added clock m t ip port timeout count v) (λ r a. Added-get a)

-- What a handler knows of the session that it got: it is in a well formed table.
pub data Held (ip port : ℕ) : Option Ptr × Memory × Table → Type 0 where
  held :
      {m : Memory} {t : Table} (p : Ptr)
      → IsValid m t
      → IsClient m t ip port p
      → Held ip port (some p, m, t)
  not_held :
      {m : Memory} {t : Table} → IsValid m t → NoClient m t ip port → Held ip port (none, m, t)

pub Held-cases :
    {ip port : ℕ} {r : Option Ptr × Memory × Table}
    → Held ip port r
    → ((p : Ptr) × (m : Memory) × (t : Table) × (r ≡ (some p, m, t))
        × IsValid m t
        × IsClient m t ip port p)
      ⊎ ((m : Memory) × (t : Table) × (r ≡ (none, m, t)) × IsValid m t × NoClient m t ip port)
Held-cases (held {m} {t} p v c) = inl (p, m, t, refl, v, c)
Held-cases (not_held {m} {t} v n) = inr (m, t, refl, v, n)

module _ (clock : Clock) (count : ℕ) (m : Memory) (t : Table) (ip port timeout : ℕ)
    (v : IsValid m t) where
  Added-Held :
      {r : Option Ptr × Memory × Table} → Added clock count m t ip port timeout r → Held ip port r
  Added-Held (existing p c) = held p v c
  Added-Held (full k none_such over all) =
      not_held (renumber-IsValid (u32 (t.next_num + (k + 1))) (omega arith) v) none_such
  Added-Held (created k none_such unused earlier) =
      let s = fresh_session clock m ip port (candidate t k) timeout in
      let t₁ = advance t (k + 1) in
      let v₁ = renumber-IsValid (u32 (t.next_num + (k + 1))) (omega arith) v in
      let cell = new_cell m s in
      held m.next (created-IsValid clock count m t ip port timeout v k none_such unused) (record {
        in_table = ground (arith, listed_new m t₁ s v₁ m.next);
        same_ip = ap (λ (x : Session). x.client_ip) cell;
        same_port = ap (λ (x : Session). x.client_port) cell;
      })

  pub add_tcp_session-Held :
      Returns (Held ip port) (add_tcp_session clock count m t ip port timeout)
  add_tcp_session-Held =
      Returns-mono (add_tcp_session-Added clock m t ip port timeout count v) (λ r a. Added-Held a)

-- A lookup by client answers with the client's session or says that there is none.
pub found_cases :
    {m : Memory} {t : Table} (ip port : ℕ)
    → IsValid m t
    → ((p : Ptr) × (get_tcp_session_by_client m t ip port ≡ ok (some p)) × IsClient m t ip port p)
      ⊎ (NoClient m t ip port × (get_tcp_session_by_client m t ip port ≡ ok none))
unfolding get_tcp_session_by_client
found_cases {m} {t} ip port v =
    rw (rem-ok (u32 (ip + port)) t.len v.len_pos) (Looked-cases (search_by_client-Looked ip port v))

-- The same for a lookup by port.
pub get_by_server-cases :
    {m : Memory} {t : Table} (port : ℕ)
    → IsValid m t
    → (IsFree m t port × (get_tcp_session_by_server m t port ≡ ok none))
      ⊎ ((p : Ptr) × (get_tcp_session_by_server m t port ≡ ok (some p))
          × (listed m t p ≡ true)
          × ((m.cell p).server_port ≡ port))
unfolding get_tcp_session_by_server
get_by_server-cases {m} {t} port v =
    rw (rem-ok port t.len v.len_pos) (Tried-cases (search_by_server-Tried port v))

-- A client that has a session gets it, and nothing is added.
pub add_tcp_session-existing :
    (clock : Clock) (count timeout : ℕ) {m : Memory} {t : Table} {ip port : ℕ} {p : Ptr}
    → IsValid m t
    → IsClient m t ip port p
    → add_tcp_session clock count m t ip port timeout ≡ ok (some p, m, t)
unfolding add_tcp_session
add_tcp_session-existing clock count timeout {m} {t} {ip} {port} {p} v c =
    rw (rem-ok (u32 (ip + port)) t.len v.len_pos)
      (elim (Looked-cases (search_by_client-Looked ip port v)) [
        | inl (q, run, d) ↦ let e : q ≡ p = ground (arith, v.client_key q p) in rw (run, e)
        | inr (none_such, run) ↦ absurd (none_such p c.in_table c.same_ip c.same_port)
      ])
