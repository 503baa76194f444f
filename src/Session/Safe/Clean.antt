-- ===== src/Session/Safe/Clean.antt =====
-- `clean_expired_session` of src/lib/session_struct.c, under any clock.
use benker_vpn.Base.{
  ℕ, zero, suc, ◌+◌, ◌≤◌, ◌≡◌, refl, arith, ◌==◌, ok, inl, inr, Bool-cases, subst,
}
use benker_vpn.Session.{Memory, Clock, Chain, Table, clean_lists, clean_expired_session, update}
use benker_vpn.Session.Clean.{later}
use benker_vpn.Session.Safe.{IsSafe}
use benker_vpn.Session.Safe.Part.{
  Part, Part-wider, Part-more, Part-same, delete_expired_session-Thinned,
}

-- What `clean_expired_session` leaves: each list has lost only sessions that one of the calls from `lo`
-- up to `hi` has found expired.
pub record Ticked (clock : Clock) (m : Memory) (lo hi : ℕ) (c c' : Table) : Type 0 where
  pub safe : IsSafe (later m hi) c'
  pub more_calls : lo ≤ hi
  pub same_len : c'.len ≡ c.len
  pub clients : (i : ℕ) → Part clock m lo hi (c.list_client_key i) (c'.list_client_key i)
  pub servers : (i : ℕ) → Part clock m lo hi (c.list_server_key i) (c'.list_server_key i)

module _ (clock : Clock) (m : Memory) where
  thin-IsSafe :
      (n n' i : ℕ) (c : Table) (clients servers : Chain) {lo hi lo' hi' : ℕ}
      → IsSafe (later m n) c
      → Part clock m lo hi (c.list_client_key i) clients
      → Part clock m lo' hi' (c.list_server_key i) servers
      → IsSafe (later m n') (record c {
        list_client_key = update c.list_client_key i clients;
        list_server_key = update c.list_server_key i servers;
      })
  thin-IsSafe n n' i c clients servers v t u = record {
    len_pos = v.len_pos;
    mod_pos = v.mod_pos;
    fresh = v.fresh;
    clients_live = λ j p h. ground (arith, v.clients_live j p, t.part p);
    servers_live = λ j p h. ground (arith, v.servers_live j p, u.part p);
    server_once = λ j. elim (Bool-cases (i == j)) [
      | inl same ↦ rw same (u.once (v.server_once i))
      | inr other ↦ rw other (v.server_once j)
    ];
    at_home = λ j p h. ground (arith, v.at_home j p, u.part p);
  }

  Part-update :
      {n hi : ℕ} (a : ℕ → Chain) (i : ℕ) (rest : Chain)
      → n ≤ hi
      → Part clock m n hi (a i) rest
      → (j : ℕ) → Part clock m n hi (a j) (update a i rest j)
  Part-update {n} {hi} a i rest more t j = elim (Bool-cases (i == j)) [
    | inl same ↦
        let e : i ≡ j = ground arith in rw same (subst (λ k. Part clock m n hi (a k) rest) e t)
    | inr other ↦ rw other (Part-wider n hi (omega arith) more (Part-same n _))
  ]

  clean_lists-Ticked :
      (left i n : ℕ) (c : Table)
      → IsSafe (later m n) c
      → (n' : ℕ) × (c' : Table) × (clean_lists clock left i (later m n) c ≡ ok (later m n', c'))
        × Ticked clock m n n' c c'
  unfolding clean_lists
  clean_lists-Ticked zero i n c v = (
    n,
    c,
    refl,
    record {
      safe = v;
      more_calls = omega arith;
      same_len = refl;
      clients = λ j. Part-same n _;
      servers = λ j. Part-same n _;
    },
  )
  clean_lists-Ticked (suc left) i n c v =
      let (clients, n₁, run₁, more₁, t) =
        delete_expired_session-Thinned clock m n (c.list_client_key i) (v.clients_live i) in
      let (servers, n₂, run₂, more₂, u) =
        delete_expired_session-Thinned clock m n₁ (c.list_server_key i) (v.servers_live i) in
      let c₁ : Table = record c {
        list_client_key = update c.list_client_key i clients;
        list_server_key = update c.list_server_key i servers;
      } in
      let (n', c', run, d) =
        clean_lists-Ticked left (i + 1) n₂ c₁ (thin-IsSafe n n₂ i c clients servers v t u) in
      let more' = d.more_calls in
      let server_step =
        Part-update c.list_server_key i servers (omega arith)
          (Part-wider n n₂ more₁ (omega arith) u) in
      let client_step =
        Part-update c.list_client_key i clients (omega arith)
          (Part-wider n n₂ (omega arith) more₂ t) in
      (
        n',
        c',
        rw (run₁, run₂, run) refl,
        record {
          safe = d.safe;
          more_calls = omega arith;
          same_len = d.same_len;
          clients = λ j. Part-more (omega arith) d.more_calls (client_step j) (d.clients j);
          servers = λ j. Part-more (omega arith) d.more_calls (server_step j) (d.servers j);
        },
      )

  -- Whatever `time(NULL)` returns, `clean_expired_session` on a table whose operations do not fault
  -- returns and leaves such a table: each list has lost only sessions that one of the calls of
  -- `time(NULL)` in between found expired, no session is changed or freed, and of the memory only the
  -- number of calls is another one.
  pub clean_expired_session-Ticked :
      (c : Table)
      → IsSafe m c
      → (n : ℕ) × (c' : Table) × (clean_expired_session clock m c ≡ ok (later m n, c'))
        × Ticked clock m m.calls n c c'
  unfolding clean_expired_session
  clean_expired_session-Ticked c v = clean_lists-Ticked c.len 0 m.calls c v
