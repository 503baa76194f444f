-- ===== src/Session/Nodes/Hash/Life.antt =====
-- The life of a session table of src/lib/session_struct.c, from `init_hash_table` to
-- `delete_hash_table`, on nodes and on chains.
use benker_vpn.Base.{
  ℕ, ◌+◌, ◌-◌, ◌<◌, ◌≤◌, ◌≡◌, refl, sym, true, false, arith, Bool-cases, Option, none, List, [],
  ◌∷◌, Run, ok, ◌>>=◌, Agree, both_return, Agree-bind, Agree-refl, Agree-Returns, Returns, returns,
  Returns-bind, Returns-value, Returns-eq, inl, inr, subst, u32,
}
use benker_vpn.Session
use benker_vpn.Session.{Clock, Ptr, Memory, Table}
use benker_vpn.Session.Safe.{IsSafe, init_hash_table-IsSafe}
use benker_vpn.Session.Delete.{safe_delete_hash_table-Freed}
use benker_vpn.Session.Life.{Operation, add, by_client, by_server, clean, operate, serve}
use benker_vpn.Session.Life.Step.{operate-Stepped}
use benker_vpn.Session.Nodes.Hash
use benker_vpn.Session.Nodes.Hash.{HashTable, Nodes, fuel}
use benker_vpn.Session.Nodes.Hash.Represents.{Represents}
use benker_vpn.Session.Nodes.Hash.Add.{
  SameResult, rem-Agree, client_search, server_search, add_tcp_session-Agree,
}
use benker_vpn.Session.Nodes.Hash.Clean.{LiveChains, clean_expired_session-Agree}
use benker_vpn.Session.Nodes.Hash.Delete.{delete_hash_table-AllGone}

-- `operate` and `serve` on nodes.
unfoldable pub operate_nodes :
    Clock → Operation → Memory → Nodes → HashTable → Run (Option Ptr × Memory × Nodes × HashTable)
unfolding Hash.add_tcp_session Hash.get_tcp_session_by_client Hash.get_tcp_session_by_server
    Hash.clean_expired_session
operate_nodes clock (add count client_ip client_port timeout) m ns t =
    Hash.add_tcp_session clock count m ns t client_ip client_port timeout
operate_nodes clock (by_client client_ip client_port) m ns t = do
  session ← Hash.get_tcp_session_by_client m ns t client_ip client_port
  ok (session, m, ns, t)
operate_nodes clock (by_server server_port) m ns t = do
  session ← Hash.get_tcp_session_by_server m ns t server_port
  ok (session, m, ns, t)
operate_nodes clock clean m ns t = do
  (m₁, ns₁, t₁) ← Hash.clean_expired_session clock m ns t
  ok (none, m₁, ns₁, t₁)

unfoldable pub serve_nodes :
    Clock → List Operation → Memory → Nodes → HashTable → Run (List (Option Ptr) × Memory × Nodes)
unfolding operate_nodes Hash.delete_hash_table
serve_nodes clock [] m ns t = do (m₁, ns₁) ← Hash.delete_hash_table m ns t; ok ([], m₁, ns₁)
serve_nodes clock (o ∷ os) m ns t = do
  (a, m₁, ns₁, t₁) ← operate_nodes clock o m ns t
  (answers, m₂, ns₂) ← serve_nodes clock os m₁ ns₁ t₁
  ok (a ∷ answers, m₂, ns₂)

abbrev pub no_nodes : Nodes
no_nodes = record { heap = λ q. none; spare = 1 }

pub init_hash_table-Represents :
    (num_entry min_port max_port : ℕ)
    → Represents no_nodes
        (Hash.init_hash_table num_entry min_port max_port)
        (Session.init_hash_table num_entry min_port max_port)
unfolding Hash.init_hash_table Session.init_hash_table
init_hash_table-Represents num_entry min_port max_port = record {
  cells = λ k i. [];
  side = λ a. false;
  place = λ a. 0;
  starts = λ k i. elim (Bool-cases k) [ inl e ↦ rw e refl | inr e ↦ rw e refl ];
  holds = λ k i. elim (Bool-cases k) [ inl e ↦ rw e refl | inr e ↦ rw e refl ];
  linked = λ k i. tt;
  home = λ k i a h. cc;
  owned = λ a h. absurd (h refl);
  short = λ k i. omega arith;
  spare_pos = omega arith;
  same_len = refl;
  same_min = refl;
  same_mod = refl;
  same_next = refl;
}

pub safe_chains : {m : Memory} {c : Table} → IsSafe m c → LiveChains m c
safe_chains v false i = v.clients_live i
safe_chains v true i = v.servers_live i

module _ {ns : Nodes} {t : HashTable} {c : Table} (r : Represents ns t c) where
  get_tcp_session_by_client-Agree :
      (m : Memory) (ip port : ℕ)
      → Agree
          (λ a b. a ≡ b)
          (Hash.get_tcp_session_by_client m ns t ip port)
          (Session.get_tcp_session_by_client m c ip port)
  unfolding Hash.get_tcp_session_by_client Session.get_tcp_session_by_client
  get_tcp_session_by_client-Agree m ip port =
      rem-Agree (u32 (ip + port)) r.same_len
        (λ i below. rw (client_search r m i ip port) (Agree-refl _))

  get_tcp_session_by_server-Agree :
      (m : Memory) (port : ℕ)
      → Agree
          (λ a b. a ≡ b)
          (Hash.get_tcp_session_by_server m ns t port)
          (Session.get_tcp_session_by_server m c port)
  unfolding Hash.get_tcp_session_by_server Session.get_tcp_session_by_server
  get_tcp_session_by_server-Agree m port =
      rem-Agree port r.same_len (λ i below. rw (server_search r m i port) (Agree-refl _))

  operate_nodes-Agree :
      (clock : Clock) (o : Operation) (m : Memory)
      → IsSafe m c
      → Agree SameResult (operate_nodes clock o m ns t) (operate clock o m c)
  unfolding operate operate_nodes
  operate_nodes-Agree clock (add count ip port timeout) m v =
      add_tcp_session-Agree clock count m ns t c ip port timeout r
  operate_nodes-Agree clock (by_client ip port) m v =
      Agree-bind (get_tcp_session_by_client-Agree m ip port)
        (λ x y same. both_return (same, refl, r))
  operate_nodes-Agree clock (by_server port) m v =
      Agree-bind (get_tcp_session_by_server-Agree m port) (λ x y same. both_return (same, refl, r))
  operate_nodes-Agree clock clean m v =
      Agree-bind (clean_expired_session-Agree clock m ns t c r (safe_chains v))
        (λ x y (same, r'). both_return (refl, same, r'))

-- The answers and the memory are those of the chains, and no node is left.
abbrev pub SameLife : Run (List (Option Ptr) × Memory) → List (Option Ptr) × Memory × Nodes → Type 0
SameLife run (answers, m, ns) = (run ≡ ok (answers, m)) × ((a : Ptr) → ns.heap a ≡ none)

serve_nodes-SameLife :
    (clock : Clock) (os : List Operation) (m : Memory) (ns : Nodes) (t : HashTable) (c : Table)
    → Represents ns t c
    → IsSafe m c
    → Returns (SameLife (serve clock os m c)) (serve_nodes clock os m ns t)
unfolding serve serve_nodes
serve_nodes-SameLife clock [] m ns t c r v =
    let (m', run, f) = Returns-value (safe_delete_hash_table-Freed m c v) in
    Returns-bind (delete_hash_table-AllGone m m' ns t c r run)
      (λ x (same, gone). returns (rw (run, same) refl, gone))
serve_nodes-SameLife clock (o ∷ os) m ns t c r v =
    Returns-bind
      (Agree-Returns (operate_nodes-Agree r clock o m v)
        (Returns-eq (operate-Stepped clock o m c v)))
      (λ x (y, (same, same', r'), (run, v')).
        Returns-bind
          (serve_nodes-SameLife clock os x.1 x.2 x.3 y.2 r'
            (subst (λ m. IsSafe m y.2) (sym same') v'.safe))
          (λ z (e, gone).
            let e' : serve clock os y.1 y.2 ≡ ok (z.0, z.1) = rw same' at e in
            returns (rw (run, e', same) refl, gone)))

-- `init_hash_table`, any calls and `delete_hash_table`, on nodes: for at least one list and for the ports
-- from `min_port` to `max_port`, where these are not all 65536, in a memory whose allocated addresses lie
-- below the next, nothing faults, whatever `time(NULL)` returns. The calls answer as on the chains and
-- leave the same memory, and each node that was allocated has been freed.
pub life-SameLife :
    (clock : Clock) (os : List Operation) (m : Memory) (num_entry min_port max_port : ℕ)
    → ((p : Ptr) → m.live p ≡ true → p < m.next)
    → 0 < num_entry
    → min_port ≤ max_port
    → max_port < 65536
    → max_port - min_port < 65535
    → Returns
        (SameLife (serve clock os m (Session.init_hash_table num_entry min_port max_port)))
        (serve_nodes clock os m no_nodes (Hash.init_hash_table num_entry min_port max_port))
life-SameLife clock os m num_entry min_port max_port fresh pos order top room =
    serve_nodes-SameLife clock os m no_nodes (Hash.init_hash_table num_entry min_port max_port)
      (Session.init_hash_table num_entry min_port max_port)
      (init_hash_table-Represents num_entry min_port max_port)
      (init_hash_table-IsSafe m num_entry min_port max_port fresh pos order top room)
