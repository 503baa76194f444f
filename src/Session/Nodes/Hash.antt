-- ===== src/Session/Nodes/Hash.antt =====
-- The session table of src/lib/session_struct.c with the linked lists node by node: the two arrays hold
-- the addresses of first nodes. A loop over nodes gets more fuel than nodes have been allocated.
pub mod Represents
pub mod Add
pub mod Clean
pub mod Delete
pub mod Life
use benker_vpn.Base.{
  ℕ, zero, suc, ◌+◌, ◌-◌, ◌^◌, Bool, true, false, Option, none, some, ltb, ◌==◌, if◌then◌else◌, u16,
  u32, int_zero, Run, ok, fault, out_of_fuel, ◌>>=◌,
}
use benker_vpn.Session
use benker_vpn.Session.{Ptr, Memory, Clock, Table, rem, alloc}
use benker_vpn.Session.Nodes.{
  Heap, null, insert_node, search_nodes_by_client, search_nodes_by_server, delete_expired_nodes,
  delete_all_nodes,
}

-- `struct session_hash_table`.
pub record HashTable : Type 0 where
  pub list_client_key : ℕ → Ptr
  pub list_server_key : ℕ → Ptr
  pub len : ℕ
  pub min_port : ℕ
  pub mod_num : ℕ
  pub next_num : ℕ

-- The nodes, and the address that `calloc` gives to the next one. It is taken to succeed.
pub record Nodes : Type 0 where
  pub heap : Heap
  pub spare : Ptr

abbrev pub fuel : Nodes → ℕ
fuel ns = suc ns.spare

-- `a[i] = p` for an array of heads.
abbrev pub set_head : (ℕ → Ptr) → ℕ → Ptr → ℕ → Ptr
set_head a i p j = if i == j then p else a j

unfoldable pub init_hash_table : ℕ → ℕ → ℕ → HashTable
unfolding Session.init_hash_table
init_hash_table num_entry min_port max_port = record {
  list_client_key = λ i. null;
  list_server_key = λ i. null;
  len = num_entry;
  min_port = min_port;
  mod_num = u16 (max_port + 2 ^ 16 - min_port + 1);
  next_num = 0;
}

-- The new `*_head`, and the nodes.
unfoldable pub insert_tcp_session : Nodes → (head session : Ptr) → Run (Ptr × Nodes)
unfolding insert_node
insert_tcp_session ns head session = do
  (head', h) ← insert_node (fuel ns) ns.heap ns.spare head session
  ok (head', record { heap = h; spare = ns.spare + 1 })

-- The `do` loop of `add_tcp_session`.
unfoldable pub claim_port : Nodes → Memory → ℕ → ℕ → HashTable → Run (Option ℕ × HashTable)
unfolding rem search_nodes_by_server
claim_port ns m zero count t = fault out_of_fuel
claim_port ns m (suc rounds) count t = do
  r ← rem t.next_num t.mod_num
  let server_port = u16 (r + t.min_port)
  let t₁ = record t { next_num = u32 (t.next_num + 1) }
  i ← rem server_port t.len
  session ← search_nodes_by_server (fuel ns) m ns.heap (t.list_server_key i) server_port
  let rest = claim_port ns m rounds (count + 1) t₁
  let full = ltb (t.mod_num + int_zero) (count + 1)
  elim session [ none ↦ ok (some server_port, t₁) | some _ ↦ if full then ok (none, t₁) else rest ]

-- A new session, put at the end of both lists.
unfoldable pub new_session :
    Clock
    → Memory
    → Nodes
    → HashTable
    → (hash_client client_ip client_port server_port timeout : ℕ)
    → Run (Ptr × Memory × Nodes × HashTable)
unfolding rem alloc insert_tcp_session
new_session clock m ns t hash_client client_ip client_port server_port timeout = do
  hash_server ← rem server_port t.len
  let s : Session.Session = record {
    client_ip = client_ip;
    client_port = client_port;
    server_port = server_port;
    client_last_state_seq = 0;
    server_last_state_seq = 0;
    syn_state = 0;
    client_fin_state = 0;
    server_fin_state = 0;
    expire = clock m.calls + timeout;
  }
  let m₁ = record (alloc m s) { calls = m.calls + 1 }
  (first_client, ns₁) ← insert_tcp_session ns (t.list_client_key hash_client) m.next
  let t₁ = record t { list_client_key = set_head t.list_client_key hash_client first_client }
  (first_server, ns₂) ← insert_tcp_session ns₁ (t₁.list_server_key hash_server) m.next
  let t₂ = record t₁ { list_server_key = set_head t₁.list_server_key hash_server first_server }
  ok (m.next, m₁, ns₂, t₂)

-- `count` is what the variable of that name holds on entry, shifted by `int_zero`.
unfoldable pub add_tcp_session :
    Clock
    → (count : ℕ) → Memory
    → Nodes
    → HashTable
    → (client_ip client_port timeout : ℕ) → Run (Option Ptr × Memory × Nodes × HashTable)
unfolding rem search_nodes_by_client claim_port new_session
add_tcp_session clock count m ns t client_ip client_port timeout = do
  hash_client ← rem (u32 (client_ip + client_port)) t.len
  session ←
      search_nodes_by_client (fuel ns) m ns.heap (t.list_client_key hash_client) client_ip
        client_port
  elim session [
    | some p ↦ ok (some p, m, ns, t)
    | none ↦ do
      (port, t₁) ← claim_port ns m (suc (t.mod_num + int_zero - count)) count t
      elim port [
        | none ↦ ok (none, m, ns, t₁)
        | some server_port ↦ do
          (p, m₁, ns₁, t₂) ←
              new_session clock m ns t₁ hash_client client_ip client_port server_port timeout
          ok (some p, m₁, ns₁, t₂)
      ]
  ]

unfoldable pub get_tcp_session_by_client :
    Memory → Nodes → HashTable → (client_ip client_port : ℕ) → Run (Option Ptr)
unfolding rem search_nodes_by_client
get_tcp_session_by_client m ns t client_ip client_port = do
  i ← rem (u32 (client_ip + client_port)) t.len
  search_nodes_by_client (fuel ns) m ns.heap (t.list_client_key i) client_ip client_port

unfoldable pub get_tcp_session_by_server :
    Memory → Nodes → HashTable → (server_port : ℕ) → Run (Option Ptr)
unfolding rem search_nodes_by_server
get_tcp_session_by_server m ns t server_port = do
  i ← rem server_port t.len
  search_nodes_by_server (fuel ns) m ns.heap (t.list_server_key i) server_port

-- `for (i = 0; i < len; ++i)`, with `left` rounds to go.
unfoldable pub clean_lists :
    Clock → (left i : ℕ) → Memory → Nodes → HashTable → Run (Memory × Nodes × HashTable)
unfolding delete_expired_nodes
clean_lists clock zero i m ns t = ok (m, ns, t)
clean_lists clock (suc left) i m ns t = do
  (first_client, h₁, m₁) ← delete_expired_nodes (fuel ns) clock m ns.heap (t.list_client_key i)
  let t₁ = record t { list_client_key = set_head t.list_client_key i first_client }
  (first_server, h₂, m₂) ← delete_expired_nodes (fuel ns) clock m₁ h₁ (t₁.list_server_key i)
  let t₂ = record t₁ { list_server_key = set_head t₁.list_server_key i first_server }
  clean_lists clock left (i + 1) m₂ (record ns { heap = h₂ }) t₂

unfoldable pub clean_expired_session :
    Clock → Memory → Nodes → HashTable → Run (Memory × Nodes × HashTable)
unfolding clean_lists
clean_expired_session clock m ns t = clean_lists clock t.len 0 m ns t

unfoldable pub delete_lists : HashTable → (left i : ℕ) → Memory → Nodes → Run (Memory × Nodes)
unfolding delete_all_nodes
delete_lists t zero i m ns = ok (m, ns)
delete_lists t (suc left) i m ns = do
  (h₁, m₁) ← delete_all_nodes (fuel ns) m ns.heap (t.list_client_key i) false
  (h₂, m₂) ← delete_all_nodes (fuel ns) m₁ h₁ (t.list_server_key i) true
  delete_lists t left (i + 1) m₂ (record ns { heap = h₂ })

unfoldable pub delete_hash_table : Memory → Nodes → HashTable → Run (Memory × Nodes)
unfolding delete_lists
delete_hash_table m ns t = delete_lists t t.len 0 m ns
