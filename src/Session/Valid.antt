-- ===== src/Session/Valid.antt =====
-- When a session table (src/lib/session_struct.c) is well formed, and that a new one is.
use benker_vpn.Base.{ℕ, ◌+◌, ◌-◌, ◌%◌, ◌^◌, ◌≤◌, ◌<◌, ◌≡◌, ◌≢◌, Bool, true, arith, u32}
use benker_vpn.Session.{Ptr, Memory, Table, init_hash_table}
use benker_vpn.Session.Search.{has, Distinct}

abbrev pub client_hash : Table → ℕ → ℕ → ℕ
client_hash t ip port = u32 (ip + port) % t.len

abbrev pub server_hash : Table → ℕ → ℕ
server_hash t port = port % t.len

-- The chains in which a session belongs.
abbrev pub client_home : Memory → Table → Ptr → ℕ
client_home m t p = client_hash t (m.cell p).client_ip (m.cell p).client_port

abbrev pub server_home : Memory → Table → Ptr → ℕ
server_home m t p = server_hash t (m.cell p).server_port

-- The session is in the table.
abbrev pub listed : Memory → Table → Ptr → Bool
listed m t p = has p (t.list_server_key (server_home m t p))

-- Both lists hold the same allocated sessions, each once and in its own chain; a port in the range
-- of the table belongs to each, and no two sessions share a client address and port, or a port.
pub record IsValid (m : Memory) (t : Table) : Type 0 where
  pub len_pos : 0 < t.len
  pub mod_pos : 0 < t.mod_num
  pub ports_fit : t.min_port + t.mod_num ≤ 65536
  pub next_fits : t.next_num < 2 ^ 32
  pub fresh : (p : Ptr) → m.live p ≡ true → p < m.next
  pub clients :
      (i : ℕ) (p : Ptr)
      → has p (t.list_client_key i) ≡ true
      → (client_home m t p ≡ i) × (listed m t p ≡ true)
  pub servers :
      (i : ℕ) (p : Ptr)
      → has p (t.list_server_key i) ≡ true
      → (server_home m t p ≡ i)
        × (has p (t.list_client_key (client_home m t p)) ≡ true)
        × (m.live p ≡ true)
        × (t.min_port ≤ (m.cell p).server_port)
        × ((m.cell p).server_port < t.min_port + t.mod_num)
  pub client_once : (i : ℕ) → Distinct (t.list_client_key i)
  pub server_once : (i : ℕ) → Distinct (t.list_server_key i)
  pub client_key :
      (p q : Ptr)
      → listed m t p ≡ true
      → listed m t q ≡ true
      → (m.cell p).client_ip ≡ (m.cell q).client_ip
      → (m.cell p).client_port ≡ (m.cell q).client_port
      → p ≡ q
  pub server_key :
      (p q : Ptr)
      → listed m t p ≡ true
      → listed m t q ≡ true
      → (m.cell p).server_port ≡ (m.cell q).server_port
      → p ≡ q

-- A session of the table has the port, or none has.
abbrev pub Taken : Memory → Table → ℕ → Type 0
Taken m t port = (p : Ptr) × (listed m t p ≡ true) × ((m.cell p).server_port ≡ port)

abbrev pub IsFree : Memory → Table → ℕ → Type 0
IsFree m t port = (p : Ptr) → listed m t p ≡ true → (m.cell p).server_port ≢ port

pub renumber-IsValid :
    {m : Memory} {t : Table} (n : ℕ)
    → n < 2 ^ 32
    → IsValid m t
    → IsValid m (record t { next_num = n })
renumber-IsValid n fits v = record {
  len_pos = v.len_pos;
  mod_pos = v.mod_pos;
  ports_fit = v.ports_fit;
  next_fits = fits;
  fresh = v.fresh;
  clients = v.clients;
  servers = v.servers;
  client_once = v.client_once;
  server_once = v.server_once;
  client_key = v.client_key;
  server_key = v.server_key;
}

-- A table for at least one list and for the ports from `min_port` to `max_port`, where these are
-- not all 65536, starts well formed, in any memory whose allocated addresses lie below the next.
pub init_hash_table-IsValid :
    (m : Memory) (num_entry min_port max_port : ℕ)
    → ((p : Ptr) → m.live p ≡ true → p < m.next)
    → 0 < num_entry
    → min_port ≤ max_port
    → max_port < 65536
    → max_port - min_port < 65535
    → IsValid m (init_hash_table num_entry min_port max_port)
unfolding init_hash_table
init_hash_table-IsValid m num_entry min_port max_port fresh pos order top room = record {
  len_pos = pos;
  mod_pos = omega arith;
  ports_fit = omega arith;
  next_fits = omega arith;
  fresh = fresh;
  clients = λ i p h. cc;
  servers = λ i p h. cc;
  client_once = λ i. tt;
  server_once = λ i. tt;
  client_key = λ p q h k. cc;
  server_key = λ p q h k. cc;
}
