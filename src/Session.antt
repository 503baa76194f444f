-- ===== src/Session.antt =====
-- The session table: src/lib/session_struct.h and src/lib/session_struct.c.
-- A linked list is the list of the session pointers that its nodes hold. Sessions live at
-- addresses in a memory, since both lists of a table point to the same ones.
pub mod Search
pub mod Valid
pub mod Port
pub mod Add
pub mod Lookup
pub mod Clean
pub mod Delete
pub mod Safe
pub mod Life
pub mod Nodes
pub mod Print
use benker_vpn.Base.{
  ℕ, zero, suc, ◌+◌, ◌-◌, ◌*◌, ◌%◌, ◌^◌, Bool, true, false, ◌&&◌, Option, none, some, List, [], ◌∷◌,
  ltb, ◌==◌, if◌then◌else◌, u16, u32, int_zero, Run, ok, fault, dangling, division_by_zero,
  out_of_fuel, ◌>>=◌,
}

-- `struct tcp_session`.
pub record Session : Type 0 where
  pub client_ip : ℕ
  pub client_port : ℕ
  pub server_port : ℕ
  pub client_last_state_seq : ℕ
  pub server_last_state_seq : ℕ
  pub syn_state : ℕ
  pub client_fin_state : ℕ
  pub server_fin_state : ℕ
  pub expire : ℕ

abbrev pub Ptr : Type 0
Ptr = ℕ

-- The sessions that are allocated, and how often `time(NULL)` has been called.
pub record Memory : Type 0 where
  pub cell : Ptr → Session
  pub live : Ptr → Bool
  pub next : Ptr
  pub calls : ℕ

-- What the n-th call of `time(NULL)` returns.
abbrev pub Clock : Type 0
Clock = ℕ → ℕ

abbrev pub Chain : Type 0
Chain = List Ptr

-- `struct session_hash_table`. The two arrays have `len` entries.
pub record Table : Type 0 where
  pub list_client_key : ℕ → Chain
  pub list_server_key : ℕ → Chain
  pub len : ℕ
  pub min_port : ℕ
  pub mod_num : ℕ
  pub next_num : ℕ

-- `*p`, and a store through `p`.
unfoldable pub load : Memory → Ptr → Run Session
load m p = if m.live p then ok (m.cell p) else fault dangling

unfoldable pub store : Memory → Ptr → Session → Memory
store m p s = record m { cell = λ q. if p == q then s else m.cell q }

-- `calloc(1, sizeof(struct tcp_session))` and the stores behind it. It is taken to succeed.
unfoldable pub alloc : Memory → Session → Memory
unfolding store
alloc m s = record m {
  cell = λ q. if m.next == q then s else m.cell q;
  live = λ q. if m.next == q then true else m.live q;
  next = m.next + 1;
}

unfoldable pub free : Memory → Ptr → Run Memory
free m p =
    if m.live p
    then ok (record m { live = λ q. if p == q then false else m.live q })
    else fault dangling

-- `a[i] = c` for an array of chains.
abbrev pub update : (ℕ → Chain) → ℕ → Chain → ℕ → Chain
update a i c j = if i == j then c else a j

-- `difftime(time(NULL), session->expire) > 0.0`.
unfoldable pub session_expired : Clock → Memory → Ptr → Run (Bool × Memory)
unfolding load
session_expired clock m p = do
  s ← load m p
  ok (ltb s.expire (clock m.calls), record m { calls = m.calls + 1 })

unfoldable pub insert_tcp_session : Chain → Ptr → Chain
insert_tcp_session [] session = session ∷ []
insert_tcp_session (p ∷ ps) session = p ∷ insert_tcp_session ps session

unfoldable pub search_tcp_session_by_client : Memory → Chain → ℕ → ℕ → Run (Option Ptr)
unfolding load
search_tcp_session_by_client m [] client_ip client_port = ok none
search_tcp_session_by_client m (p ∷ ps) client_ip client_port = do
  s ← load m p
  let rest = search_tcp_session_by_client m ps client_ip client_port
  if s.client_ip == client_ip && s.client_port == client_port then ok (some p) else rest

unfoldable pub search_tcp_session_by_server : Memory → Chain → ℕ → Run (Option Ptr)
unfolding load
search_tcp_session_by_server m [] server_port = ok none
search_tcp_session_by_server m (p ∷ ps) server_port = do
  s ← load m p
  let rest = search_tcp_session_by_server m ps server_port
  if s.server_port == server_port then ok (some p) else rest

-- The `while` loop: the nodes behind the first one.
unfoldable pub sweep : Clock → Memory → Chain → Run (Chain × Memory)
unfolding session_expired
sweep clock m [] = ok ([], m)
sweep clock m (p ∷ ps) = do
  (dead, m₁) ← session_expired clock m p
  (kept, m₂) ← sweep clock m₁ ps
  ok (if dead then kept else p ∷ kept, m₂)

-- Nodes are freed and sessions are not. The first node is looked at last.
unfoldable pub delete_expired_session : Clock → Memory → Chain → Run (Chain × Memory)
unfolding sweep
delete_expired_session clock m [] = ok ([], m)
delete_expired_session clock m (p ∷ ps) = do
  (kept, m₁) ← sweep clock m ps
  (dead, m₂) ← session_expired clock m₁ p
  ok (if dead then kept else p ∷ kept, m₂)

unfoldable pub delete_all_session : Memory → Chain → Bool → Run Memory
unfolding free
delete_all_session m [] remove_session = ok m
delete_all_session m (p ∷ ps) remove_session = do
  m₁ ← (if remove_session then free m p else ok m)
  delete_all_session m₁ ps remove_session

-- `max_port - min_port + 1` is cut to a `uint16_t`.
unfoldable pub init_hash_table : ℕ → ℕ → ℕ → Table
init_hash_table num_entry min_port max_port = record {
  list_client_key = λ i. [];
  list_server_key = λ i. [];
  len = num_entry;
  min_port = min_port;
  mod_num = u16 (max_port + 2 ^ 16 - min_port + 1);
  next_num = 0;
}

-- `for (i = 0; i < len; ++i)`, with `left` rounds to go.
unfoldable pub delete_lists : Table → ℕ → ℕ → Memory → Run Memory
unfolding delete_all_session
delete_lists t zero i m = ok m
delete_lists t (suc left) i m = do
  m₁ ← delete_all_session m (t.list_client_key i) false
  m₂ ← delete_all_session m₁ (t.list_server_key i) true
  delete_lists t left (i + 1) m₂

unfoldable pub delete_hash_table : Memory → Table → Run Memory
unfolding delete_lists
delete_hash_table m t = delete_lists t t.len 0 m

unfoldable pub clean_lists : Clock → ℕ → ℕ → Memory → Table → Run (Memory × Table)
unfolding delete_expired_session
clean_lists clock zero i m t = ok (m, t)
clean_lists clock (suc left) i m t = do
  (clients, m₁) ← delete_expired_session clock m (t.list_client_key i)
  (servers, m₂) ← delete_expired_session clock m₁ (t.list_server_key i)
  clean_lists clock left (i + 1) m₂ (record t {
    list_client_key = update t.list_client_key i clients;
    list_server_key = update t.list_server_key i servers;
  })

unfoldable pub clean_expired_session : Clock → Memory → Table → Run (Memory × Table)
unfolding clean_lists
clean_expired_session clock m t = clean_lists clock t.len 0 m t

-- `x % y` on unsigned numbers.
unfoldable pub rem : ℕ → ℕ → Run ℕ
rem x y = if y == 0 then fault division_by_zero else ok (x % y)

-- The `do` loop of `add_tcp_session`. `count` is shifted by `int_zero`; it has no initial value in
-- the source.
unfoldable pub claim_port : Memory → ℕ → ℕ → Table → Run (Option ℕ × Table)
unfolding rem search_tcp_session_by_server
claim_port m zero count t = fault out_of_fuel
claim_port m (suc fuel) count t = do
  r ← rem t.next_num t.mod_num
  let server_port = u16 (r + t.min_port)
  let t₁ = record t { next_num = u32 (t.next_num + 1) }
  i ← rem server_port t.len
  session ← search_tcp_session_by_server m (t.list_server_key i) server_port
  let rest = claim_port m fuel (count + 1) t₁
  let full = ltb (t.mod_num + int_zero) (count + 1)
  elim session [ none ↦ ok (some server_port, t₁) | some _ ↦ if full then ok (none, t₁) else rest ]

-- Enough rounds for `count` to pass `mod_num`.
unfoldable pub claim_fuel : Table → ℕ → ℕ
claim_fuel t count = suc (t.mod_num + int_zero - count)

-- A new session, put at the end of both chains.
unfoldable pub new_session :
    Clock
    → Memory
    → Table
    → (hash_client client_ip client_port server_port timeout : ℕ) → Run (Ptr × Memory × Table)
unfolding rem alloc insert_tcp_session
new_session clock m t hash_client client_ip client_port server_port timeout = do
  hash_server ← rem server_port t.len
  let s : Session = record {
    client_ip = client_ip;
    client_port = client_port;
    server_port = server_port;
    client_last_state_seq = 0;
    server_last_state_seq = 0;
    syn_state = 0;
    client_fin_state = 0;
    server_fin_state = 0;
    expire = clock m.calls + timeout;
  }
  let m₁ = record (alloc m s) { calls = m.calls + 1 }
  let clients = insert_tcp_session (t.list_client_key hash_client) m.next
  let servers = insert_tcp_session (t.list_server_key hash_server) m.next
  ok (
    m.next,
    m₁,
    record t {
      list_client_key = update t.list_client_key hash_client clients;
      list_server_key = update t.list_server_key hash_server servers;
    },
  )

unfoldable pub get_tcp_session_by_client : Memory → Table → ℕ → ℕ → Run (Option Ptr)
unfolding rem search_tcp_session_by_client
get_tcp_session_by_client m t client_ip client_port = do
  i ← rem (u32 (client_ip + client_port)) t.len
  search_tcp_session_by_client m (t.list_client_key i) client_ip client_port

unfoldable pub get_tcp_session_by_server : Memory → Table → ℕ → Run (Option Ptr)
unfolding rem search_tcp_session_by_server
get_tcp_session_by_server m t server_port = do
  i ← rem server_port t.len
  search_tcp_session_by_server m (t.list_server_key i) server_port

-- The session, with the memory and the table that are left; `none` is `NULL`. `count` is what the
-- variable of that name holds on entry.
unfoldable pub add_tcp_session :
    Clock
    → (count : ℕ) → Memory
    → Table
    → (client_ip client_port timeout : ℕ) → Run (Option Ptr × Memory × Table)
unfolding rem search_tcp_session_by_client claim_port claim_fuel new_session
add_tcp_session clock count m t client_ip client_port timeout = do
  hash_client ← rem (u32 (client_ip + client_port)) t.len
  session ← search_tcp_session_by_client m (t.list_client_key hash_client) client_ip client_port
  elim session [
    | some p ↦ ok (some p, m, t)
    | none ↦ do
      (port, t₁) ← claim_port m (claim_fuel t count) count t
      elim port [
        | none ↦ ok (none, m, t₁)
        | some server_port ↦ do
          (p, m₁, t₂) ← new_session clock m t₁ hash_client client_ip client_port server_port timeout
          ok (some p, m₁, t₂)
      ]
  ]
