-- ===== src/Session/Nodes.antt =====
-- The linked lists of src/lib/session_struct.c node by node: `struct session_linked_list` in a heap.
-- Loops run on fuel.
pub mod Linked
pub mod Insert
pub mod Expire
pub mod DeleteAll
pub mod Hash
use benker_vpn.Base.{
  ℕ, zero, suc, ◌+◌, Bool, true, false, Option, none, some, ◌==◌, ◌&&◌, if◌then◌else◌, Run, ok,
  fault, dangling, out_of_fuel, ◌>>=◌,
}
use benker_vpn.Session.{Ptr, Memory, Clock, load, session_expired}
use benker_vpn.Session

-- `struct session_linked_list`.
pub record Node : Type 0 where
  pub session : Ptr
  pub next : Ptr

abbrev pub node : Ptr → Ptr → Node
node s q = record { session = s; next = q }

abbrev pub null : Ptr
null = 0

abbrev pub Heap : Type 0
Heap = Ptr → Option Node

abbrev pub node_of : Option Node → Run Node
node_of none = fault dangling
node_of (some n) = ok n

-- `*p` for a pointer to a node.
unfoldable pub read : Heap → Ptr → Run Node
read h p = node_of (h p)

unfoldable pub write : Heap → Ptr → Option Node → Heap
write h p c q = if p == q then c else h q

-- `p->next = q`
unfoldable pub set_next : Heap → Ptr → Ptr → Run Heap
unfolding read write
set_next h p q = do n ← read h p; ok (write h p (some (node n.session q)))

unfoldable pub free_node : Heap → Ptr → Run Heap
unfolding read write
free_node h p = do n ← read h p; ok (write h p none)

-- `while (head->next != NULL)` and the two stores after it. `new` is what `calloc` returns.
unfoldable pub append_node : ℕ → Heap → (new head session : Ptr) → Run Heap
unfolding read set_next write
append_node zero h new head session = fault out_of_fuel
append_node (suc fuel) h new head session = do
  n ← read h head
  let linked = (do h' ← set_next h head new; ok (write h' new (some (node session null))))
  let rest = append_node fuel h new n.next session
  if n.next == null then linked else rest

-- The new `*_head` and the heap.
unfoldable pub insert_node : ℕ → Heap → (new head session : Ptr) → Run (Ptr × Heap)
unfolding append_node write
insert_node fuel h new head session =
    if head == null
    then ok (new, write h new (some (node session null)))
    else do h' ← append_node fuel h new head session; ok (head, h')

unfoldable pub search_nodes_by_client :
    ℕ → Memory → Heap → (head : Ptr) → (client_ip client_port : ℕ) → Run (Option Ptr)
unfolding load read
search_nodes_by_client zero m h head client_ip client_port = fault out_of_fuel
search_nodes_by_client (suc fuel) m h head client_ip client_port =
    if head == null then ok none else do
      n ← read h head
      s ← load m n.session
      let rest = search_nodes_by_client fuel m h n.next client_ip client_port
      if s.client_ip == client_ip && s.client_port == client_port then ok (some n.session) else rest

unfoldable pub search_nodes_by_server :
    ℕ → Memory → Heap → (head : Ptr) → (server_port : ℕ) → Run (Option Ptr)
unfolding load read
search_nodes_by_server zero m h head server_port = fault out_of_fuel
search_nodes_by_server (suc fuel) m h head server_port = if head == null then ok none else do
  n ← read h head
  s ← load m n.session
  let rest = search_nodes_by_server fuel m h n.next server_port
  if s.server_port == server_port then ok (some n.session) else rest

-- `current->next = to_be_deleted->next; free(to_be_deleted);`
unfoldable pub unlink_next : Heap → (current to_be_deleted : Ptr) → Run Heap
unfolding read set_next free_node
unlink_next h current to_be_deleted = do
  n ← read h to_be_deleted
  h' ← set_next h current n.next
  free_node h' to_be_deleted

-- The `while` loop of `delete_expired_session`. A node that has expired is taken out, and the loop stays
-- where it is.
unfoldable pub sweep_nodes : ℕ → Clock → Memory → Heap → (current : Ptr) → Run (Heap × Memory)
unfolding read session_expired
sweep_nodes zero clock m h current = fault out_of_fuel
sweep_nodes (suc fuel) clock m h current = if current == null then ok (h, m) else do
  c ← read h current
  if c.next == null then ok (h, m) else do
    n ← read h c.next
    (dead, m₁) ← session_expired clock m n.session
    h₁ ← (if dead then unlink_next h current c.next else ok h)
    sweep_nodes fuel clock m₁ h₁ (if dead then current else c.next)

-- `delete_expired_session`: the new `*_head`, the heap and the memory.
unfoldable pub delete_expired_nodes : ℕ → Clock → Memory → Heap → Ptr → Run (Ptr × Heap × Memory)
unfolding sweep_nodes read free_node session_expired
delete_expired_nodes fuel clock m h head = if head == null then ok (head, h, m) else do
  (h₁, m₁) ← sweep_nodes fuel clock m h head
  n ← read h₁ head
  (dead, m₂) ← session_expired clock m₁ n.session
  let last = (do h₂ ← free_node h₁ head; ok (n.next, h₂, m₂))
  if dead then last else ok (head, h₁, m₂)

-- `delete_all_session`.
unfoldable pub delete_all_nodes : ℕ → Memory → Heap → Ptr → Bool → Run (Heap × Memory)
unfolding read free_node Session.free
delete_all_nodes zero m h head remove_session = fault out_of_fuel
delete_all_nodes (suc fuel) m h head remove_session = if head == null then ok (h, m) else do
  n ← read h head
  m₁ ← (if remove_session then Session.free m n.session else ok m)
  h₁ ← free_node h head
  delete_all_nodes fuel m₁ h₁ n.next remove_session
