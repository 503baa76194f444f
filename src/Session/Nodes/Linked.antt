-- ===== src/Session/Nodes/Linked.antt =====
-- When nodes form a list of src/lib/session_struct.c, and what its searches find in it.
use benker_vpn.Base.{
  ℕ, zero, suc, ◌<◌, ◌≡◌, refl, ◌∙◌, Bool, true, false, ◌||◌, arith, ◌==◌, Option, some, List, [],
  ◌∷◌, ok, Bool-cases, inl, inr,
}
use benker_vpn.Session.{
  Ptr, Memory, Chain, search_tcp_session_by_client, search_tcp_session_by_server,
}
use benker_vpn.Session.Nodes.{
  Node, node, null, Heap, read, write, search_nodes_by_client, search_nodes_by_server,
}

-- Each node's address and session, in order.
abbrev pub Cells : Type 0
Cells = List (Ptr × Ptr)

abbrev pub sessions : Cells → Chain
sessions [] = []
sessions ((a, s) ∷ xs) = s ∷ sessions xs

abbrev pub stands : Ptr → Cells → Bool
stands a [] = false
stands a ((b, s) ∷ xs) = (a == b) || stands a xs

abbrev pub head_of : Cells → Ptr
head_of [] = null
head_of ((a, s) ∷ xs) = a

abbrev pub size : Cells → ℕ
size [] = 0
size (x ∷ xs) = suc (size xs)

-- The nodes are those of the list, at addresses of their own.
abbrev pub Linked : Heap → Cells → Type 0
Linked h [] = Unit
Linked h ((a, s) ∷ xs) =
    (0 < a) × (h a ≡ some (node s (head_of xs))) × (stands a xs ≡ false) × Linked h xs

pub read-ok : (h : Heap) (a : Ptr) (n : Node) → h a ≡ some n → read h a ≡ ok n
unfolding read
read-ok h a n e = rw e refl

pub Linked-frame :
    (h h' : Heap) (xs : Cells)
    → ((a : Ptr) → stands a xs ≡ true → h' a ≡ h a)
    → Linked h xs
    → Linked h' xs
Linked-frame h h' [] same l = l
Linked-frame h h' ((a, s) ∷ xs) same (pos, at, once, rest) = (
  pos,
  same a (ground arith) ∙ at,
  once,
  Linked-frame h h' xs (λ b i. same b (ground arith)) rest,
)

pub Linked-write :
    (h : Heap) (p : Ptr) (c : Option Node) (xs : Cells)
    → stands p xs ≡ false
    → Linked h xs
    → Linked (write h p c) xs
unfolding write
Linked-write h p c xs out l =
    Linked-frame h _ xs
      (λ a i. elim (Bool-cases (p == a)) [
        | inr other ↦ rw other refl
        | inl same ↦ let e : p ≡ a = ground arith in absurd (ground arith)
      ])
      l

-- A search through the nodes is a search through their sessions.
pub search_nodes_by_client_lem :
    (fuel : ℕ) (m : Memory) (h : Heap) (xs : Cells) (ip port : ℕ)
    → size xs < fuel
    → Linked h xs
    → search_nodes_by_client fuel m h (head_of xs) ip port
      ≡ search_tcp_session_by_client m (sessions xs) ip port
unfolding search_nodes_by_client search_tcp_session_by_client
search_nodes_by_client_lem zero m h xs ip port enough l = absurd (omega arith)
search_nodes_by_client_lem (suc fuel) m h [] ip port enough l = refl
search_nodes_by_client_lem (suc fuel) m h ((a, s) ∷ xs) ip port enough (pos, at, once, rest) =
    let some_node : (a == null) ≡ false = ground arith in
    let later = search_nodes_by_client_lem fuel m h xs ip port (omega arith) rest in
    rw (some_node, read-ok h a (node s (head_of xs)) at, later) refl

pub search_nodes_by_server_lem :
    (fuel : ℕ) (m : Memory) (h : Heap) (xs : Cells) (port : ℕ)
    → size xs < fuel
    → Linked h xs
    → search_nodes_by_server fuel m h (head_of xs) port
      ≡ search_tcp_session_by_server m (sessions xs) port
unfolding search_nodes_by_server search_tcp_session_by_server
search_nodes_by_server_lem zero m h xs port enough l = absurd (omega arith)
search_nodes_by_server_lem (suc fuel) m h [] port enough l = refl
search_nodes_by_server_lem (suc fuel) m h ((a, s) ∷ xs) port enough (pos, at, once, rest) =
    let some_node : (a == null) ≡ false = ground arith in
    let later = search_nodes_by_server_lem fuel m h xs port (omega arith) rest in
    rw (some_node, read-ok h a (node s (head_of xs)) at, later) refl
