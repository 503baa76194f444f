-- ===== src/Session/Nodes/Hash/Represents.antt =====
-- When nodes and heads of lists represent a session table, and what becomes of that where one list is
-- exchanged.
use benker_vpn.Base.{
  ℕ, ◌+◌, ◌≤◌, ◌<◌, ◌≡◌, ◌≢◌, refl, sym, ◌∙◌, Bool, true, false, not, ◌&&◌, ◌||◌, arith, ◌==◌,
  if◌then◌else◌, none, Bool-cases, inl, inr,
}
use benker_vpn.Session.{Ptr, Chain, Table, update}
use benker_vpn.Session.Nodes.{Heap, null}
use benker_vpn.Session.Nodes.Linked.{Cells, sessions, stands, head_of, size, Linked, Linked-frame}
use benker_vpn.Session.Nodes.Insert.{Leaves}
use benker_vpn.Session.Nodes.Hash.{HashTable, Nodes, set_head}

-- The lists by array, the client's (`false`) and the server's (`true`), and index.
abbrev pub heads : HashTable → Bool → ℕ → Ptr
heads t k i = if k then t.list_server_key i else t.list_client_key i

abbrev pub chains : Table → Bool → ℕ → Chain
chains c k i = if k then c.list_server_key i else c.list_client_key i

abbrev pub with_head : HashTable → Bool → ℕ → Ptr → HashTable
with_head t k i p = record t {
  list_client_key = if k then t.list_client_key else set_head t.list_client_key i p;
  list_server_key = if k then set_head t.list_server_key i p else t.list_server_key;
}

abbrev pub with_chain : Table → Bool → ℕ → Chain → Table
with_chain c k i ps = record c {
  list_client_key = if k then c.list_client_key else update c.list_client_key i ps;
  list_server_key = if k then update c.list_server_key i ps else c.list_server_key;
}

-- Each head starts a list of nodes that holds the sessions of its chain. Each node is allocated, and
-- stands in the one list of the table that `side` and `place` say.
pub record Represents (ns : Nodes) (t : HashTable) (c : Table) : Type 0 where
  pub cells : Bool → ℕ → Cells
  pub side : Ptr → Bool
  pub place : Ptr → ℕ
  pub starts : (k : Bool) (i : ℕ) → heads t k i ≡ head_of (cells k i)
  pub holds : (k : Bool) (i : ℕ) → sessions (cells k i) ≡ chains c k i
  pub linked : (k : Bool) (i : ℕ) → Linked ns.heap (cells k i)
  pub home :
      (k : Bool) (i : ℕ) (a : Ptr)
      → stands a (cells k i) ≡ true
      → (side a ≡ k) × (place a ≡ i) × (a < ns.spare)
  pub owned :
      (a : Ptr)
      → ns.heap a ≢ none
      → (stands a (cells (side a) (place a)) ≡ true) × (place a < c.len)
  pub short : (k : Bool) (i : ℕ) → size (cells k i) ≤ ns.spare
  pub spare_pos : 0 < ns.spare
  pub same_len : t.len ≡ c.len
  pub same_min : t.min_port ≡ c.min_port
  pub same_mod : t.mod_num ≡ c.mod_num
  pub same_next : t.next_num ≡ c.next_num

-- The list is that of array `k` at `i`.
abbrev pub chosen : (k : Bool) (i : ℕ) (k' : Bool) (j : ℕ) → Bool
chosen k i k' j = ((k && k') || (not k && not k')) && i == j

chosen_self : (k : Bool) (i : ℕ) → chosen k i k i ≡ true
chosen_self k i = ground arith

pub chosen_same :
    (k : Bool) (i : ℕ) (k' : Bool) (j : ℕ) → chosen k i k' j ≡ true → (k ≡ k') × (i ≡ j)
chosen_same k i k' j h = ground arith

pub chosen_of : (k : Bool) (i : ℕ) (k' : Bool) (j : ℕ) → k ≡ k' → i ≡ j → chosen k i k' j ≡ true
chosen_of k i k' j e e' = ground arith

heads-with_head :
    (t : HashTable) (k : Bool) (i : ℕ) (p : Ptr) (k' : Bool) (j : ℕ)
    → heads (with_head t k i p) k' j ≡ (if chosen k i k' j then p else heads t k' j)
heads-with_head t false i p false j = refl
heads-with_head t false i p true j = refl
heads-with_head t true i p false j = refl
heads-with_head t true i p true j = refl

pub chains-with_chain :
    (c : Table) (k : Bool) (i : ℕ) (ps : Chain) (k' : Bool) (j : ℕ)
    → chains (with_chain c k i ps) k' j ≡ (if chosen k i k' j then ps else chains c k' j)
chains-with_chain c false i ps false j = refl
chains-with_chain c false i ps true j = refl
chains-with_chain c true i ps false j = refl
chains-with_chain c true i ps true j = refl

-- The list at `i` of array `k` is exchanged for `l`; an address `x` of it may be new.
module _ {ns : Nodes} {t : HashTable} {c : Table} (r : Represents ns t c) (k : Bool) (i : ℕ)
    (x : Ptr) {ps : Chain} {head : Ptr} {h : Heap} (l : Leaves ns.heap (r.cells k i) x ps (head, h))
    (new : (k' : Bool) (j : ℕ) → stands x (r.cells k' j) ≡ false) where
  abbrev new_cells : Bool → ℕ → Cells
  new_cells k' j = if chosen k i k' j then l.cells else r.cells k' j

  abbrev new_side : Ptr → Bool
  new_side a = if a == x then k else r.side a

  abbrev new_place : Ptr → ℕ
  new_place a = if a == x then i else r.place a

  -- A node of another list stands in neither the old nor the new one.
  elsewhere :
      (k' : Bool) (j : ℕ) (a : Ptr)
      → chosen k i k' j ≡ false
      → stands a (r.cells k' j) ≡ true
      → (stands a (r.cells k i) ≡ false) × (stands a l.cells ≡ false)
  elsewhere k' j a other there =
      let old : stands a (r.cells k i) ≡ false = elim (Bool-cases (stands a (r.cells k i))) [
        | inr away ↦ away
        | inl here ↦
            let (s, p, lt) = r.home k i a here in
            let (s', p', lt') = r.home k' j a there in
            absurd (ground (arith, chosen_of k i k' j (sym s ∙ s') (sym p ∙ p')))
      ] in
      let fresh : stands a l.cells ≡ false = elim (Bool-cases (stands a l.cells)) [
        | inr away ↦ away
        | inl here ↦
            let e : a ≡ x = ground (arith, l.among a here) in
            let there' : stands x (r.cells k' j) ≡ true = rw e at there in
            absurd (ground (arith, new k' j))
      ] in
      (old, fresh)

  new_cells-Linked : (k' : Bool) (j : ℕ) → Linked h (new_cells k' j)
  new_cells-Linked k' j = elim (Bool-cases (chosen k i k' j)) [
    | inl same ↦ rw same l.linked
    | inr other ↦ rw other (
        Linked-frame ns.heap h (r.cells k' j)
          (λ a there. let (e, e') = elsewhere k' j a other there in l.outside a e e')
          (r.linked k' j))
  ]

  new_home :
      (spare : Ptr)
      → ns.spare ≤ spare
      → x < spare
      → (k' : Bool) (j : ℕ) (a : Ptr) → stands a (new_cells k' j) ≡ true
      → (new_side a ≡ k') × (new_place a ≡ j) × (a < spare)
  new_home spare more below k' j a there = elim (Bool-cases (chosen k i k' j)) [
    | inl same ↦
        let there' : stands a l.cells ≡ true = rw same at there in
        ground (arith, l.among a there', r.home k i a, chosen_same k i k' j same)
    | inr other ↦
        let there' : stands a (r.cells k' j) ≡ true = rw other at there in
        ground (arith, r.home k' j a there', new k' j)
  ]

  placed :
      i < c.len
      → (a : Ptr) (s : Bool) (p : ℕ) → s ≡ k
      → p ≡ i
      → stands a l.cells ≡ true
      → (stands a (new_cells s p) ≡ true) × (p < c.len)
  placed inside a s p e e' here =
      let same = chosen_of k i s p (sym e) (sym e') in (rw same here, omega arith)

  not_new : (a : Ptr) (s : Bool) (p : ℕ) → stands a (r.cells s p) ≡ true → (a == x) ≡ false
  not_new a s p there = elim (Bool-cases (a == x)) [
    | inr other ↦ other
    | inl same ↦
        let e : a ≡ x = ground arith in
        let there' : stands x (r.cells s p) ≡ true = rw e at there in
        absurd (ground (arith, new s p))
  ]

  kept :
      (a : Ptr) (s : Bool) (p : ℕ)
      → stands a (r.cells k i) ≡ false
      → stands a (r.cells s p) ≡ true
      → stands a (new_cells s p) ≡ true
  kept a s p out there = elim (Bool-cases (chosen k i s p)) [
    | inr other ↦ rw other there
    | inl same ↦
        let (e, e') = chosen_same k i s p same in
        let there' : stands a (r.cells k i) ≡ true = rw (e, e') there in absurd (cc)
  ]

  new_owned :
      i < c.len
      → (a : Ptr) → h a ≢ none
      → (stands a (new_cells (new_side a) (new_place a)) ≡ true) × (new_place a < c.len)
  new_owned inside a some_node = elim (Bool-cases (stands a l.cells)) [
    | inl here ↦ elim (Bool-cases (a == x)) [
      | inl first ↦ rw first (placed inside a k i refl refl here)
      | inr old ↦
          let (s, p, lt) = r.home k i a (ground (arith, l.among a here)) in
          rw old (placed inside a (r.side a) (r.place a) s p here)
    ]
    | inr away ↦ elim (Bool-cases (stands a (r.cells k i))) [
      | inl old ↦ absurd (some_node (l.freed a old away))
      | inr out ↦
          let (there, lt) = r.owned a (λ e. some_node (l.outside a out away ∙ e)) in
          let old : (a == x) ≡ false = not_new a (r.side a) (r.place a) there in
          rw old (kept a (r.side a) (r.place a) out there, lt)
    ]
  ]

  pub exchanged :
      (spare : Ptr)
      → ns.spare ≤ spare
      → x < spare
      → size (r.cells k i) + (if x == null then 0 else 1) ≤ spare
      → i < c.len
      → Represents (record { heap = h; spare = spare }) (with_head t k i head) (with_chain c k i ps)
  exchanged spare more below short inside = record {
    cells = new_cells;
    side = new_side;
    place = new_place;
    starts = λ k' j. heads-with_head t k i head k' j ∙ (elim (Bool-cases (chosen k i k' j)) [
      | inl same ↦ rw same l.starts
      | inr other ↦ rw other (r.starts k' j)
    ]);
    holds = λ k' j. elim (Bool-cases (chosen k i k' j)) [
      | inl same ↦ rw (chains-with_chain c k i ps k' j, same) l.holds
      | inr other ↦ rw (chains-with_chain c k i ps k' j, other) (r.holds k' j)
    ];
    linked = new_cells-Linked;
    home = new_home spare more below;
    owned = new_owned inside;
    short = λ k' j. let few = l.shorter in ground (arith, r.short k' j);
    spare_pos = omega arith;
    same_len = r.same_len;
    same_min = r.same_min;
    same_mod = r.same_mod;
    same_next = r.same_next;
  }
