-- ===== src/Session/Nodes/Hash/Delete.antt =====
-- `delete_hash_table` of src/lib/session_struct.c frees every node, once.
use benker_vpn.Base.{
  ℕ, zero, suc, ◌+◌, ◌≡◌, refl, sym, ◌∙◌, Bool, true, false, ◌||◌, arith, ltb, none, ok, bind-ok,
  Returns, returns, Returns-bind, Returns-mono, Bool-cases, Option-cases, inl, inr,
}
use benker_vpn.Session
use benker_vpn.Session.{Ptr, Memory, Table, delete_all_session}
use benker_vpn.Session.Nodes.{Heap, delete_all_nodes}
use benker_vpn.Session.Nodes.Linked.{stands, Linked-frame}
use benker_vpn.Session.Nodes.DeleteAll.{AllFreed, delete_all_nodes-AllFreed}
use benker_vpn.Session.Nodes.Hash
use benker_vpn.Session.Nodes.Hash.{HashTable, Nodes, fuel}
use benker_vpn.Session.Nodes.Hash.Represents.{
  Represents, heads, chains, chosen, chosen_same, chosen_of,
}

module _ {ns : Nodes} {t : HashTable} {c : Table} (r : Represents ns t c) where
  -- The lists that are `gone` have been freed, and the other ones are as they were.
  record Emptied (h : Heap) (gone : Bool → ℕ → Bool) : Type 0 where
    freed :
        (k : Bool) (j : ℕ) (a : Ptr) → gone k j ≡ true → stands a (r.cells k j) ≡ true → h a ≡ none
    kept :
        (k : Bool) (j : ℕ) (a : Ptr)
        → gone k j ≡ false
        → stands a (r.cells k j) ≡ true
        → h a ≡ ns.heap a
    outside : (a : Ptr) → ns.heap a ≡ none → h a ≡ none

  -- A node stands in one list.
  one_list :
      (k : Bool) (i : ℕ) (k' : Bool) (j : ℕ) (a : Ptr)
      → stands a (r.cells k i) ≡ true
      → stands a (r.cells k' j) ≡ true
      → chosen k i k' j ≡ true
  one_list k i k' j a here there =
      let (s, p, lt) = r.home k i a here in
      let (s', p', lt') = r.home k' j a there in chosen_of k i k' j (sym s ∙ s') (sym p ∙ p')

  Emptied-more :
      {h : Heap} {gone : Bool → ℕ → Bool} {m' : Memory} {x : Heap × Memory} (k : Bool) (i : ℕ)
      → Emptied h gone
      → AllFreed h (r.cells k i) m' x
      → Emptied x.0 (λ k' j. chosen k i k' j || gone k' j)
  Emptied-more {h} {gone} k i e f = record {
    freed = λ k' j a out there. elim (Bool-cases (stands a (r.cells k i))) [
      | inl here ↦ f.freed a here
      | inr away ↦
          let other : chosen k i k' j ≡ false = elim (Bool-cases (chosen k i k' j)) [
            | inr o ↦ o
            | inl same ↦
                let (e₁, e₂) = chosen_same k i k' j same in
                let here : stands a (r.cells k i) ≡ true = rw (e₁, e₂) there in absurd (cc)
          ] in
          f.outside a away ∙ e.freed k' j a (ground arith) there
    ];
    kept = λ k' j a out there. elim (Bool-cases (stands a (r.cells k i))) [
      | inl here ↦ absurd (ground (arith, one_list k i k' j a here there))
      | inr away ↦ f.outside a away ∙ e.kept k' j a (ground arith) there
    ];
    outside = λ a empty. elim (Bool-cases (stands a (r.cells k i))) [
      | inl here ↦ f.freed a here
      | inr away ↦ f.outside a away ∙ e.outside a empty
    ];
  }

  emptied :
      (m m' : Memory) (h : Heap) (gone : Bool → ℕ → Bool) (k : Bool) (i : ℕ) (remove_session : Bool)
      → Emptied h gone
      → gone k i ≡ false
      → delete_all_session m (chains c k i) remove_session ≡ ok m'
      → Returns
          (λ x. (x.1 ≡ m') × Emptied x.0 (λ k' j. chosen k i k' j || gone k' j))
          (delete_all_nodes (fuel ns) m h (heads t k i) remove_session)
  emptied m m' h gone k i remove_session e there run =
      let few = r.short k i in
      rw (r.starts k i) (
        Returns-mono
          (delete_all_nodes-AllFreed (fuel ns) m h (r.cells k i) remove_session m' (omega arith)
            (Linked-frame ns.heap h (r.cells k i) (λ a s. e.kept k i a there s) (r.linked k i))
            (rw (r.holds k i) run))
          (λ x f. (f.same_memory, Emptied-more k i e f)))

  Emptied-same :
      {h : Heap} {f g : Bool → ℕ → Bool}
      → ((k : Bool) (j : ℕ) → f k j ≡ g k j)
      → Emptied h f
      → Emptied h g
  Emptied-same same e = record {
    freed = λ k j a out. e.freed k j a (same k j ∙ out);
    kept = λ k j a out. e.kept k j a (same k j ∙ out);
    outside = e.outside;
  }

  next_index :
      (i : ℕ) (k : Bool) (j : ℕ)
      → (chosen true i k j || (chosen false i k j || ltb j i)) ≡ ltb j (i + 1)
  next_index i false j = ground arith
  next_index i true j = ground arith

  delete_lists-Emptied :
      (left i : ℕ) (m m' : Memory) (h : Heap)
      → Emptied h (λ k j. ltb j i)
      → Session.delete_lists c left i m ≡ ok m'
      → Returns
          (λ x. (x.0 ≡ m') × Emptied x.1.heap (λ k j. ltb j (i + left)))
          (Hash.delete_lists t left i m (record ns { heap = h }))
  unfolding Session.delete_lists Hash.delete_lists
  delete_lists-Emptied zero i m m' h e run = returns (cc, Emptied-same (λ k j. ground arith) e)
  delete_lists-Emptied (suc left) i m m' h e run =
      let (m₁, first, more) = bind-ok (delete_all_session m (c.list_client_key i) false) _ run in
      let (m₂, second, rest) = bind-ok (delete_all_session m₁ (c.list_server_key i) true) _ more in
      Returns-bind (emptied m m₁ h _ false i false e (ground arith) first) (λ x (same, e₁).
        Returns-bind (emptied x.1 m₂ x.0 _ true i true e₁ (ground arith) (rw same second))
          (λ y (same', e₂).
            Returns-mono
              (delete_lists-Emptied left (i + 1) y.1 m' y.0 (Emptied-same (next_index i) e₂)
                (rw same' rest))
              (λ z (same'', e₃). (same'', Emptied-same (λ k j. ground arith) e₃))))

-- No node is allocated any more, and the memory is `m'`.
abbrev pub AllGone : Memory → Memory × Nodes → Type 0
AllGone m' (m, ns) = (m ≡ m') × ((a : Ptr) → ns.heap a ≡ none)

-- On nodes that represent a table `delete_hash_table` returns where it does so on the chains: it leaves
-- the memory that it leaves there, frees every node once, and leaves none allocated.
pub delete_hash_table-AllGone :
    (m m' : Memory) (ns : Nodes) (t : HashTable) (c : Table)
    → Represents ns t c
    → Session.delete_hash_table m c ≡ ok m'
    → Returns (AllGone m') (Hash.delete_hash_table m ns t)
unfolding Session.delete_hash_table Hash.delete_hash_table
delete_hash_table-AllGone m m' ns t c r run = rw r.same_len (
    Returns-mono
      (delete_lists-Emptied r c.len 0 m m' ns.heap
        (record {
          freed = λ k j a out. absurd (ground arith);
          kept = λ k j a out there. refl;
          outside = λ a e. e;
        })
        run)
      (λ x (same, e). (
        same,
        λ a. elim (Option-cases (ns.heap a)) [
          | inl empty ↦ e.outside a empty
          | inr (n, node) ↦
              let (there, lt) = r.owned a (λ e. cc) in
              e.freed (r.side a) (r.place a) a (ground arith) there
        ],
      )))
