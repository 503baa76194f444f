-- ===== src/Session/Nodes/DeleteAll.antt =====
-- `delete_all_session` of src/lib/session_struct.c frees every node once.
use benker_vpn.Base.{
  ℕ, zero, suc, ◌<◌, ◌≡◌, refl, ◌∙◌, Bool, true, false, arith, ◌==◌, none, Bool-cases, inl, inr, [],
  ◌∷◌, ok, Returns, returns, Returns-mono, bind-ok, if◌then◌else◌,
}
use benker_vpn.Session.{Ptr, Memory, free, delete_all_session}
use benker_vpn.Session.Nodes.{node, null, Heap, write, free_node, delete_all_nodes}
use benker_vpn.Session.Nodes.Linked.{
  Cells, sessions, stands, head_of, size, Linked, read-ok, Linked-write,
}

-- Every node of the list is freed, the memory is `m'`, and nothing else has changed.
pub record AllFreed (h : Heap) (xs : Cells) (m' : Memory) (r : Heap × Memory) : Type 0 where
  pub same_memory : r.1 ≡ m'
  pub freed : (q : Ptr) → stands q xs ≡ true → r.0 q ≡ none
  pub outside : (q : Ptr) → stands q xs ≡ false → r.0 q ≡ h q

AllFreed-more :
    {h : Heap} {a s : Ptr} {xs : Cells} {m' : Memory} {r : Heap × Memory}
    → stands a xs ≡ false
    → AllFreed (write h a none) xs m' r
    → AllFreed h ((a, s) ∷ xs) m' r
unfolding write
AllFreed-more {a} {xs} once f = record {
  same_memory = f.same_memory;
  freed = λ q i. elim (Bool-cases (stands q xs)) [
    | inl inside ↦ f.freed q inside
    | inr away ↦ let first : (a == q) ≡ true = ground arith in f.outside q away ∙ rw first refl
  ];
  outside = λ q away.
      let other : (a == q) ≡ false = ground arith in f.outside q (ground arith) ∙ rw other refl;
}

-- Where `delete_all_session` goes through on the chain, it does so on the nodes of a list that holds
-- it, with enough fuel for them: it frees each node, once, and the sessions as on the chain.
pub delete_all_nodes-AllFreed :
    (fuel : ℕ) (m : Memory) (h : Heap) (xs : Cells) (remove_session : Bool) (m' : Memory)
    → size xs < fuel
    → Linked h xs
    → delete_all_session m (sessions xs) remove_session ≡ ok m'
    → Returns (AllFreed h xs m') (delete_all_nodes fuel m h (head_of xs) remove_session)
unfolding delete_all_nodes delete_all_session free_node
delete_all_nodes-AllFreed zero m h xs remove_session m' enough l run = absurd (omega arith)
delete_all_nodes-AllFreed (suc fuel) m h [] remove_session m' enough l run =
    returns (record { same_memory = cc; freed = λ q i. cc; outside = λ q away. refl })
delete_all_nodes-AllFreed (suc fuel) m h ((a, s) ∷ xs) remove_session m' enough l run =
    let some_node : (a == null) ≡ false = let pos = l.0 in ground arith in
    let here = read-ok h a (node s (head_of xs)) l.1 in
    let (m₁, first, more) = bind-ok (if remove_session then free m s else ok m) _ run in
    rw (some_node, here, first)
      (Returns-mono
        (delete_all_nodes-AllFreed fuel m₁ (write h a none) xs remove_session m' (omega arith)
          (Linked-write h a none xs l.2 l.3) more)
        (λ r f. AllFreed-more l.2 f))
