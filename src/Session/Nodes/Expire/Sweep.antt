-- ===== src/Session/Nodes/Expire/Sweep.antt =====
-- The loop of `delete_expired_session` in src/lib/session_struct.c on nodes: all behind the first one.
use benker_vpn.Base.{
  ℕ, zero, suc, ◌+◌, ◌≤◌, ◌<◌, ◌≡◌, refl, sym, ap, ◌∙◌, Bool, true, false, ◌||◌, arith, ltb, ◌==◌,
  none, some, [], ◌∷◌, ok, Returns, returns, Returns-mono, subst, Bool-cases, inl, inr,
}
use benker_vpn.Session.{Ptr, Memory, Chain, Clock, sweep}
use benker_vpn.Session.Search.{AllLive}
use benker_vpn.Session.Clean.{later, session_expired-run}
use benker_vpn.Session.Nodes.{
  node, null, Heap, read, write, set_next, free_node, unlink_next, sweep_nodes,
}
use benker_vpn.Session.Nodes.Linked.{
  Cells, sessions, stands, head_of, size, Linked, read-ok, Linked-write,
}

-- After the loop: the first node stands, and behind it those that `sweep` keeps.
pub record Swept (h : Heap) (a u : Ptr) (xs : Cells) (ps : Chain) (m' : Memory) (r : Heap × Memory)
    : Type 0 where
  pub same_memory : r.1 ≡ m'
  pub cells : Cells
  pub linked : Linked r.0 ((a, u) ∷ cells)
  pub holds : sessions cells ≡ ps
  pub freed : (q : Ptr) → stands q xs ≡ true → stands q cells ≡ false → r.0 q ≡ none
  pub among : (q : Ptr) → stands q cells ≡ true → stands q xs ≡ true
  pub shorter : size cells ≤ size xs
  pub outside : (q : Ptr) → stands q ((a, u) ∷ xs) ≡ false → r.0 q ≡ h q

-- The node behind the first is taken out and freed.
unlink_next-ok :
    (h : Heap) (a u b w : Ptr) (xs : Cells)
    → Linked h ((a, u) ∷ (b, w) ∷ xs)
    → (h' : Heap) × (unlink_next h a b ≡ ok h')
      × Linked h' ((a, u) ∷ xs)
      × (h' b ≡ none)
      × ((q : Ptr) → stands q ((a, u) ∷ (b, w) ∷ []) ≡ false → h' q ≡ h q)
unfolding unlink_next set_next free_node write
unlink_next-ok h a u b w xs (pos, at, once, (pos', at', once', rest)) =
    let other : (a == b) ≡ false = ground arith in
    let there : read (write h a (some (node u (head_of xs)))) b ≡ ok (node w (head_of xs)) =
      read-ok (write h a (some (node u (head_of xs)))) b (node w (head_of xs))
        (unfold write in ground arith) in
    let cut = write h a (some (node u (head_of xs))) in
    (
      write cut b none,
      rw (read-ok h b (node w (head_of xs)) at', read-ok h a (node u b) at, there) refl,
      (
        pos,
        ground arith,
        ground arith,
        Linked-write cut b none xs once' (Linked-write h a _ xs (ground arith) rest),
      ),
      ground arith,
      λ q away. ground arith,
    )

apart :
    (a b : Ptr) (xs : Cells)
    → ((a == b) || stands a xs) ≡ false
    → stands b xs ≡ false
    → ((b == a) || stands b xs) ≡ false
apart a b xs out once = ground arith

is_first : (q b : Ptr) (behind : Bool) → ((q == b) || behind) ≡ true → behind ≡ false → q ≡ b
is_first q b behind h e = ground arith

apart_at :
    (a b q : Ptr) (xs : Cells)
    → q ≡ b
    → ((a == b) || stands a xs) ≡ false
    → stands b xs ≡ false
    → ((q == a) || stands q xs) ≡ false
apart_at a b q xs e out once =
    subst (λ r. ((r == a) || stands r xs) ≡ false) (sym e) (apart a b xs out once)

apart_kept :
    (a b : Ptr) (xs ys : Cells)
    → ((a == b) || stands a xs) ≡ false
    → (stands a ys ≡ true → stands a xs ≡ true)
    → ((a == b) || stands a ys) ≡ false
apart_kept a b xs ys out among = ground arith

Swept-cut :
    {h h₁ : Heap} {a u b w : Ptr} {xs : Cells} {ps : Chain} {m' : Memory} {r : Heap × Memory}
    → Linked h ((a, u) ∷ (b, w) ∷ xs)
    → h₁ b ≡ none
    → ((q : Ptr) → stands q ((a, u) ∷ (b, w) ∷ []) ≡ false → h₁ q ≡ h q)
    → Swept h₁ a u xs ps m' r
    → Swept h a u ((b, w) ∷ xs) ps m' r
Swept-cut {h₁} {a} {b} {xs} l gone same s = record {
  same_memory = s.same_memory;
  cells = s.cells;
  linked = s.linked;
  holds = s.holds;
  freed = λ q i away. elim (Bool-cases (stands q xs)) [
    | inl inside ↦ s.freed q inside away
    | inr behind ↦
        let first : q ≡ b = is_first q b (stands q xs) i behind in
        s.outside q (apart_at a b q xs first l.2 l.3.2) ∙ ap h₁ first ∙ gone
  ];
  among = λ q i. ground (arith, s.among q i);
  shorter = let few = s.shorter in omega arith;
  outside = λ q away. s.outside q (ground arith) ∙ same q (ground arith);
}

Swept-keep :
    {h : Heap} {a u b w : Ptr} {xs : Cells} {ps : Chain} {m' : Memory} {r : Heap × Memory}
    → Linked h ((a, u) ∷ (b, w) ∷ xs)
    → Swept h b w xs ps m' r
    → Swept h a u ((b, w) ∷ xs) (w ∷ ps) m' r
Swept-keep {a} {b} {w} {xs} l s = record {
  same_memory = s.same_memory;
  cells = (b, w) ∷ s.cells;
  linked = (l.0, s.outside a l.2 ∙ l.1, apart_kept a b xs s.cells l.2 (s.among a), s.linked);
  holds = ap (λ ys. w ∷ ys) s.holds;
  freed = λ q i away. s.freed q (ground arith) (ground arith);
  among = λ q i. ground (arith, s.among q);
  shorter = let few = s.shorter in omega arith;
  outside = λ q away. s.outside q (ground arith);
}

pub sweep_nodes-Swept :
    (fuel : ℕ) (clock : Clock) (m : Memory) (h : Heap) (a u : Ptr) (xs : Cells)
    → size xs < fuel
    → Linked h ((a, u) ∷ xs)
    → AllLive m (sessions xs)
    → (ps : Chain) × (m' : Memory) × (sweep clock m (sessions xs) ≡ ok (ps, m'))
      × (m'.live ≡ m.live)
      × Returns (Swept h a u xs ps m') (sweep_nodes fuel clock m h a)
unfolding sweep_nodes sweep
sweep_nodes-Swept zero clock m h a u xs enough l live = absurd (omega arith)
sweep_nodes-Swept (suc fuel) clock m h a u [] enough l live =
    let some_node : (a == null) ≡ false = let pos = l.0 in ground arith in
    (
      [],
      m,
      refl,
      refl,
      rw (some_node, read-ok h a (node u null) l.1)
          (returns (record {
            same_memory = refl;
            cells = [];
            linked = l;
            holds = refl;
            freed = λ q there away. cc;
            among = λ q there. there;
            shorter = omega arith;
            outside = λ q away. refl;
          })),
    )
sweep_nodes-Swept (suc fuel) clock m h a u ((b, w) ∷ xs) enough l live =
    let some_node : (a == null) ≡ false = let pos = l.0 in ground arith in
    let more : (b == null) ≡ false = let pos = l.3.0 in ground arith in
    let run = session_expired-run clock m w (live w (ground arith)) in
    let m₁ = later m (m.calls + 1) in
    let here = read-ok h a (node u b) l.1 in
    let there = read-ok h b (node w (head_of xs)) l.3.1 in
    let live₁ : AllLive m₁ (sessions xs) = λ p i. live p (ground arith) in
    elim (Bool-cases (ltb (m.cell w).expire (clock m.calls))) [
      | inl dead ↦
          let (h₁, cut, l₁, gone, same) = unlink_next-ok h a u b w xs l in
          let (ps, m', runs, alive, r) =
            sweep_nodes-Swept fuel clock m₁ h₁ a u xs (omega arith) l₁ live₁ in
          (
            ps,
            m',
            rw (run, runs, dead) refl,
            alive,
            rw (some_node, here, more, there, run, dead, cut)
                (Returns-mono r (λ x s. Swept-cut l gone same s)),
          )
      | inr lives ↦
          let (ps, m', runs, alive, r) =
            sweep_nodes-Swept fuel clock m₁ h b w xs (omega arith) l.3 live₁ in
          (
            w ∷ ps,
            m',
            rw (run, runs, lives) refl,
            alive,
            rw (some_node, here, more, there, run, lives) (Returns-mono r (λ x s. Swept-keep l s)),
          )
    ]
