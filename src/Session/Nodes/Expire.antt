-- ===== src/Session/Nodes/Expire.antt =====
-- `delete_expired_session` of src/lib/session_struct.c on nodes takes the expired ones out.
pub mod Sweep
use benker_vpn.Base.{
  ℕ, ◌+◌, ◌<◌, ◌≡◌, refl, ap, ◌∙◌, true, false, arith, ltb, ◌==◌, none, [], ◌∷◌, ok, Returns,
  returns, Returns-value, Bool-cases, inl, inr,
}
use benker_vpn.Session.{Ptr, Memory, Chain, Clock, delete_expired_session}
use benker_vpn.Session.Search.{AllLive}
use benker_vpn.Session.Clean.{later, session_expired-run}
use benker_vpn.Session.Nodes.{node, null, Heap, write, free_node, delete_expired_nodes}
use benker_vpn.Session.Nodes.Linked.{Cells, sessions, head_of, size, Linked, read-ok, Linked-write}
use benker_vpn.Session.Nodes.Insert.{Leaves}
use benker_vpn.Session.Nodes.Expire.Sweep.{Swept, sweep_nodes-Swept}

-- The first node is freed too, or it stays.
Swept-first_out :
    {h h₁ : Heap} {a u : Ptr} {xs : Cells} {ps : Chain} {m' m₁ : Memory}
    (s : Swept h a u xs ps m' (h₁, m₁))
    → Leaves h ((a, u) ∷ xs) null ps (head_of s.cells, write h₁ a none)
unfolding write
Swept-first_out {h₁} {a} {xs} s = record {
  cells = s.cells;
  starts = refl;
  linked = Linked-write h₁ a none s.cells s.linked.2 s.linked.3;
  holds = s.holds;
  freed = λ q i away. elim (Bool-cases (a == q)) [
    | inl first ↦ rw first refl
    | inr behind ↦ rw behind (s.freed q (ground arith) away)
  ];
  shorter = let few = s.shorter in omega arith;
  among = λ q there. ground (arith, s.among q);
  outside =
      λ q away other. let behind : (a == q) ≡ false = ground arith in rw behind (s.outside q away);
}

Swept-first_stays :
    {h h₁ : Heap} {a u : Ptr} {xs : Cells} {ps : Chain} {m' m₁ : Memory}
    → Swept h a u xs ps m' (h₁, m₁)
    → Leaves h ((a, u) ∷ xs) null (u ∷ ps) (a, h₁)
Swept-first_stays {a} {u} s = record {
  cells = (a, u) ∷ s.cells;
  starts = refl;
  linked = s.linked;
  holds = ap (λ ys. u ∷ ys) s.holds;
  freed = λ q i away. s.freed q (ground arith) (ground arith);
  shorter = let few = s.shorter in omega arith;
  among = λ q there. ground (arith, s.among q);
  outside = λ q away other. s.outside q away;
}

-- What is left of the memory and of the nodes.
abbrev pub LeavesAll : Memory → Heap → Cells → Chain → Ptr × Heap × Memory → Type 0
LeavesAll m' h xs ps (p, h', m'') = (m'' ≡ m') × Leaves h xs null ps (p, h')

-- `delete_expired_session` on the nodes of a list whose sessions are allocated, with enough fuel for
-- its nodes, does not fault: it leaves a list of nodes that holds what the chain holds afterwards,
-- has freed every other node of the list, and has written to no node outside it.
pub delete_expired_nodes-Leaves :
    (fuel : ℕ) (clock : Clock) (m : Memory) (h : Heap) (xs : Cells)
    → size xs < fuel
    → Linked h xs
    → AllLive m (sessions xs)
    → (ps : Chain) × (m' : Memory) × (delete_expired_session clock m (sessions xs) ≡ ok (ps, m'))
      × Returns (LeavesAll m' h xs ps) (delete_expired_nodes fuel clock m h (head_of xs))
unfolding delete_expired_nodes delete_expired_session free_node
delete_expired_nodes-Leaves fuel clock m h [] enough l live = (
  [],
  m,
  refl,
  returns (
    refl,
    record {
      cells = [];
      starts = refl;
      linked = tt;
      holds = refl;
      freed = λ q there away. cc;
      shorter = omega arith;
      among = λ q there. cc;
      outside = λ q away other. refl;
    },
  ),
)
delete_expired_nodes-Leaves fuel clock m h ((a, u) ∷ xs) enough l live =
    let some_node : (a == null) ≡ false = let pos = l.0 in ground arith in
    let (ps, m', runs, alive, r) =
      sweep_nodes-Swept fuel clock m h a u xs (omega arith) l (λ p i. live p (ground arith)) in
    let ((h₁, m₁), swept, s) = Returns-value r in
    let live_u : m'.live u ≡ true = ap (λ f. f u) alive ∙ live u (ground arith) in
    let run = session_expired-run clock m' u live_u in
    let here = read-ok h₁ a (node u (head_of s.cells)) s.linked.1 in
    let same : Path (Heap × Memory) (h₁, m₁) (h₁, m') =
      ap (λ (x : Memory). (h₁, x)) s.same_memory in
    elim (Bool-cases (ltb (m'.cell u).expire (clock m'.calls))) [
      | inl dead ↦ (
        ps,
        later m' (m'.calls + 1),
        rw (runs, run, dead) refl,
        rw (some_node, swept ∙ ap (λ (x : Heap × Memory). ok x) same, here, run, dead)
            (returns (refl, Swept-first_out s)),
      )
      | inr lives ↦ (
        u ∷ ps,
        later m' (m'.calls + 1),
        rw (runs, run, lives) refl,
        rw (some_node, swept ∙ ap (λ (x : Heap × Memory). ok x) same, here, run, lives)
            (returns (refl, Swept-first_stays s)),
      )
    ]
