-- ===== src/Session/Nodes/Insert.antt =====
-- `insert_tcp_session` of src/lib/session_struct.c on nodes appends to the list.
use benker_vpn.Base.{
  ℕ, zero, suc, ◌+◌, ◌≤◌, if◌then◌else◌, ◌<◌, ◌≡◌, refl, ap, ◌∙◌, true, false, ◌||◌, arith, ◌==◌,
  none, [], ◌∷◌, Returns, returns, Returns-bind, Returns-mono,
}
use benker_vpn.Session.{Ptr, Chain, insert_tcp_session}
use benker_vpn.Session.Nodes.{node, null, Heap, write, set_next, append_node, insert_node}
use benker_vpn.Session.Nodes.Linked.{Cells, sessions, stands, head_of, size, Linked, read-ok}

abbrev snoc : Cells → Ptr → Ptr → Cells
snoc [] new s = (new, s) ∷ []
snoc (x ∷ xs) new s = x ∷ snoc xs new s

sessions-snoc :
    (xs : Cells) (new s : Ptr) → sessions (snoc xs new s) ≡ insert_tcp_session (sessions xs) s
unfolding insert_tcp_session
sessions-snoc [] new s = refl
sessions-snoc ((b, u) ∷ xs) new s = ap (λ ys. u ∷ ys) (sessions-snoc xs new s)

stands-snoc :
    (a : Ptr) (xs : Cells) (new s : Ptr) → stands a (snoc xs new s) ≡ (stands a xs || (a == new))
stands-snoc a [] new s = ground arith
stands-snoc a ((b, u) ∷ xs) new s = ground (arith, stands-snoc a xs new s)

size-snoc : (xs : Cells) (new s : Ptr) → size (snoc xs new s) ≡ size xs + 1
size-snoc [] new s = refl
size-snoc (x ∷ xs) new s = omega (arith, size-snoc xs new s)

size-snoc_le :
    (xs : Cells) (new s : Ptr)
    → 0 < new
    → size (snoc xs new s) ≤ size xs + (if new == null then 0 else 1)
size-snoc_le xs new s pos = ground (arith, size-snoc xs new s)

-- `h'` holds the list `xs` with a new node at its end, and is `h` outside of it.
pub record Appended (h : Heap) (xs : Cells) (new s : Ptr) (h' : Heap) : Type 0 where
  pub linked : Linked h' (snoc xs new s)
  pub outside : (q : Ptr) → stands q xs ≡ false → (q == new) ≡ false → h' q ≡ h q

append_node-Appended :
    (fuel : ℕ) (h : Heap) (new a u : Ptr) (xs : Cells) (s : Ptr)
    → size xs < fuel
    → 0 < new
    → stands new ((a, u) ∷ xs) ≡ false
    → Linked h ((a, u) ∷ xs)
    → Returns (Appended h ((a, u) ∷ xs) new s) (append_node fuel h new a s)
unfolding append_node set_next write
append_node-Appended zero h new a u xs s enough pos out l = absurd (omega arith)
append_node-Appended (suc fuel) h new a u [] s enough pos out (pos', at, once, rest) =
    rw (read-ok h a (node u null) at) (
      returns (record {
        linked = (pos', ground arith, ground arith, (pos, ground arith, refl, tt));
        outside = λ q away other. ground arith;
      }))
append_node-Appended (suc fuel) h new a u ((b, w) ∷ xs) s enough pos out (pos', at, once, rest) =
    let more : (b == null) ≡ false = ground arith in
    rw (read-ok h a (node u b) at, more)
      (Returns-mono (append_node-Appended fuel h new b w xs s (omega arith) pos (ground arith) rest)
        (λ h' r. record {
          linked = (
            pos',
            r.outside a once (ground arith) ∙ at,
            ground (arith, stands-snoc a ((b, w) ∷ xs) new s),
            r.linked,
          );
          outside = λ q away other. r.outside q (ground arith) other;
        }))

-- What a list function leaves where the chain function leaves `ps`: nodes that hold `ps`, each of
-- the old ones that is not among them freed, no other one added but `spare`, and everything else
-- untouched.
pub record Leaves (h : Heap) (xs : Cells) (spare : Ptr) (ps : Chain) (r : Ptr × Heap) : Type 0 where
  pub cells : Cells
  pub starts : r.0 ≡ head_of cells
  pub linked : Linked r.1 cells
  pub holds : sessions cells ≡ ps
  pub freed : (q : Ptr) → stands q xs ≡ true → stands q cells ≡ false → r.1 q ≡ none
  pub shorter : size cells ≤ size xs + (if spare == null then 0 else 1)
  pub among : (q : Ptr) → stands q cells ≡ true → (stands q xs || (q == spare)) ≡ true
  pub outside : (q : Ptr) → stands q xs ≡ false → stands q cells ≡ false → r.1 q ≡ h q

-- `insert_tcp_session` on the nodes of a list, with enough fuel for its nodes and a new node from
-- `calloc` that is not one of them, does not fault, and leaves a list of nodes that holds what
-- the chain holds after the insertion; it writes to no other node.
pub insert_node-Leaves :
    (fuel : ℕ) (h : Heap) (new : Ptr) (xs : Cells) (s : Ptr)
    → size xs < fuel
    → 0 < new
    → stands new xs ≡ false
    → Linked h xs
    → Returns
        (Leaves h xs new (insert_tcp_session (sessions xs) s))
        (insert_node fuel h new (head_of xs) s)
unfolding insert_node insert_tcp_session write
insert_node-Leaves fuel h new [] s enough pos out l = returns (record {
  cells = (new, s) ∷ [];
  starts = refl;
  linked = (pos, ground arith, refl, tt);
  holds = refl;
  freed = λ q there away. cc;
  shorter = ground arith;
  among = λ q there. ground arith;
  outside = λ q away other. ground arith;
})
insert_node-Leaves fuel h new ((a, u) ∷ xs) s enough pos out l =
    let some_node : (a == null) ≡ false = let first = l.0 in ground arith in
    rw some_node (
      Returns-bind (append_node-Appended fuel h new a u xs s (omega arith) pos out l) (λ h' r.
        returns (record {
          cells = snoc ((a, u) ∷ xs) new s;
          starts = refl;
          linked = r.linked;
          holds = sessions-snoc ((a, u) ∷ xs) new s;
          freed = λ q there away. absurd (ground (arith, stands-snoc q ((a, u) ∷ xs) new s));
          shorter = size-snoc_le ((a, u) ∷ xs) new s pos;
          among = λ q there. ground (arith, stands-snoc q ((a, u) ∷ xs) new s);
          outside =
              λ q away other. r.outside q away (ground (arith, stands-snoc q ((a, u) ∷ xs) new s));
        })))
