-- ===== src/Session/Nodes/Hash/Clean.antt =====
-- `clean_expired_session` of src/lib/session_struct.c on nodes does what it does on chains.
use benker_vpn.Base.{
  ℕ, zero, suc, ◌+◌, ◌≤◌, ◌<◌, ◌≡◌, refl, ap, sym, subst, ◌∙◌, Bool, true, false, arith, [], ◌∷◌,
  ok, Run, Agree, both_return, Returns-value, Bool-cases, inl, inr,
}
use benker_vpn.Session
use benker_vpn.Session.{Ptr, Memory, Chain, Clock, Table, sweep, delete_expired_session}
use benker_vpn.Session.Search.{AllLive, has}
use benker_vpn.Session.Clean.{later}
use benker_vpn.Session.Safe.Part.{delete_expired_session-Thinned}
use benker_vpn.Session.Nodes.{Heap, delete_expired_nodes, null}
use benker_vpn.Session.Nodes.Linked.{stands, Linked, Cells}
use benker_vpn.Session.Nodes.Expire.{delete_expired_nodes-Leaves}
use benker_vpn.Session.Nodes.Hash
use benker_vpn.Session.Nodes.Hash.{HashTable, Nodes, fuel}
use benker_vpn.Session.Nodes.Hash.Represents.{
  Represents, heads, chains, chains-with_chain, chosen, with_head, with_chain, exchanged,
}

null_out : (h : Heap) (xs : Cells) → Linked h xs → stands null xs ≡ false
null_out h [] l = refl
null_out h ((a, s) ∷ xs) (pos, at, once, rest) = ground (arith, null_out h xs rest)

abbrev pub LiveChains : Memory → Table → Type 0
LiveChains m c = (k : Bool) (i : ℕ) → AllLive m (chains c k i)

LiveChains-with_chain :
    (m : Memory) (c : Table) (k : Bool) (i : ℕ) (ps : Chain)
    → LiveChains m c
    → ((p : Ptr) → has p ps ≡ true → has p (chains c k i) ≡ true)
    → LiveChains m (with_chain c k i ps)
LiveChains-with_chain m c k i ps live part k' j = elim (Bool-cases (chosen k i k' j)) [
  | inl same ↦ rw (chains-with_chain c k i ps k' j, same) (λ p h. live k i p (part p h))
  | inr other ↦ rw (chains-with_chain c k i ps k' j, other) (live k' j)
]

same_parts :
    {ps qs : Chain} {m m' : Memory}
    → Path (Run (Chain × Memory)) (ok (ps, m)) (ok (qs, m'))
    → (ps ≡ qs) × (m ≡ m')
same_parts e = (cc, cc)

-- One list loses its expired nodes.
module _ {ns : Nodes} {t : HashTable} {c : Table} (r : Represents ns t c) where
  abbrev Cleans : Clock → Memory → (k : Bool) (i : ℕ) → Type 0
  Cleans clock m k i =
      (ps : Chain) × (n : ℕ) × (delete_expired_session clock m (chains c k i) ≡ ok (ps, later m n))
      × ((p : Ptr) → has p ps ≡ true → has p (chains c k i) ≡ true)
      × (head : Ptr) × (h : Heap) × (delete_expired_nodes (fuel ns) clock m ns.heap (heads t k i)
          ≡ ok (head, h, later m n))
      × Represents (record ns { heap = h }) (with_head t k i head) (with_chain c k i ps)

  cleaned :
      (clock : Clock) (m : Memory) (k : Bool) (i : ℕ)
      → i < c.len
      → AllLive m (chains c k i)
      → Cleans clock m k i
  cleaned clock m k i inside live =
      let few = r.short k i in
      let (ps, n, run, more, t) =
        delete_expired_session-Thinned clock m m.calls (chains c k i) live in
      let part = t.part in
      let (ps', m', run', left) =
        delete_expired_nodes-Leaves (fuel ns) clock m ns.heap (r.cells k i) (omega arith)
          (r.linked k i) (rw (r.holds k i) live) in
      let ((head, h, m''), runs, (same, l)) = Returns-value left in
      let (same_chain, same_later) =
        same_parts (sym run' ∙ ap (delete_expired_session clock m) (r.holds k i) ∙ run) in
      let same_memory : m'' ≡ later m n = same ∙ same_later in
      let l' = rw same_chain at l in
      (
        ps,
        n,
        run,
        part,
        head,
        h,
        ap (delete_expired_nodes (fuel ns) clock m ns.heap) (r.starts k i)
            ∙ runs
            ∙ ap (λ (x : Memory). ok (head, h, x)) same_memory,
        exchanged r k i null l' (λ k' j. null_out ns.heap (r.cells k' j) (r.linked k' j)) ns.spare
            (omega arith) r.spare_pos (omega arith) inside,
      )

abbrev pub SameTable : Memory × Nodes × HashTable → Memory × Table → Type 0
SameTable (m, ns, t) (m', c) = (m ≡ m') × Represents ns t c

clean_lists-Agree :
    (clock : Clock) (left i : ℕ) (m : Memory) (ns : Nodes) (t : HashTable) (c : Table)
    → Represents ns t c
    → LiveChains m c
    → i + left ≤ c.len
    → Agree SameTable (Hash.clean_lists clock left i m ns t) (Session.clean_lists clock left i m c)
unfolding Hash.clean_lists Session.clean_lists
clean_lists-Agree clock zero i m ns t c r live inside = both_return (refl, r)
clean_lists-Agree clock (suc left) i m ns t c r live inside =
    let (ps, n, run, part, p, h, runs, r₁) =
      cleaned r clock m false i (omega arith) (live false i) in
    let live₁ = LiveChains-with_chain m c false i ps live part in
    let (qs, n', run', part', q, h', runs', r₂) =
      cleaned r₁ clock (later m n) true i (omega arith) (live₁ true i) in
    rw (run, runs, run', runs')
      (clean_lists-Agree clock left (i + 1) (later m n') (record ns { heap = h' })
        (with_head (with_head t false i p) true i q)
        (with_chain (with_chain c false i ps) true i qs) r₂
        (LiveChains-with_chain m (with_chain c false i ps) true i qs live₁ part') (omega arith))

-- On nodes that represent a table of allocated sessions `clean_expired_session` leaves the memory that
-- it leaves on the chains, and nodes that represent the table which it leaves there.
pub clean_expired_session-Agree :
    (clock : Clock) (m : Memory) (ns : Nodes) (t : HashTable) (c : Table)
    → Represents ns t c
    → LiveChains m c
    → Agree SameTable
        (Hash.clean_expired_session clock m ns t)
        (Session.clean_expired_session clock m c)
unfolding Hash.clean_expired_session Session.clean_expired_session
clean_expired_session-Agree clock m ns t c r live =
    subst
      (λ len.
        Agree SameTable (Hash.clean_lists clock len 0 m ns t)
          (Session.clean_lists clock c.len 0 m c))
      (sym r.same_len) (clean_lists-Agree clock c.len 0 m ns t c r live (omega arith))
