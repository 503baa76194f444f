-- ===== src/Session/Nodes/Hash/Add.antt =====
-- `add_tcp_session` of src/lib/session_struct.c on nodes does what it does on chains.
use benker_vpn.Base.{
  ℕ, zero, suc, ◌+◌, ◌-◌, ◌%◌, ◌<◌, ◌≡◌, refl, ap, sym, subst, ◌∙◌, Bool, true, false, arith, ltb,
  ◌==◌, ◌>>=◌, Option-cases, Option, some, u16, u32, int_zero, Run, Agree, both_return, both_fault,
  Agree-bind, Agree-same, Returns, returns, Returns-bind, Returns-value, Bool-cases, inl, inr,
}
use benker_vpn.Session
use benker_vpn.Session.{Ptr, Memory, Clock, Table, rem}
use benker_vpn.Session.Nodes.Linked.{stands, search_nodes_by_client_lem, search_nodes_by_server_lem}
use benker_vpn.Session.Nodes.{search_nodes_by_client, search_nodes_by_server}
use benker_vpn.Session.Nodes.Insert.{insert_node-Leaves}
use benker_vpn.Session.Nodes.Hash
use benker_vpn.Session.Nodes.Hash.{HashTable, Nodes, fuel}
use benker_vpn.Session.Nodes.Hash.Represents.{
  Represents, heads, chains, with_head, with_chain, exchanged,
}

-- A remainder lies below the divisor.
pub rem-Agree :
    {A B : Type 0} {S : A → B → Type 0} {k : ℕ → Run A} {k' : ℕ → Run B} (x : ℕ) {y z : ℕ}
    → y ≡ z
    → ((i : ℕ) → i < z → Agree S (k i) (k' i))
    → Agree S (rem x y >>= k) (rem x z >>= k')
unfolding rem
rem-Agree x {z} e next = rw e (elim (Bool-cases (z == 0)) [
  | inl empty ↦ rw empty both_fault
  | inr some_list ↦ rw some_list (next (x % z) (ground arith))
])

module _ {ns : Nodes} {t : HashTable} {c : Table} (r : Represents ns t c) where
  pub renumbered : (n : ℕ) → Represents ns (record t { next_num = n }) (record c { next_num = n })
  renumbered n = record {
    cells = r.cells;
    side = r.side;
    place = r.place;
    starts = r.starts;
    holds = r.holds;
    linked = r.linked;
    home = r.home;
    owned = r.owned;
    short = r.short;
    spare_pos = r.spare_pos;
    same_len = r.same_len;
    same_min = r.same_min;
    same_mod = r.same_mod;
    same_next = refl;
  }

  pub client_search :
      (m : Memory) (i ip port : ℕ)
      → search_nodes_by_client (fuel ns) m ns.heap (t.list_client_key i) ip port
        ≡ Session.search_tcp_session_by_client m (c.list_client_key i) ip port
  client_search m i ip port =
      let few = r.short false i in
      ap (λ p. search_nodes_by_client (fuel ns) m ns.heap p ip port) (r.starts false i)
      ∙ search_nodes_by_client_lem (fuel ns) m ns.heap (r.cells false i) ip port (omega arith)
          (r.linked false i)
      ∙ ap (λ ps. Session.search_tcp_session_by_client m ps ip port) (r.holds false i)

  pub server_search :
      (m : Memory) (i port : ℕ)
      → search_nodes_by_server (fuel ns) m ns.heap (t.list_server_key i) port
        ≡ Session.search_tcp_session_by_server m (c.list_server_key i) port
  server_search m i port =
      let few = r.short true i in
      ap (λ p. search_nodes_by_server (fuel ns) m ns.heap p port) (r.starts true i)
      ∙ search_nodes_by_server_lem (fuel ns) m ns.heap (r.cells true i) port (omega arith)
          (r.linked true i)
      ∙ ap (λ ps. Session.search_tcp_session_by_server m ps port) (r.holds true i)

  spare_new : (k : Bool) (i : ℕ) → stands ns.spare (r.cells k i) ≡ false
  spare_new k i = elim (Bool-cases (stands ns.spare (r.cells k i))) [
    | inr away ↦ away
    | inl here ↦ absurd (omega (arith, r.home k i ns.spare here))
  ]

  -- A session at the end of a list.
  inserted :
      (k : Bool) (i session : ℕ)
      → i < c.len
      → Returns
          (λ x.
            Represents x.1
              (with_head t k i x.0)
              (with_chain c k i (Session.insert_tcp_session (chains c k i) session)))
          (Hash.insert_tcp_session ns (heads t k i) session)
  unfolding Hash.insert_tcp_session
  inserted k i session inside =
      let few = r.short k i in
      let pos = r.spare_pos in
      rw (r.starts k i) (
        Returns-bind
          (insert_node-Leaves (fuel ns) ns.heap ns.spare (r.cells k i) session (omega arith) pos
            (spare_new k i) (r.linked k i))
          (λ x l. returns (
            rw (← r.holds k i) (
              exchanged r k i ns.spare l spare_new (ns.spare + 1) (omega arith) (omega arith)
                (ground arith) inside))))

-- What the code leaves on nodes, and on chains.
abbrev pub SameResult : {A : Type 0} → A × Memory × Nodes × HashTable → A × Memory × Table → Type 0
SameResult (a, m, ns, t) (a', m', c) = (a ≡ a') × (m ≡ m') × Represents ns t c

-- While the loop runs nodes stay as they are.
abbrev SameClaim : Nodes → ℕ → Option ℕ × HashTable → Option ℕ × Table → Type 0
SameClaim ns len (o, t) (o', c) = (o ≡ o') × Represents ns t c × (c.len ≡ len)

next_number :
    {ns : Nodes} {t : HashTable} {c : Table}
    → Represents ns t c
    → Represents ns
        (record t { next_num = u32 (t.next_num + 1) })
        (record c { next_num = u32 (c.next_num + 1) })
next_number {c} r = rw r.same_next (renumbered r (u32 (c.next_num + 1)))

claim_port-Agree :
    (ns : Nodes) (m : Memory) (rounds count : ℕ) (t : HashTable) (c : Table)
    → Represents ns t c
    → Agree
        (SameClaim ns c.len)
        (Hash.claim_port ns m rounds count t)
        (Session.claim_port m rounds count c)
unfolding Hash.claim_port Session.claim_port
claim_port-Agree ns m zero count t c r = both_fault
claim_port-Agree ns m (suc rounds) count t c r =
    rw (r.same_next, r.same_mod, r.same_min, r.same_len)
      (Agree-same (rem c.next_num c.mod_num) (λ x.
        Agree-same (rem (u16 (x + c.min_port)) c.len) (λ i.
          rw (server_search r m i (u16 (x + c.min_port))) (
            Agree-same
              (Session.search_tcp_session_by_server m (c.list_server_key i) (u16 (x + c.min_port)))
              (λ session. elim (Option-cases session) [
                | inl e ↦ rw e (both_return (rw r.same_min refl, next_number r, refl))
                | inr (p, e) ↦
                    let width = r.same_mod in
                    rw e (elim (Bool-cases (ltb (c.mod_num + int_zero) (count + 1))) [
                      | inl full ↦
                          let full' : ltb (t.mod_num + int_zero) (count + 1) ≡ true =
                            rw width full in
                          rw (full, full') (both_return (refl, next_number r, refl))
                      | inr more ↦
                          let more' : ltb (t.mod_num + int_zero) (count + 1) ≡ false =
                            rw width more in
                          rw (more, more')
                            (claim_port-Agree ns m rounds (count + 1)
                              (record t { next_num = u32 (t.next_num + 1) })
                              (record c { next_num = u32 (c.next_num + 1) }) (next_number r))
                    ])
              ])))))

-- The new session in both lists.
new_session-Agree :
    (clock : Clock) (m : Memory) (ns : Nodes) (t : HashTable) (c : Table)
    (i ip port server_port timeout : ℕ)
    → Represents ns t c
    → i < c.len
    → Agree SameResult
        (Hash.new_session clock m ns t i ip port server_port timeout)
        (Session.new_session clock m c i ip port server_port timeout)
unfolding Hash.new_session Session.new_session
new_session-Agree clock m ns t c i ip port server_port timeout r inside =
    rem-Agree server_port r.same_len (λ j below.
      let (x, run, r₁) = Returns-value (inserted r false i m.next inside) in
      let (y, run', r₂) = Returns-value (inserted r₁ true j m.next below) in
      rw (run, run') (both_return (refl, refl, r₂)))

-- On nodes that represent a table `add_tcp_session` ends as it does on the chains, with the same session
-- and memory, and leaves nodes that represent the table which it leaves there; it faults where it faults
-- there.
pub add_tcp_session-Agree :
    (clock : Clock) (count : ℕ) (m : Memory) (ns : Nodes) (t : HashTable) (c : Table)
    (ip port timeout : ℕ)
    → Represents ns t c
    → Agree SameResult
        (Hash.add_tcp_session clock count m ns t ip port timeout)
        (Session.add_tcp_session clock count m c ip port timeout)
unfolding Hash.add_tcp_session Session.add_tcp_session Session.claim_fuel
add_tcp_session-Agree clock count m ns t c ip port timeout r =
    rem-Agree (u32 (ip + port)) r.same_len (λ i inside. rw (client_search r m i ip port) (
      Agree-same (Session.search_tcp_session_by_client m (c.list_client_key i) ip port) (λ session.
        elim (Option-cases session) [
          | inr (p, e) ↦ rw e (both_return (refl, refl, r))
          | inl e ↦ rw e (
              Agree-bind
                (subst
                  (λ width.
                    Agree (SameClaim ns c.len)
                      (Hash.claim_port ns m (suc (width + int_zero - count)) count t)
                      (Session.claim_port m (suc (c.mod_num + int_zero - count)) count c))
                  (sym r.same_mod)
                  (claim_port-Agree ns m (suc (c.mod_num + int_zero - count)) count t c r))
                (λ (o, t') (o', c') (same, r', len). elim (Option-cases o') [
                  | inl e' ↦ rw (same ∙ e', e') (both_return (refl, refl, r'))
                  | inr (q, e') ↦
                      rw (same ∙ e', e')
                        (Agree-bind
                          (new_session-Agree clock m ns t' c' i ip port q timeout r'
                            (rw len inside))
                          (λ (p, m₁, ns₁, t₂) (p', m₂, c₂) (e, e'', r₂).
                            both_return (ap (λ x. some x) e, e'', r₂)))
                ]))
        ])))
