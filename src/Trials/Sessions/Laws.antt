-- ===== src/Trials/Sessions/Laws.antt =====
-- Who owns the memory that `main4` of src/server/main_trial.c allocates.
use benker_vpn.Base.{
  ℕ, zero, suc, ◌+◌, ◌<◌, ◌≡◌, inl, inr, refl, ok, ap, ◌∙◌, true, false, ◌||◌, arith, Option, List,
  Returns, returns, Returns-value, u32, Option-cases,
}
use benker_vpn.Session.{Ptr, Memory, Table, Clock, delete_hash_table, init_hash_table, alloc}
use benker_vpn.Session.Valid.{IsValid, listed, init_hash_table-IsValid, renumber-IsValid}
use benker_vpn.Session.Clean.{later}
use benker_vpn.Session.Print.{Lines, print_session_hash_table-OnlyCalls}
use benker_vpn.Session.Delete.{Freed, delete_hash_table-Freed}
use benker_vpn.Session.Port.{candidate, advance}
use benker_vpn.Session.Add.{
  Added, existing, full, created, add_tcp_session-Added, listed_new, fresh_session,
}
use benker_vpn.Session.Lookup.{Added-IsValid}
use benker_vpn.Handler.Store.{later-IsValid}
use benker_vpn.Trials.Sessions.{add_sessions, main4}

-- What is allocated is what was allocated at the start, untouched, and the sessions of the table.
pub record Owns (m₀ m : Memory) (t : Table) : Type 0 where
  pub valid : IsValid m t
  pub live : (q : Ptr) → m.live q ≡ (m₀.live q || listed m t q)
  pub apart : (q : Ptr) → m₀.live q ≡ true → listed m t q ≡ false
  pub same : (q : Ptr) → m₀.live q ≡ true → m.cell q ≡ m₀.cell q

module _ (m₀ : Memory) (clock : Clock) (count : ℕ) (m : Memory) (t : Table) (ip port timeout : ℕ)
    (o : Owns m₀ m t) where
  Added-Owns :
      {r : Option Ptr × Memory × Table} → Added clock count m t ip port timeout r → Owns m₀ r.1 r.2
  Added-Owns (existing p c) = o
  Added-Owns (full k none_such over all) = record {
    valid = Added-IsValid clock count m t ip port timeout o.valid (full k none_such over all);
    live = o.live;
    apart = o.apart;
    same = o.same;
  }
  Added-Owns (created k none_such unused before) =
      let s = fresh_session clock m ip port (candidate t k) timeout in
      let v₁ = renumber-IsValid (u32 (t.next_num + (k + 1))) (omega arith) o.valid in
      let is = listed_new m (advance t (k + 1)) s v₁ in
      let below = λ (q : Ptr) (l : m₀.live q ≡ true). o.valid.fresh q (ground (arith, o.live q)) in
      record {
        valid =
            Added-IsValid clock count m t ip port timeout o.valid
              (created k none_such unused before);
        live = λ q. unfold alloc in ground (arith, o.live q, is q);
        apart = λ q l. ground (arith, o.apart q l, is q, below q l);
        same = λ q l. unfold alloc in ground (arith, o.same q l, below q l);
      }

start-Owns :
    (m₀ : Memory)
    → ((p : Ptr) → m₀.live p ≡ true → p < m₀.next)
    → Owns m₀ m₀ (init_hash_table 100 10000 10010)
unfolding init_hash_table
start-Owns m₀ fresh = record {
  valid =
      init_hash_table-IsValid m₀ 100 10000 10010 fresh (omega arith) (omega arith) (omega arith)
        (omega arith);
  live = λ q. ground arith;
  apart = λ q l. refl;
  same = λ q l. refl;
}

module _ (m₀ : Memory) (clock : Clock) (counts : ℕ → ℕ) where
  add_sessions-Owns :
      (left i : ℕ) (m : Memory) (t : Table)
      → Owns m₀ m t
      → Returns (λ r. Owns m₀ r.0 r.1) (add_sessions clock counts left i m t)
  unfolding add_sessions
  add_sessions-Owns zero i m t o = returns o
  add_sessions-Owns (suc left) i m t o =
      let (r, run, a) = Returns-value (add_tcp_session-Added clock m t i i i (counts i) o.valid) in
      let o' = Added-Owns m₀ clock (counts i) m t i i i o a in
      elim (Option-cases r.0) [
        | inl stop ↦ rw (run ∙ ap (λ (x : Option Ptr). ok (x, r.1, r.2)) stop) (returns o')
        | inr (p, more) ↦
            rw (run ∙ ap (λ (x : Option Ptr). ok (x, r.1, r.2)) more)
              (add_sessions-Owns left (i + 1) r.1 r.2 o')
      ]

  -- `main4` of the trial does not fault, whatever the clock says and `count` holds, in any memory
  -- whose allocated addresses lie below the next: in the end exactly the sessions are allocated that
  -- were allocated at the start, with the contents that they had.
  pub main4-NoLeak :
      ((p : Ptr) → m₀.live p ≡ true → p < m₀.next)
      → Returns
          (λ (r : List Lines × Memory).
            ((q : Ptr) → r.1.live q ≡ m₀.live q)
            × ((q : Ptr) → m₀.live q ≡ true → r.1.cell q ≡ m₀.cell q))
          (main4 clock counts m₀)
  unfolding main4
  main4-NoLeak fresh =
      let t₀ = init_hash_table 100 10000 10010 in
      let start = start-Owns m₀ fresh in
      let (r, adds, o) = Returns-value (add_sessions-Owns 10 0 m₀ t₀ start) in
      let (x, prints, p) =
        Returns-value (print_session_hash_table-OnlyCalls clock r.0 r.1 o.valid) in
      let freed : Returns (λ m'. Freed (later r.0 p.0) m' (listed r.0 r.1))
          (delete_hash_table x.1 r.1) =
        rw p.1 (delete_hash_table-Freed (later r.0 p.0) r.1 (later-IsValid p.0 o.valid)) in
      let (m', deletes, f) = Returns-value freed in
      rw (adds, prints, deletes)
        (returns
          (λ q. ground (arith, f.live q, o.live q, o.apart q), λ q l. rw f.same_cells (o.same q l)))
