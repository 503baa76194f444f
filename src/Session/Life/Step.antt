-- ===== src/Session/Life/Step.antt =====
-- What one call of src/lib/session_struct.c does to the sessions of a table, under any clock.
use benker_vpn.Base.{
  ℕ, ◌%◌, ◌≤◌, ◌≡◌, refl, ap, sym, ◌∙◌, Bool, true, not, ◌&&◌, ◌||◌, arith, Option, none, Returns,
  ◌==◌, Bool-cases, returns, Returns-mono, inl, inr, ◌⊎◌,
}
use benker_vpn.Session.{Session, Ptr, Memory, Clock, Table, alloc}
use benker_vpn.Session.Search.{has}
use benker_vpn.Session.Valid.{listed, server_home}
use benker_vpn.Session.Add.Insert.{memory_with, table_with}
use benker_vpn.Session.Clean.{later}
use benker_vpn.Session.Safe.{
  IsSafe, renumber-IsSafe, with-IsSafe, listed_with, get_by_client-run, get_by_server-run, Extends,
  unchanged, extended, add_tcp_session-Extends,
}
use benker_vpn.Session.Safe.Part.{Passed}
use benker_vpn.Session.Safe.Clean.{Ticked, clean_expired_session-Ticked}
use benker_vpn.Session.Life.{Operation, add, by_client, by_server, clean, operate}

-- Allocated, and in no list of the server.
abbrev pub apart : Memory → Table → Ptr → Bool
apart m c q = m.live q && not (listed m c q)

-- What one call does to the sessions. One that is apart afterwards was so before, or one of the calls of
-- `time(NULL)` has found it expired.
pub record Stepped (clock : Clock) (m : Memory) (c : Table) (r : Option Ptr × Memory × Table)
    : Type 0 where
  pub safe : IsSafe r.1 r.2
  pub more_calls : m.calls ≤ r.1.calls
  pub same : (q : Ptr) → m.live q ≡ true → (r.1.live q ≡ true) × (r.1.cell q ≡ m.cell q)
  pub kept_apart : (q : Ptr) → apart m c q ≡ true → apart r.1 r.2 q ≡ true
  pub left :
      (q : Ptr)
      → apart r.1 r.2 q ≡ true
      → (apart m c q ≡ true) ⊎ Passed clock m.calls r.1.calls (r.1.cell q).expire

stays :
    {clock : Clock} {m : Memory} {c : Table} {o : Option Ptr} (n : ℕ)
    → IsSafe m c
    → Stepped clock m c (o, m, record c { next_num = n })
stays n v = record {
  safe = renumber-IsSafe n v;
  more_calls = omega arith;
  same = λ q l. (l, refl);
  kept_apart = λ q h. h;
  left = λ q h. inl h;
}

module _ (m : Memory) (c : Table) (s : Session) (v : IsSafe m c) where
  same_with :
      (q : Ptr)
      → m.live q ≡ true
      → ((memory_with m s).live q ≡ true) × ((memory_with m s).cell q ≡ m.cell q)
  unfolding alloc
  same_with q l = ground (arith, v.fresh q)

  live_with : (q : Ptr) → (memory_with m s).live q ≡ (m.next == q || m.live q)
  unfolding alloc
  live_with q = ground arith

  apart_with : (q : Ptr) → apart (memory_with m s) (table_with m c s) q ≡ apart m c q
  apart_with q = rw (listed_with m c s v q, live_with q) (ground (arith, v.fresh q))

Extends-Stepped :
    {clock : Clock} {m : Memory} {c : Table} {r : Option Ptr × Memory × Table}
    → IsSafe m c
    → Extends clock m c r
    → Stepped clock m c r
Extends-Stepped v (unchanged o n) = stays n v
Extends-Stepped {m} {c} v (extended n s) =
    let v₁ = renumber-IsSafe n v in
    let c₁ = record c { next_num = n } in
    record {
      safe = with-IsSafe m c₁ s v₁;
      more_calls = omega arith;
      same = same_with m c₁ s v₁;
      kept_apart = λ q h. apart_with m c₁ s v₁ q ∙ h;
      left = λ q h. inl (sym (apart_with m c₁ s v₁ q) ∙ h);
    }

Ticked-Stepped :
    {clock : Clock} {m : Memory} {c c' : Table} {n : ℕ}
    → Ticked clock m m.calls n c c'
    → Stepped clock m c (none, later m n, c')
Ticked-Stepped {m} {c} {c'} {n} d =
    let is : (q : Ptr) → listed (later m n) c' q ≡ has q (c'.list_server_key (server_home m c q)) =
      λ q. ap (λ l. has q (c'.list_server_key ((m.cell q).server_port % l))) d.same_len in
    record {
      safe = d.safe;
      more_calls = d.more_calls;
      same = λ q l. (l, refl);
      kept_apart = λ q h. ground (arith, is q, (d.servers (server_home m c q)).part q);
      left = λ q h. elim (Bool-cases (listed m c q)) [
        | inr out ↦ inl (ground arith)
        | inl inside ↦ elim ((d.servers (server_home m c q)).gone q inside) [
          | inl there ↦ absurd (ground (arith, is q))
          | inr passed ↦ inr passed
        ]
      ];
    }

pub operate-Stepped :
    (clock : Clock) (o : Operation) (m : Memory) (c : Table)
    → IsSafe m c
    → Returns (Stepped clock m c) (operate clock o m c)
unfolding operate
operate-Stepped clock (add count ip port timeout) m c v =
    Returns-mono (add_tcp_session-Extends clock count m c ip port timeout v)
      (λ r e. Extends-Stepped v e)
operate-Stepped clock (by_client ip port) m c v =
    let (o, run) = get_by_client-run v ip port in rw run (returns (stays c.next_num v))
operate-Stepped clock (by_server port) m c v =
    let (o, run) = get_by_server-run v port in rw run (returns (stays c.next_num v))
operate-Stepped clock clean m c v =
    let (n, c', run, d) = clean_expired_session-Ticked clock m c v in
    rw run (returns (Ticked-Stepped d))
