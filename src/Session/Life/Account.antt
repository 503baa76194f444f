-- ===== src/Session/Life/Account.antt =====
-- What becomes of the sessions in the life of a table of src/lib/session_struct.c, under any clock.
use benker_vpn.Base.{
  ℕ, ◌-◌, ◌<◌, ◌≤◌, ◌≡◌, ap, ◌∙◌, true, arith, Option, List, [], ◌∷◌, Returns, returns,
  Returns-bind, Returns-mono, inl, inr, ◌⊎◌,
}
use benker_vpn.Session
use benker_vpn.Session.{Session, Ptr, Memory, Clock, Table, alloc}
use benker_vpn.Session.Safe.{IsSafe, init_hash_table-IsSafe}
use benker_vpn.Session.Safe.Part.{Passed, Passed-wider}
use benker_vpn.Session.Delete.{safe_delete_hash_table-Freed}
use benker_vpn.Session.Life.{Operation, serve}
use benker_vpn.Session.Life.Step.{apart, Stepped, operate-Stepped}

-- What the whole life does to the sessions.
pub record Accounted (clock : Clock) (m : Memory) (c : Table) (m' : Memory) : Type 0 where
  pub more_calls : m.calls ≤ m'.calls
  pub same_cells : (q : Ptr) → m.live q ≡ true → m'.cell q ≡ m.cell q
  pub kept_apart : (q : Ptr) → apart m c q ≡ true → m'.live q ≡ true
  pub left :
      (q : Ptr)
      → m'.live q ≡ true
      → (apart m c q ≡ true) ⊎ Passed clock m.calls m'.calls (m'.cell q).expire

Accounted-after :
    {clock : Clock} {m : Memory} {c : Table} {r : Option Ptr × Memory × Table} {m' : Memory}
    → Stepped clock m c r
    → Accounted clock r.1 r.2 m'
    → Accounted clock m c m'
Accounted-after {m} {r} {m'} d f =
    let first = d.more_calls in
    let second = f.more_calls in
    record {
      more_calls = omega arith;
      same_cells = λ q l. let (l', e) = d.same q l in f.same_cells q l' ∙ e;
      kept_apart = λ q h. f.kept_apart q (d.kept_apart q h);
      left = λ q h. elim (f.left q h) [
        | inr passed ↦ inr (Passed-wider m.calls m'.calls first (omega arith) passed)
        | inl out ↦ elim (d.left q out) [
          | inl before ↦ inl before
          | inr passed ↦
              let e = f.same_cells q (ground arith) in
              inr (rw e (Passed-wider m.calls m'.calls (omega arith) second passed))
        ]
      ];
    }

serve-Accounted :
    (clock : Clock) (os : List Operation) (m : Memory) (c : Table)
    → IsSafe m c
    → Returns (λ x. Accounted clock m c x.1) (serve clock os m c)
unfolding serve
serve-Accounted clock [] m c v = Returns-bind (safe_delete_hash_table-Freed m c v) (λ m' f.
    let same_calls = f.same_calls in
    returns (record {
      more_calls = omega arith;
      same_cells = λ q l. ap (λ g. g q) f.same_cells;
      kept_apart = λ q h. ground (arith, f.live q);
      left = λ q h. inl (ground (arith, f.live q));
    }))
serve-Accounted clock (o ∷ os) m c v = Returns-bind (operate-Stepped clock o m c v) (λ r d.
    Returns-bind (serve-Accounted clock os r.1 r.2 d.safe) (λ z f. returns (Accounted-after d f)))

-- What was allocated before still is, with its contents; all else that is has expired.
abbrev pub Outlives : Clock → Memory → Memory → Type 0
Outlives clock m m' =
    (q : Ptr)
    → (m.live q ≡ true → (m'.live q ≡ true) × (m'.cell q ≡ m.cell q))
      × (m'.live q ≡ true → (m.live q ≡ true) ⊎ Passed clock m.calls m'.calls (m'.cell q).expire)

-- After `init_hash_table`, any calls and `delete_hash_table`, for at least one list and for the ports
-- from `min_port` to `max_port`, where these are not all 65536, in a memory whose allocated addresses
-- lie below the next, and whatever `time(NULL)` returns: nothing faults, every session that was
-- allocated before still is, with its contents, and any other that is still allocated had expired by
-- one of the calls of `time(NULL)` in between.
pub life-Accounted :
    (clock : Clock) (os : List Operation) (m : Memory) (num_entry min_port max_port : ℕ)
    → ((p : Ptr) → m.live p ≡ true → p < m.next)
    → 0 < num_entry
    → min_port ≤ max_port
    → max_port < 65536
    → max_port - min_port < 65535
    → Returns
        (λ x. Outlives clock m x.1)
        (serve clock os m (Session.init_hash_table num_entry min_port max_port))
unfolding Session.init_hash_table
life-Accounted clock os m num_entry min_port max_port fresh pos order top room =
    Returns-mono
      (serve-Accounted clock os m (Session.init_hash_table num_entry min_port max_port)
        (init_hash_table-IsSafe m num_entry min_port max_port fresh pos order top room))
      (λ x a q. (
        λ l. (a.kept_apart q (ground arith), a.same_cells q l),
        λ l. elim (a.left q l) [ inl out ↦ inl (ground arith) | inr passed ↦ inr passed ],
      ))
