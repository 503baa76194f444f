-- ===== src/Session/Safe/Part.antt =====
-- What `delete_expired_session` of src/lib/session_struct.c leaves of a list, under any clock.
use benker_vpn.Base.{
  ℕ, ◌+◌, ◌≤◌, ◌<◌, ◌≡◌, refl, true, arith, ltb, [], ◌∷◌, Run, ok, ◌⊎◌, inl, inr, Bool-cases,
}
use benker_vpn.Session.{Ptr, Memory, Clock, Chain, sweep, delete_expired_session}
use benker_vpn.Session.Search.{AllLive, Distinct, has}
use benker_vpn.Session.Clean.{later, session_expired-run}

-- One of the calls of `time(NULL)` from `lo` up to `hi` came after the time `expire`.
abbrev pub Passed : Clock → (lo hi expire : ℕ) → Type 0
Passed clock lo hi expire = (n : ℕ) × (lo ≤ n) × (n < hi) × (expire < clock n)

pub Passed-wider :
    {clock : Clock} {lo hi expire : ℕ} (lo' hi' : ℕ)
    → lo' ≤ lo
    → hi ≤ hi'
    → Passed clock lo hi expire
    → Passed clock lo' hi' expire
Passed-wider lo' hi' h h' (n, from, to, dead) = (n, omega arith, omega arith, dead)

-- `rest` is `ps` without some sessions that these calls have found expired.
pub record Part (clock : Clock) (m : Memory) (lo hi : ℕ) (ps rest : Chain) : Type 0 where
  pub part : (p : Ptr) → has p rest ≡ true → has p ps ≡ true
  pub gone :
      (p : Ptr) → has p ps ≡ true → (has p rest ≡ true) ⊎ Passed clock lo hi (m.cell p).expire
  pub once : Distinct ps → Distinct rest

Part-dead :
    {clock : Clock} {m : Memory} {lo hi : ℕ} {ps rest : Chain} (q : Ptr) (k lo' hi' : ℕ)
    → (m.cell q).expire < clock k
    → lo' ≤ k
    → k < hi'
    → lo' ≤ lo
    → hi ≤ hi'
    → Part clock m lo hi ps rest
    → Part clock m lo' hi' (q ∷ ps) rest
Part-dead {m} {ps} q k lo' hi' dead from to below above t = record {
  part = λ p h. ground (arith, t.part p h);
  gone = λ p h. elim (Bool-cases (has p ps)) [
    | inl inside ↦ elim (t.gone p inside) [
      | inl there ↦ inl there
      | inr passed ↦ inr (Passed-wider lo' hi' below above passed)
    ]
    | inr away ↦ let e : p ≡ q = ground arith in inr (k, from, to, rw e dead)
  ];
  once = λ d. t.once d.1;
}

Part-alive :
    {clock : Clock} {m : Memory} {lo hi : ℕ} {ps rest : Chain} (q : Ptr) (lo' hi' : ℕ)
    → lo' ≤ lo
    → hi ≤ hi'
    → Part clock m lo hi ps rest
    → Part clock m lo' hi' (q ∷ ps) (q ∷ rest)
Part-alive {ps} {rest} q lo' hi' below above t = record {
  part = λ p h. ground (arith, t.part p);
  gone = λ p h. elim (Bool-cases (has p ps)) [
    | inl inside ↦ elim (t.gone p inside) [
      | inl there ↦ inl (ground arith)
      | inr passed ↦ inr (Passed-wider lo' hi' below above passed)
    ]
    | inr away ↦ inl (ground arith)
  ];
  once = λ d. (ground (arith, t.part q, d.0), t.once d.1);
}

-- Of the memory only the calls have changed.
abbrev pub Thinned : Clock → Memory → ℕ → Chain → Run (Chain × Memory) → Type 0
Thinned clock m n ps run =
    (rest : Chain) × (n' : ℕ) × (run ≡ ok (rest, later m n')) × (n ≤ n') × Part clock m n n' ps rest

module _ (clock : Clock) (m : Memory) where
  sweep-Thinned :
      (n : ℕ) (ps : Chain) → AllLive m ps → Thinned clock m n ps (sweep clock (later m n) ps)
  unfolding sweep
  sweep-Thinned n [] live =
      ([], n, refl, omega arith, record { part = λ p h. h; gone = λ p h. inl h; once = λ d. d })
  sweep-Thinned n (q ∷ ps) live =
      let (rest, n', run, more, t) = sweep-Thinned (n + 1) ps (λ p i. live p (ground arith)) in
      let look = session_expired-run clock (later m n) q (live q (ground arith)) in
      elim (Bool-cases (ltb (m.cell q).expire (clock n))) [
        | inl dead ↦ (
          rest,
          n',
          rw (look, run, dead) refl,
          omega arith,
          Part-dead q n n n' (ground arith) (omega arith) (omega arith) (omega arith) (omega arith)
              t,
        )
        | inr lives ↦ (
          q ∷ rest,
          n',
          rw (look, run, lives) refl,
          omega arith,
          Part-alive q n n' (omega arith) (omega arith) t,
        )
      ]

  pub delete_expired_session-Thinned :
      (n : ℕ) (ps : Chain)
      → AllLive m ps
      → Thinned clock m n ps (delete_expired_session clock (later m n) ps)
  unfolding delete_expired_session
  delete_expired_session-Thinned n [] live =
      ([], n, refl, omega arith, record { part = λ p h. h; gone = λ p h. inl h; once = λ d. d })
  delete_expired_session-Thinned n (q ∷ ps) live =
      let (rest, n', run, more, t) = sweep-Thinned n ps (λ p i. live p (ground arith)) in
      let look = session_expired-run clock (later m n') q (live q (ground arith)) in
      elim (Bool-cases (ltb (m.cell q).expire (clock n'))) [
        | inl dead ↦ (
          rest,
          n' + 1,
          rw (run, look, dead) refl,
          omega arith,
          Part-dead q n' n (n' + 1) (ground arith) (omega arith) (omega arith) (omega arith)
              (omega arith) t,
        )
        | inr lives ↦ (
          q ∷ rest,
          n' + 1,
          rw (run, look, lives) refl,
          omega arith,
          Part-alive q n (n' + 1) (omega arith) (omega arith) t,
        )
      ]

module _ {clock : Clock} {m : Memory} where
  pub Part-wider :
      {lo hi : ℕ} {ps rest : Chain} (lo' hi' : ℕ)
      → lo' ≤ lo
      → hi ≤ hi'
      → Part clock m lo hi ps rest
      → Part clock m lo' hi' ps rest
  Part-wider lo' hi' below above t = record {
    part = t.part;
    gone = λ p h. elim (t.gone p h) [
      | inl there ↦ inl there
      | inr passed ↦ inr (Passed-wider lo' hi' below above passed)
    ];
    once = t.once;
  }

  pub Part-more :
      {lo mid hi : ℕ} {ps qs rs : Chain}
      → lo ≤ mid
      → mid ≤ hi
      → Part clock m lo mid ps qs
      → Part clock m mid hi qs rs
      → Part clock m lo hi ps rs
  Part-more {lo} {hi} a b t u = record {
    part = λ p h. t.part p (u.part p h);
    gone = λ p h. elim (t.gone p h) [
      | inr passed ↦ inr (Passed-wider lo hi (omega arith) (omega arith) passed)
      | inl there ↦ elim (u.gone p there) [
        | inl left ↦ inl left
        | inr passed ↦ inr (Passed-wider lo hi (omega arith) (omega arith) passed)
      ]
    ];
    once = λ d. u.once (t.once d);
  }

  pub Part-same : (n : ℕ) (ps : Chain) → Part clock m n n ps ps
  Part-same n ps = record { part = λ p h. h; gone = λ p h. inl h; once = λ d. d }
