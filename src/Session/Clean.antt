-- ===== src/Session/Clean.antt =====
-- `clean_expired_session` of src/lib/session_struct.c, while `time(NULL)` stands still.
use benker_vpn.Base.{
  ℕ, zero, suc, ◌+◌, ◌<◌, ◌≡◌, refl, Bool, true, not, ◌&&◌, arith, ltb, leb, if◌then◌else◌, [], ◌∷◌,
  ok, Returns, returns, Bool-cases, inl, inr,
}
use benker_vpn.Session.{
  Ptr, Memory, Chain, Clock, Table, session_expired, sweep, delete_expired_session, clean_lists,
  clean_expired_session, update,
}
use benker_vpn.Session.Search.{has, AllLive, Distinct, load-ok}
use benker_vpn.Session.Valid.{IsValid, listed, client_home, server_home}

-- The session has expired at the time `now`.
abbrev pub expired : Memory → ℕ → Ptr → Bool
expired m now p = ltb (m.cell p).expire now

unfoldable pub keep : Memory → ℕ → Chain → Chain
keep m now [] = []
keep m now (p ∷ ps) = if expired m now p then keep m now ps else p ∷ keep m now ps

abbrev pub later : Memory → ℕ → Memory
later m n = record m { calls = n }

pub session_expired-run :
    (clock : Clock) (m : Memory) (p : Ptr)
    → m.live p ≡ true
    → session_expired clock m p ≡ ok (ltb (m.cell p).expire (clock m.calls), later m (m.calls + 1))
unfolding session_expired
session_expired-run clock m p h = rw (load-ok m p h)

pub has-keep :
    (m : Memory) (now : ℕ) (p : Ptr) (ps : Chain)
    → has p (keep m now ps) ≡ (has p ps && not (expired m now p))
unfolding keep
has-keep m now p [] = refl
has-keep m now p (q ∷ ps) = ground (arith, has-keep m now p ps)

pub Distinct-keep : (m : Memory) (now : ℕ) (ps : Chain) → Distinct ps → Distinct (keep m now ps)
unfolding keep
Distinct-keep m now [] d = d
Distinct-keep m now (p ∷ ps) d = elim (Bool-cases (expired m now p)) [
  | inl dead ↦ rw dead (Distinct-keep m now ps d.1)
  | inr alive ↦ rw alive (ground (arith, has-keep m now p ps), Distinct-keep m now ps d.1)
]

module _ (clock : Clock) (now : ℕ) (still : (n : ℕ) → clock n ≡ now) where
  session_expired-ok :
      (m : Memory) (n : ℕ) (p : Ptr)
      → m.live p ≡ true
      → session_expired clock (later m n) p ≡ ok (expired m now p, later m (n + 1))
  unfolding session_expired
  session_expired-ok m n p h = rw (load-ok (later m n) p h, still n)

  sweep-keep :
      (m : Memory) (n : ℕ) (ps : Chain)
      → AllLive m ps
      → (n' : ℕ) × (sweep clock (later m n) ps ≡ ok (keep m now ps, later m n'))
  unfolding sweep keep
  sweep-keep m n [] live = (n, refl)
  sweep-keep m n (p ∷ ps) live =
      let (n', run) = sweep-keep m (n + 1) ps (λ q i. live q (ground arith)) in
      (n', rw (session_expired-ok m n p (live p (ground arith)), run))

  delete_expired_session-keep :
      (m : Memory) (n : ℕ) (ps : Chain)
      → AllLive m ps
      → (n' : ℕ) × (delete_expired_session clock (later m n) ps ≡ ok (keep m now ps, later m n'))
  unfolding delete_expired_session keep
  delete_expired_session-keep m n [] live = (n, refl)
  delete_expired_session-keep m n (p ∷ ps) live =
      let (n', run) = sweep-keep m n ps (λ q i. live q (ground arith)) in
      (n' + 1, rw (run, session_expired-ok m n' p (live p (ground arith))))

  -- The chains from `lo` up to `hi` have lost their expired sessions, and nothing else has changed.
  pub record IsCleaned (m : Memory) (lo hi : ℕ) (t t' : Table) : Type 0 where
    pub clients :
        (j : ℕ)
        → t'.list_client_key j
          ≡ (if leb lo j && ltb j hi then keep m now (t.list_client_key j) else t.list_client_key j)
    pub servers :
        (j : ℕ)
        → t'.list_server_key j
          ≡ (if leb lo j && ltb j hi then keep m now (t.list_server_key j) else t.list_server_key j)
    pub same_len : t'.len ≡ t.len
    pub same_min : t'.min_port ≡ t.min_port
    pub same_mod : t'.mod_num ≡ t.mod_num
    pub same_next : t'.next_num ≡ t.next_num

  abbrev LiveChains : Memory → Table → Type 0
  LiveChains m t = (i : ℕ) → AllLive m (t.list_client_key i) × AllLive m (t.list_server_key i)

  clean_lists-IsCleaned :
      (m : Memory) (left i n : ℕ) (t : Table)
      → LiveChains m t
      → (n' : ℕ) × (t' : Table) × (clean_lists clock left i (later m n) t ≡ ok (later m n', t'))
        × IsCleaned m i (i + left) t t'
  unfolding clean_lists
  clean_lists-IsCleaned m zero i n t live = (
    n,
    t,
    refl,
    record {
      clients = λ j. ground arith;
      servers = λ j. ground arith;
      same_len = refl;
      same_min = refl;
      same_mod = refl;
      same_next = refl;
    },
  )
  clean_lists-IsCleaned m (suc left) i n t live =
      let (n₁, run₁) = delete_expired_session-keep m n (t.list_client_key i) (live i).0 in
      let (n₂, run₂) = delete_expired_session-keep m n₁ (t.list_server_key i) (live i).1 in
      let t₁ : Table = record t {
        list_client_key = update t.list_client_key i (keep m now (t.list_client_key i));
        list_server_key = update t.list_server_key i (keep m now (t.list_server_key i));
      } in
      let live₁ : LiveChains m t₁ = λ j. (
        λ p h. ground (arith, (live j).0 p, (live i).0 p, has-keep m now p (t.list_client_key i)),
        λ p h. ground (arith, (live j).1 p, (live i).1 p, has-keep m now p (t.list_server_key i)),
      ) in
      let (n', t', run, c) = clean_lists-IsCleaned m left (i + 1) n₂ t₁ live₁ in
      (
        n',
        t',
        rw (run₁, run₂, run),
        record {
          clients = λ j. ground (arith, c.clients j);
          servers = λ j. ground (arith, c.servers j);
          same_len = c.same_len;
          same_min = c.same_min;
          same_mod = c.same_mod;
          same_next = c.same_next;
        },
      )

  valid_live : {m : Memory} {t : Table} → IsValid m t → LiveChains m t
  valid_live {m} {t} v i = (
    λ p h. ground (arith, v.clients i p, v.servers (server_home m t p) p),
    λ p h. ground (arith, v.servers i p),
  )

  -- Beyond `len` the chains of a valid table are empty.
  home-lt :
      {m : Memory} {t : Table}
      → IsValid m t
      → (p : Ptr) → (client_home m t p < t.len) × (server_home m t p < t.len)
  home-lt {m} {t} v p = let pos = v.len_pos in (omega arith, omega arith)

  -- What `clean_expired_session` leaves: the table is well formed, and it holds a session exactly if
  -- it held it and the session has not expired; no session is changed or freed.
  pub record CleanedTable (m : Memory) (t : Table) (r : Memory × Table) : Type 0 where
    pub valid : IsValid r.0 r.1
    pub remaining : (p : Ptr) → listed r.0 r.1 p ≡ (listed m t p && not (expired m now p))
    pub same_cells : r.0.cell ≡ m.cell
    pub same_live : r.0.live ≡ m.live

  module _ {m : Memory} {t t' : Table} (v : IsValid m t) (c : IsCleaned m 0 (0 + t.len) t t') where
    has_client :
        (i : ℕ) (p : Ptr)
        → has p (t'.list_client_key i) ≡ (has p (t.list_client_key i) && not (expired m now p))
    has_client i p =
        ground
          (arith, c.clients i, has-keep m now p (t.list_client_key i), v.clients i p, home-lt v p)

    has_server :
        (i : ℕ) (p : Ptr)
        → has p (t'.list_server_key i) ≡ (has p (t.list_server_key i) && not (expired m now p))
    has_server i p =
        ground
          (arith, c.servers i, has-keep m now p (t.list_server_key i), v.servers i p, home-lt v p)

    cleaned_listed : (p : Ptr) → listed m t' p ≡ (listed m t p && not (expired m now p))
    cleaned_listed p = rw c.same_len (has_server (server_home m t p) p)

    cleaned_once : (i : ℕ) → Distinct (t'.list_client_key i) × Distinct (t'.list_server_key i)
    cleaned_once i = (
      rw (c.clients i) (elim (Bool-cases (leb 0 i && ltb i (0 + t.len))) [
        | inl inside ↦ rw inside (Distinct-keep m now (t.list_client_key i) (v.client_once i))
        | inr outside ↦ rw outside (v.client_once i)
      ]),
      rw (c.servers i) (elim (Bool-cases (leb 0 i && ltb i (0 + t.len))) [
        | inl inside ↦ rw inside (Distinct-keep m now (t.list_server_key i) (v.server_once i))
        | inr outside ↦ rw outside (v.server_once i)
      ]),
    )

    cleaned-IsValid : (n : ℕ) → IsValid (later m n) t'
    cleaned-IsValid n =
        let len = c.same_len in
        let min = c.same_min in
        let width = c.same_mod in
        let counter = c.same_next in
        let len_pos = v.len_pos in
        let mod_pos = v.mod_pos in
        let ports_fit = v.ports_fit in
        let next_fits = v.next_fits in
        record {
          len_pos = omega arith;
          mod_pos = omega arith;
          ports_fit = omega arith;
          next_fits = omega arith;
          fresh = v.fresh;
          clients = λ i p h.
              rw len
                (ground (arith, has_client i p, v.clients i p, has_server (server_home m t p) p));
          servers = λ i p h.
              rw (len, min, width)
                (ground (arith, has_server i p, v.servers i p, has_client (client_home m t p) p));
          client_once = λ i. (cleaned_once i).0;
          server_once = λ i. (cleaned_once i).1;
          client_key = λ p q hp hq.
              v.client_key p q (ground (arith, cleaned_listed p))
                (ground (arith, cleaned_listed q));
          server_key = λ p q hp hq.
              v.server_key p q (ground (arith, cleaned_listed p))
                (ground (arith, cleaned_listed q));
        }

  -- While `time(NULL)` returns one value, `clean_expired_session` on a well formed table does not
  -- fault and leaves it well formed; a session is in the table afterwards exactly if it was before
  -- and has not expired, and no session is changed or freed.
  pub clean_expired_session-Cleaned :
      (m : Memory) (t : Table)
      → IsValid m t
      → Returns (CleanedTable m t) (clean_expired_session clock m t)
  unfolding clean_expired_session
  clean_expired_session-Cleaned m t v =
      let (n, t', run, c) = clean_lists-IsCleaned m t.len 0 m.calls t (valid_live v) in
      rw run (
        returns (record {
          valid = cleaned-IsValid v c n;
          remaining = cleaned_listed v c;
          same_cells = refl;
          same_live = refl;
        }))
