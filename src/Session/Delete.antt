-- ===== src/Session/Delete.antt =====
-- `delete_hash_table` of src/lib/session_struct.c: every session is freed, and once.
use benker_vpn.Base.{
  ℕ, zero, suc, ◌+◌, ◌≡◌, refl, ◌∙◌, Bool, true, false, not, ◌&&◌, ◌||◌, arith, ltb, ◌==◌, [], ◌∷◌,
  ok, Returns, returns, Returns-bind, Returns-mono, Bool-cases, inl, inr,
}
use benker_vpn.Session.{
  Ptr, Memory, Chain, Table, free, delete_all_session, delete_lists, delete_hash_table,
}
use benker_vpn.Session.Search.{has, AllLive, Distinct}
use benker_vpn.Session.Safe.{IsSafe, IsValid-IsSafe}
use benker_vpn.Session.Valid.{IsValid, listed, server_home}

-- The sessions of `gone` have been freed, and nothing else has changed.
pub record Freed (m m' : Memory) (gone : Ptr → Bool) : Type 0 where
  pub live : (q : Ptr) → m'.live q ≡ (m.live q && not (gone q))
  pub same_cells : m'.cell ≡ m.cell
  pub same_calls : m'.calls ≡ m.calls

free-Freed :
    (m : Memory) (p : Ptr) → m.live p ≡ true → Returns (λ m'. Freed m m' (λ q. p == q)) (free m p)
unfolding free
free-Freed m p h =
    rw h (returns (record { live = λ q. ground arith; same_cells = refl; same_calls = refl }))

Freed-after :
    {m m₁ m₂ : Memory} {f g k : Ptr → Bool}
    → Freed m m₁ f
    → Freed m₁ m₂ g
    → ((q : Ptr) → (f q || g q) ≡ k q)
    → Freed m m₂ k
Freed-after a b same = record {
  live = λ q. ground (arith, a.live q, b.live q, same q);
  same_cells = b.same_cells ∙ a.same_cells;
  same_calls = b.same_calls ∙ a.same_calls;
}

-- With `remove_session` unset only nodes are freed.
delete_all_session-keeps : (m : Memory) (ps : Chain) → delete_all_session m ps false ≡ ok m
unfolding delete_all_session
delete_all_session-keeps m [] = refl
delete_all_session-keeps m (p ∷ ps) = delete_all_session-keeps m ps

delete_all_session-Freed :
    (m : Memory) (ps : Chain)
    → Distinct ps
    → AllLive m ps
    → Returns (λ m'. Freed m m' (λ q. has q ps)) (delete_all_session m ps true)
unfolding delete_all_session
delete_all_session-Freed m [] d h =
    returns (record { live = λ q. ground arith; same_cells = refl; same_calls = refl })
delete_all_session-Freed m (p ∷ ps) d h =
    Returns-bind (free-Freed m p (h p (ground arith))) (λ m₁ f.
      let rest : AllLive m₁ ps = λ q i. ground (arith, f.live q, h q, d.0) in
      Returns-mono (delete_all_session-Freed m₁ ps d.1 rest)
        (λ m₂ g. Freed-after f g (λ q. ground arith)))

module _ (m : Memory) (t : Table) (v : IsSafe m t) where
  has-within :
      (i : ℕ) (q : Ptr) → has q (t.list_server_key i) ≡ (listed m t q && (server_home m t q == i))
  has-within i q = elim (Bool-cases (has q (t.list_server_key i))) [
    | inl there ↦ ground (arith, v.at_home i q there)
    | inr away ↦ elim (Bool-cases (server_home m t q == i)) [
      | inl here ↦
          let e : server_home m t q ≡ i = ground arith in
          let l : listed m t q ≡ false = rw e away in rw (away, l) refl
      | inr other ↦ rw (away, other) (ground arith)
    ]
  ]

  delete_lists-Freed :
      (left i : ℕ) (m₁ : Memory) (gone : Ptr → Bool)
      → Freed m m₁ gone
      → ((q : Ptr) → gone q ≡ (listed m t q && ltb (server_home m t q) i))
      → Returns
          (λ m'. Freed m m' (λ q. listed m t q && ltb (server_home m t q) (i + left)))
          (delete_lists t left i m₁)
  unfolding delete_lists
  delete_lists-Freed zero i m₁ gone f is = returns (record {
    live = λ q. ground (arith, f.live q, is q);
    same_cells = f.same_cells;
    same_calls = f.same_calls;
  })
  delete_lists-Freed (suc left) i m₁ gone f is =
      let live : AllLive m₁ (t.list_server_key i) =
        λ q h. ground (arith, f.live q, is q, v.at_home i q h, v.servers_live i q h) in
      rw (delete_all_session-keeps m₁ (t.list_client_key i)) (
        Returns-bind (delete_all_session-Freed m₁ (t.list_server_key i) (v.server_once i) live)
          (λ m₂ g.
            let f' : Freed m m₂ (λ q. gone q || has q (t.list_server_key i)) =
              Freed-after f g (λ q. refl) in
            Returns-mono
              (delete_lists-Freed left (i + 1) m₂ _ f' (λ q. ground (arith, is q, has-within i q)))
              (λ m' h. record {
                live = λ q. ground (arith, h.live q);
                same_cells = h.same_cells;
                same_calls = h.same_calls;
              })))

pub safe_delete_hash_table-Freed :
    (m : Memory) (t : Table)
    → IsSafe m t
    → Returns (λ m'. Freed m m' (listed m t)) (delete_hash_table m t)
unfolding delete_hash_table
safe_delete_hash_table-Freed m t v =
    Returns-mono
      (delete_lists-Freed m t v t.len 0 m (λ q. false)
        (record { live = λ q. ground arith; same_cells = refl; same_calls = refl })
        (λ q. ground arith))
      (λ m' f. record {
        live = λ q. let pos = v.len_pos in ground (arith, f.live q);
        same_cells = f.same_cells;
        same_calls = f.same_calls;
      })

-- `delete_hash_table` on a well formed table does not fault, so it frees no session twice: exactly the
-- sessions of the table are freed, and no other one, nor the contents of any, is changed.
pub delete_hash_table-Freed :
    (m : Memory) (t : Table)
    → IsValid m t
    → Returns (λ m'. Freed m m' (listed m t)) (delete_hash_table m t)
delete_hash_table-Freed m t v = safe_delete_hash_table-Freed m t (IsValid-IsSafe v)
