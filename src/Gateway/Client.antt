-- ===== src/Gateway/Client.antt =====
-- A packet of a client in src/lib/packet_handler.c is a step of the gateway.
use benker_vpn.Base.{
  ℕ, ◌+◌, ◌≤◌, ◌<◌, ◌≡◌, refl, ap, ◌∙◌, true, arith, ltb, Returns, returns, Returns-value,
  Returns-mono, Option, none, some, Bool-cases, inl, inr, ◌⊎◌, u32,
}
use benker_vpn.Packet.{Buffer, saddr, source, ip_header_len}
use benker_vpn.Validate.{validate_ip_tcp}
use benker_vpn.Rewrite.{replace_src_ip_port}
use benker_vpn.Session.{Session, Ptr, Memory, Clock, Table}
use benker_vpn.Session.Search.{load-ok}
use benker_vpn.Session.Valid.{IsValid, listed, IsFree, renumber-IsValid}
use benker_vpn.Session.Port.{candidate, advance}
use benker_vpn.Session.Clean.{later}
use benker_vpn.Session.Add.{
  IsClient, NoClient, new_cell, listed_new, fresh_session, Added, existing, full, created,
  add_tcp_session-Added,
}
use benker_vpn.Session.Lookup.{found_cases, created-IsValid}
use benker_vpn.Handler.{
  Reply, segment_of, client_flags, client_session, handle_client_packet, refuse, default_timeout,
}
use benker_vpn.Handler.Client.{client_flags-SameKeys}
use benker_vpn.Handler.Store.{store-IsValid, later-IsValid, session_expired-run, live_of_listed}
use benker_vpn.Gateway.{
  Mapping, set, opening, client_packet, sent_on, refused, answer_of, Step, malformed_client,
  no_port, client_late, client_known, client_opens,
}
use benker_vpn.Gateway.View.{
  view, view-renumber, set-congr, set-set, view-later, view-written, view-free, view-insert,
  Owns-listed, OwnsNone-listed,
}

-- What `client_session` does to the table, for a client at `ip` and `port`.
data Found (now : ℕ) (m : Memory) (t : Table) (b : Buffer)
    : Option Ptr × Memory × Table → Type 0 where
  was_there :
      (p : Ptr)
      → IsClient m t (saddr b) (source b (ip_header_len b)) p
      → Found now m t b (some p, m, t)
  not_there :
      {t' : Table}
      → IsValid m t'
      → NoClient m t (saddr b) (source b (ip_header_len b))
      → ((n : ℕ) → view m t' n ≡ view m t n)
      → Found now m t b (none, m, t')
  made :
      {m' : Memory} {t' : Table} (p : Ptr) (n : ℕ)
      → (segment_of b).is_syn ≡ true
      → NoClient m t (saddr b) (source b (ip_header_len b))
      → IsFree m t n
      → IsValid m' t'
      → listed m' t' p ≡ true
      → m'.cell p ≡ opening now (saddr b) (source b (ip_header_len b)) n
      → ((k : ℕ)
          → view m' t' k
            ≡ set (view m t) n (opening now (saddr b) (source b (ip_header_len b)) n) k)
      → Found now m t b (some p, m', t')

module _ (clock : Clock) (now : ℕ) (still : (n : ℕ) → clock n ≡ now) where
  fresh-opening :
      (m : Memory) (ip port n : ℕ)
      → fresh_session clock m ip port n default_timeout ≡ opening now ip port n
  fresh-opening m ip port n = rw (still m.calls) refl

  module _ (count : ℕ) (m : Memory) (t : Table) (b : Buffer) (v : IsValid m t) where
    added-Found :
        (r : Option Ptr × Memory × Table)
        → (segment_of b).is_syn ≡ true
        → Added clock count m t (saddr b) (source b (ip_header_len b)) default_timeout r
        → Found now m t b r
    added-Found r syn (existing p c) = was_there p c
    added-Found r syn (full k none_such over all) =
        not_there (renumber-IsValid (u32 (t.next_num + (k + 1))) (omega arith) v) none_such
          (view-renumber m t (u32 (t.next_num + (k + 1))))
    added-Found r syn (created k none_such unused before) =
        let ip = saddr b in
        let port = source b (ip_header_len b) in
        let s = fresh_session clock m ip port (candidate t k) default_timeout in
        let t₁ = advance t (k + 1) in
        let v₁ = renumber-IsValid (u32 (t.next_num + (k + 1))) (omega arith) v in
        let v' = created-IsValid clock count m t ip port default_timeout v k none_such unused in
        let e = fresh-opening m ip port (candidate t k) in
        made m.next (candidate t k) syn none_such unused v'
          (ground (arith, listed_new m t₁ s v₁ m.next)) (new_cell m s ∙ e)
          (λ n.
            view-insert m t₁ s v₁ v' unused n
            ∙ set-congr (view m t₁) (view m t) (candidate t k) s (view-renumber m t _) n
            ∙ ap (λ x. set (view m t) (candidate t k) x n) e)

    client_session-Found : Returns (Found now m t b) (client_session clock count m t b)
    unfolding client_session
    client_session-Found = elim (Bool-cases (segment_of b).is_syn) [
      | inl syn ↦ rw syn (
          Returns-mono
            (add_tcp_session-Added clock m t (saddr b) (source b (ip_header_len b)) default_timeout
              count v)
            (λ r a. added-Found r syn a))
      | inr other ↦ rw other (elim (found_cases (saddr b) (source b (ip_header_len b)) v) [
        | inl (p, run, c) ↦ rw run (returns (was_there p c))
        | inr (n, run) ↦ rw run (returns (not_there v n (λ k. refl)))
      ])
    ]

-- Both ways to a session, with what the handler then does as a step.
record Got (now server_ip : ℕ) (m : Memory) (t : Table) (b : Buffer) (len count : ℕ) (p : Ptr)
    (m₁ : Memory) (t₁ : Table) : Type 0 where
  valid : IsValid m₁ t₁
  in_table : listed m₁ t₁ p ≡ true
  late :
      (v' : Mapping)
      → (m₁.cell p).expire < now
      → ((k : ℕ) → v' k ≡ view m₁ t₁ k)
      → Step now server_ip (view m t) (client_packet b len count) refused v'
  forward :
      (v' : Mapping)
      → now ≤ (m₁.cell p).expire
      → ((k : ℕ)
          → v' k
            ≡ set (view m₁ t₁) (m₁.cell p).server_port (client_flags (m₁.cell p) (segment_of b)) k)
      → Step now server_ip
          (view m t)
          (client_packet b len count)
          (sent_on
            (replace_src_ip_port b server_ip (client_flags (m₁.cell p) (segment_of b)).server_port))
          v'

module _ (now server_ip : ℕ) (m : Memory) (t : Table) (b : Buffer) (len count : ℕ) (v : IsValid m t)
    (good : validate_ip_tcp b len ≡ true) where
  was_there-Got :
      (p : Ptr)
      → IsClient m t (saddr b) (source b (ip_header_len b)) p
      → Got now server_ip m t b len count p m t
  was_there-Got p c = record {
    valid = v;
    in_table = c.in_table;
    late = λ v' late same. client_late _ _ good (Owns-listed v c) late same;
    forward = λ v' early same.
        rw (client_flags-SameKeys (m.cell p) b).server
          (client_known _ _ good (Owns-listed v c) early same);
  }

  made-Got :
      (p : Ptr) (n : ℕ) (m' : Memory) (t' : Table)
      → (segment_of b).is_syn ≡ true
      → NoClient m t (saddr b) (source b (ip_header_len b))
      → IsFree m t n
      → IsValid m' t'
      → listed m' t' p ≡ true
      → m'.cell p ≡ opening now (saddr b) (source b (ip_header_len b)) n
      → ((k : ℕ)
          → view m' t' k
            ≡ set (view m t) n (opening now (saddr b) (source b (ip_header_len b)) n) k)
      → Got now server_ip m t b len count p m' t'
  made-Got p n m' t' syn none_such unused v' l e same = record {
    valid = v';
    in_table = l;
    late = λ w late is.
        let expire : (m'.cell p).expire ≡ now + default_timeout =
          ap (λ (x : Session). x.expire) e in
        absurd (omega arith);
    forward = λ w early is.
        let s = opening now (saddr b) (source b (ip_header_len b)) n in
        let s' = client_flags s (segment_of b) in
        let is' = rw e at is in
        rw (e, (client_flags-SameKeys s b).server)
          (client_opens n good syn (OwnsNone-listed v none_such) (view-free n v unused) (λ k.
            is' k
            ∙ set-congr (view m' t') (set (view m t) n s) n s' same k
            ∙ set-set (view m t) n s s' k));
  }

  Found-cases :
      {x : Option Ptr × Memory × Table}
      → Found now m t b x
      → ((p : Ptr) × (m₁ : Memory) × (t₁ : Table) × (x ≡ (some p, m₁, t₁))
          × Got now server_ip m t b len count p m₁ t₁)
        ⊎ ((t₁ : Table) × (x ≡ (none, m, t₁))
            × IsValid m t₁
            × NoClient m t (saddr b) (source b (ip_header_len b))
            × ((n : ℕ) → view m t₁ n ≡ view m t n))
  Found-cases (was_there p c) = inl (p, m, t, refl, was_there-Got p c)
  Found-cases (not_there {t'} v' n same) = inr (t', refl, v', n, same)
  Found-cases (made {m'} {t'} p n syn none_such unused v' l e same) =
      inl (p, m', t', refl, made-Got p n m' t' syn none_such unused v' l e same)

refuse-refused : (b : Buffer) → answer_of (refuse b) ≡ refused
unfolding refuse
refuse-refused b = refl

module _ (clock : Clock) (now : ℕ) (still : (n : ℕ) → clock n ≡ now) (count : ℕ) (m : Memory)
    (t : Table) (b : Buffer) (len vpn_server_ip : ℕ) (v : IsValid m t) where
  abbrev Stepped : Reply × Memory × Table → Type 0
  Stepped (reply, m', t') =
      IsValid m' t'
      × Step now vpn_server_ip (view m t) (client_packet b len count) (answer_of reply) (view m' t')

  -- While `time(NULL)` returns one value, `handle_client_packet` on a well formed table is a step of
  -- the gateway.
  pub handle_client_packet-Step :
      Returns Stepped (handle_client_packet clock count m t b len vpn_server_ip)
  unfolding handle_client_packet
  handle_client_packet-Step =
      let none_sent = refuse-refused b in
      elim (Bool-cases (validate_ip_tcp b len)) [
        | inr bad ↦ rw bad (returns (v, rw none_sent (malformed_client bad (λ k. refl))))
        | inl good ↦
            let (x, run, f) = Returns-value (client_session-Found clock now still count m t b v) in
            elim (Found-cases now vpn_server_ip m t b len count v good f) [
              | inr (t₁, e, v₁, n, same) ↦
                  rw (good, run, e)
                    (returns (v₁, rw none_sent (no_port good (OwnsNone-listed v n) same)))
              | inl (p, m₁, t₁, e, g) ↦
                  let dead = session_expired-run clock m₁ p (live_of_listed g.valid p g.in_table) in
                  let here =
                    load-ok (later m₁ (m₁.calls + 1)) p (live_of_listed g.valid p g.in_table) in
                  let v₂ = later-IsValid (m₁.calls + 1) g.valid in
                  let at = still m₁.calls in
                  rw (good, run, e, dead)
                    (elim (Bool-cases (ltb (m₁.cell p).expire (clock m₁.calls))) [
                      | inl late ↦ rw late (
                          returns (
                            v₂,
                            rw none_sent
                                (g.late _ (ground arith) (view-later (m₁.calls + 1) g.valid)),
                          ))
                      | inr early ↦
                          rw (early, here)
                            (returns (
                              store-IsValid (later m₁ (m₁.calls + 1)) t₁ p _
                                  (client_flags-SameKeys (m₁.cell p) b) v₂,
                              g.forward _ (ground arith) (
                                  view-written m₁ t₁ p _ (m₁.calls + 1)
                                    (client_flags-SameKeys (m₁.cell p) b) g.valid g.in_table),
                            ))
                    ])
            ]
      ]
