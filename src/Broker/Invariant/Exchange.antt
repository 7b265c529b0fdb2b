-- ===== src/Broker/Invariant/Exchange.antt =====
-- `exchange` keeps the invariant, if no two draws of `crypto.randomUUID` agree.
use warden_md.Common.Map.{Map, get-set}
use warden_md.Broker.Invariant.Writes.{SameLedger-Good, Quiet-Keeps}
use warden_md.Broker.Invariant.Approve.{holders-reserve}
use warden_md.Common.Map
use warden_md.Broker.Store.{
  ExchangeCreation, held_by_other, idempotent_grant, insert_grant, create_new,
  create_exchange_grant,
}
use warden_md.Broker.Invariant.Creation.{Creation-Good}
use warden_md.Broker.Ledger.{SameLedger, decide-Quiet, quiet_rules}
use warden_md.Broker.Ledger.Checks.{authorize-Quiet, prepare_exchange-Quiet, announce-Quiet}
use warden_md.Common.{
  if◌then◌else◌, Bool-cases, Option-cases, truthy, is_some, append, ok, Moves, Keeps, Keeps-bind_of,
  bind-eq-ok, bind_at, ℕ, ◌≤◌, ◌<◌, String, ◌≡◌, refl, sym, ap, ◌∙◌, ◌≢◌, inl, inr, Bool, true,
  false, ◌&&◌, Option, none, some, List, arith, ◌==◌, eq_iff,
}
use warden_md.Broker.Types.{PolicyDecision, GrantProposal, Grant}
use warden_md.Broker.Core.{Deps, Broker, prefixed, now, random_id, decide}
use warden_md.Broker.Exchange.{
  Settled, settled, initial_status, is_allow, approval_reference_for, authorize, new_grant,
  draft_grant, prepare_exchange, store_exchange, after_store, settle_exchange, exchange,
}
use text.Mathlib.TextLemmas.{append_cancel_left, append-eq-nil_iff}
use warden_md.Broker.Invariant.{grant_at, holder_of, grant_name, Good}

-- No two draws of `crypto.randomUUID` agree.
abbrev pub IsDistinct : (ℕ → String) → Type 0
IsDistinct uuid = (m n : ℕ) → uuid m ≡ uuid n → m ≡ n

prefixed-injective : (p a b : String) → prefixed p a ≡ prefixed p b → a ≡ b
unfolding prefixed
prefixed-injective p a b h = append_cancel_left (append p "_") a b h

truthy-prefixed : (a : String) → truthy (prefixed "grant" a) ≡ true
unfolding prefixed
truthy-prefixed a = elim (Bool-cases (prefixed "grant" a == "")) [
  | inl e ↦
      let p = (append-eq-nil_iff.0 ((eq_iff _ _).0 e)).0 in
      absurd (cc ((eq_iff (append "grant" "_") "").1 p))
  | inr e ↦ rw e refl
]

-- The facts about a drafted grant that its creation needs.
record IsDraft (d : Deps) (s t : Broker) (g : Grant) (decision : PolicyDecision) : Type 0 where
  index : ℕ
  from : s.drawn ≤ index
  below : index < t.drawn
  id : g.id ≡ grant_name d index
  status : g.status ≡ initial_status decision
  issued : is_some g.issued_at ≡ is_allow decision

module _ (d : Deps) where
  draft_grant-IsDraft :
      (proposal : GrantProposal) (scope : List String) (decision : PolicyDecision) (s : Broker)
      {g : Grant} {key : Option String} {e : PolicyDecision}
      → (draft_grant d proposal scope decision s).0 ≡ ok (settled g key e)
      → IsDraft d s (draft_grant d proposal scope decision s).1 g e
  unfolding draft_grant now random_id approval_reference_for new_grant
  draft_grant-IsDraft proposal scope decision s h = record {
    index = s.drawn;
    from = omega arith;
    below = ground arith;
    id = ground arith;
    status = ground arith;
    issued = ground arith;
  }

  prepare_exchange-IsDraft :
      (proposal : GrantProposal) (s : Broker) {g : Grant} {key : Option String} {e : PolicyDecision}
      → (prepare_exchange d proposal s).0 ≡ ok (settled g key e)
      → IsDraft d s (prepare_exchange d proposal s).1 g e
  unfolding prepare_exchange
  prepare_exchange-IsDraft proposal s h =
      let (scope, ok_scope, h1) = bind-eq-ok (authorize d proposal) _ s h in
      let s1 = (authorize d proposal s).1 in
      let (decision, ok_decision, h2) = bind-eq-ok (decide d proposal) _ s1 h1 in
      let s2 = (decide d proposal s1).1 in
      let draft = draft_grant-IsDraft proposal scope decision s2 h2 in
      let q1 = (authorize-Quiet d proposal).at s in
      let q2 = (decide-Quiet d proposal).at s1 in
      rw (ok_scope, ok_decision)
        (record {
          index = draft.index;
          from = omega (arith, q1.drawn, q2.drawn, draft.from);
          below = draft.below;
          id = draft.id;
          status = draft.status;
          issued = draft.issued;
        })

module _ (d : Deps) (s0 : Broker) where
  holders-insert :
      (b : Bool) (s : Broker) (g : Grant)
      → Good d s0 s
      → (b && held_by_other (holder_of g.subject_token_id s) g.id) ≡ false
      → (j : String) (h : Grant) → grant_at j s ≡ some h
      → is_some h.issued_at ≡ true
      → Map.get h.subject_token_id (
          if b
          then Map.set g.subject_token_id g.id s.store.subject_token_grant
          else s.store.subject_token_grant)
        ≡ some j
  holders-insert true s g good free = holders-reserve d s0 s g good free
  holders-insert false s g good free = good.formed.holds

  holds-insert :
      (b : Bool) (s : Broker) (g : Grant)
      → is_some g.issued_at ≡ b
      → is_some g.issued_at ≡ true
      → Map.get g.subject_token_id (
          if b
          then Map.set g.subject_token_id g.id s.store.subject_token_grant
          else s.store.subject_token_grant)
        ≡ some g.id
  holds-insert true s g e a =
      rw get-set (ground (arith, eq_iff g.subject_token_id g.subject_token_id))
  holds-insert false s g e a = cc

  insert_grant-Good :
      (s : Broker) (g : Grant) (key : Option String) (decision : PolicyDecision)
      → grant_at g.id s ≡ none
      → truthy g.id ≡ true
      → ((n : ℕ) → s.drawn ≤ n → g.id ≢ grant_name d n)
      → g.status ≡ initial_status decision
      → is_some g.issued_at ≡ is_allow decision
      → (is_allow decision && held_by_other (holder_of g.subject_token_id s) g.id) ≡ false
      → Good d s0 s
      → Good d s0 (record s { store = insert_grant g key (is_allow decision) s.store })
  unfolding insert_grant initial_status is_allow
  insert_grant-Good s g key decision absent named taken status issued free good =
      Creation-Good d s0 s _ g
        (record {
          absent = absent;
          named = named;
          wrote = refl;
          drawn = omega arith;
          issued = λ a. ground (arith, status, issued);
          holders = holders-insert (is_allow decision) s g good free;
          holds = holds-insert (is_allow decision) s g issued;
          closed = ground (arith, status);
          evidence = λ j. refl;
          taken = taken;
        })
        good

  store_exchange-Good :
      (s : Broker) (g : Grant) (key : Option String) (decision : PolicyDecision)
      → grant_at g.id s ≡ none
      → truthy g.id ≡ true
      → ((n : ℕ) → s.drawn ≤ n → g.id ≢ grant_name d n)
      → g.status ≡ initial_status decision
      → is_some g.issued_at ≡ is_allow decision
      → Good d s0 s
      → Good d s0 (store_exchange d (settled g key decision) s).1
  unfolding store_exchange create_exchange_grant create_new
  store_exchange-Good s g key decision absent named taken status issued good =
      let o = idempotent_grant key s.store in
      elim (Option-cases o) [
        | inr (existing, e) ↦ rw e good
        | inl e ↦
            rw e
              (elim (Bool-cases
                (is_allow decision && held_by_other (holder_of g.subject_token_id s) g.id)) [
                  | inl held ↦ rw held good
                  | inr free ↦ rw free (
                      insert_grant-Good s g key decision absent named taken status issued free good)
                ])
      ]

  after_store-Quiet :
      (g : Grant) (decision : PolicyDecision) (creation : ExchangeCreation)
      → Moves SameLedger (after_store d g decision creation)
  unfolding after_store
  after_store-Quiet g decision creation = search (quiet_rules, announce-Quiet) depth 10

  settle_exchange-Good :
      (distinct : IsDistinct d.random_uuid) (s t : Broker) (g : Grant) (key : Option String)
      (decision : PolicyDecision)
      → SameLedger s t
      → IsDraft d s t g decision
      → Good d s0 s
      → Good d s0 (settle_exchange d (settled g key decision) t).1
  unfolding settle_exchange
  settle_exchange-Good distinct s t g key decision q draft good =
      bind_at (Good d s0) (store_exchange d (settled g key decision)) (after_store d g decision) t
        (store_exchange-Good t g key decision
          (rw draft.id (
            ap (λ m. Map.get (grant_name d draft.index) m) q.grants
            ∙ good.formed.unused draft.index draft.from))
          (rw draft.id (truthy-prefixed (d.random_uuid draft.index)))
          (λ n h p.
            let e = distinct draft.index n (prefixed-injective "grant" _ _ (sym draft.id ∙ p)) in
            omega (arith, e, draft.below))
          draft.status draft.issued (SameLedger-Good d s0 s t q good))
        λ creation u good'. (Quiet-Keeps d s0 _ (after_store-Quiet g decision creation)).at u good'

  settled_case :
      IsDistinct d.random_uuid
      → (proposal : GrantProposal) (prepared : Settled) (s : Broker)
      → (prepare_exchange d proposal s).0 ≡ ok prepared
      → Good d s0 s
      → Good d s0 (settle_exchange d prepared (prepare_exchange d proposal s).1).1
  settled_case distinct proposal (settled g key decision) s e good =
      settle_exchange-Good distinct s (prepare_exchange d proposal s).1 g key decision
        ((prepare_exchange-Quiet d proposal).at s) (prepare_exchange-IsDraft d proposal s e) good

  pub exchange-Keeps :
      IsDistinct d.random_uuid
      → (proposal : GrantProposal) → Keeps (Good d s0) (exchange d proposal)
  unfolding exchange
  exchange-Keeps distinct proposal =
      Keeps-bind_of (Good d s0) (prepare_exchange d proposal) (settle_exchange d)
        (Quiet-Keeps d s0 _ (prepare_exchange-Quiet d proposal)) (settled_case distinct proposal)
