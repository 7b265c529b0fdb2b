-- ===== src/Service/Claim/Interleaving/Safety.antt =====
-- What holds however requests to the claim ceremony overlap.
use warden_md.Service.Claim.Consumption.{consumed_once}
use warden_md.Service.Claim.Progress.{Forward-consume, Forward-decide, Forward-verify, Forward-poll}
use warden_md.Service.Claim.Interleaving.{
  World, Held, after, Step, starts, limits, reads, verifies, decides, polls, consumes, Steps, here,
  then,
}
use warden_md.Common.{
  Bool-cases, append, ok, is_ok, ℕ, suc, ◌≤◌, String, ◌≡◌, refl, sym, ◌∙◌, subst, ◌⊎◌, inl, inr,
  false, Option, none, some, List, [], arith, ◌==◌, eq_iff,
}
use warden_md.Common.Map
use warden_md.Common.Map.{Map, get-set}
use warden_md.Service.Types.{ClaimRecord}
use warden_md.Service.RateLimit.{take}
use warden_md.Service.Code.{code_from_identifier}
use warden_md.Service.Claim.{
  ClaimDeps, Ceremony, C, create_claim, claim_now, next_identifier, take_allowance,
}
use warden_md.Service.Claim.Advance.{Forward}
use warden_md.Service.Claim.Operations.{
  new_claim, start, verify_found, decide_found, poll_found, consume_found,
}
use warden_md.Service.Claim.Follows.{
  Follows, Follows-refl, Grows, Grows-refl, Grows-trans, Advances-same, Known, Known-read,
  Known-Grows, Known-Advances,
}

-- The generator never hands out one claim identifier twice.
abbrev pub IsFreshSource : ClaimDeps → Type 0
IsFreshSource d = (m n : ℕ) → d.next m "claim" ≡ d.next n "claim" → m ≡ n

-- Identifiers of claims were drawn, and records in flight are of stored claims.
pub record IsInOrder (d : ClaimDeps) (w : World) : Type 0 where
  pub fresh : (n : ℕ) → w.ceremony.drawn ≤ n → Map.get (d.next n "claim") w.ceremony.claims ≡ none
  pub known : (c : ClaimRecord) → Held c w.read → Known c w.ceremony

-- No claim and no request in flight.
abbrev pub quiet : World
quiet = record { ceremony = record { claims = []; buckets = []; ticks = 0; drawn = 0 }; read = [] }

module _ (d : ClaimDeps) (distinct : IsFreshSource d) where
  -- A start that the rate limiter refuses changes no claim; another adds one claim.
  start-cases :
      (identity : String) (scopes : List String) (resource : Option String) (key : String)
      (s : Ceremony)
      → (((start d identity scopes resource key s).1.claims ≡ s.claims)
          × ((start d identity scopes resource key s).1.drawn ≡ s.drawn))
        ⊎ ((c : ClaimRecord) × (c.id ≡ d.next (suc (suc s.drawn)) "claim")
            × ((start d identity scopes resource key s).1.claims ≡ Map.set c.id c s.claims)
            × ((start d identity scopes resource key s).1.drawn ≡ suc (suc (suc s.drawn))))
  unfolding start claim_now take_allowance next_identifier create_claim new_claim
  start-cases identity scopes resource key s =
      elim (Bool-cases
        (take (append "claim-start:" key) d.options.max_starts_per_window
          d.options.start_window_seconds (d.clock s.ticks) s.buckets).0) [
            | inl allowed ↦ inr (
              new_claim d (d.next (suc (suc s.drawn)) "claim") identity
                  (code_from_identifier d.to_upper_case (d.next (suc s.drawn) "user"))
                  (d.next s.drawn "device") scopes resource (d.clock s.ticks),
              refl,
              rw allowed refl,
              rw allowed refl,
            )
            | inr refused ↦ inl (rw refused (refl, refl))
          ]

  Grows-set :
      (s t : Ceremony) (c : ClaimRecord)
      → Map.get c.id s.claims ≡ none
      → t.claims ≡ Map.set c.id c s.claims
      → Grows s t
  Grows-set s t c absent e = record {
    claims = λ k old h. elim (Bool-cases (c.id == k)) [
      | inl hit ↦ absurd (cc (absent, (eq_iff c.id k).0 hit, h))
      | inr miss ↦ (old, rw (e, get-set c.id k c s.claims, miss) h, Follows-refl old)
    ];
  }

  start-Grows :
      (identity : String) (scopes : List String) (resource : Option String) (key : String)
      (w : World)
      → IsInOrder d w
      → Grows w.ceremony (start d identity scopes resource key w.ceremony).1
        × ((n : ℕ)
            → (start d identity scopes resource key w.ceremony).1.drawn ≤ n
            → Map.get (d.next n "claim") (start d identity scopes resource key w.ceremony).1.claims
              ≡ none)
  start-Grows identity scopes resource key w o =
      elim (start-cases identity scopes resource key w.ceremony) [
        | inl (same, drawn) ↦ (
          (Advances-same _ _ same drawn).grows,
          λ n h. rw same (o.fresh n (omega (arith, h, drawn))),
        )
        | inr (c, id, claims, drawn) ↦ (
          Grows-set w.ceremony _ c (rw id (o.fresh (suc (suc w.ceremony.drawn)) (omega arith)))
              claims,
          λ n h. elim (Bool-cases (c.id == d.next n "claim")) [
            | inl hit ↦ absurd (
                omega (
                  arith,
                  h,
                  drawn,
                  distinct (suc (suc w.ceremony.drawn)) n
                      (sym id ∙ (eq_iff c.id (d.next n "claim")).0 hit),
                ))
            | inr miss ↦
                rw (claims, get-set c.id (d.next n "claim") c w.ceremony.claims, miss)
                  (o.fresh n (omega (arith, h, drawn)))
          ],
        )
      ]

  acted :
      {A : Type 0} (w : World) (c : ClaimRecord) (m : C A)
      → IsInOrder d w
      → Held c w.read
      → Forward c m
      → IsInOrder d (after m w) × Grows w.ceremony (after m w).ceremony
  acted w c m o h f =
      let a = f.at w.ceremony (o.known c h) in
      (
        record {
          fresh = λ n b. a.keys (d.next n "claim") (o.fresh n (omega (arith, b, a.drawn)));
          known = λ x held. Known-Advances x w.ceremony _ (o.known x held) a;
        },
        a.grows,
      )

  Step-IsInOrder :
      (u v : World) → IsInOrder d u → Step d u v → IsInOrder d v × Grows u.ceremony v.ceremony
  Step-IsInOrder u v o (starts w identity scopes resource key) =
      let (grows, fresh) = start-Grows identity scopes resource key u o in
      (
        record { fresh = fresh; known = λ c h. Known-Grows c u.ceremony _ (o.known c h) grows },
        grows,
      )
  Step-IsInOrder u v o (limits w key limit window_seconds now) =
      unfold take_allowance in
      (
        record {
          fresh = o.fresh;
          known = λ c h.
              Known-Grows c u.ceremony _ (o.known c h) (Advances-same u.ceremony _ refl refl).grows;
        },
        (Advances-same u.ceremony _ refl refl).grows,
      )
  Step-IsInOrder u v o (reads w c found) = (
    record {
      fresh = o.fresh;
      known = λ x h. elim h [
        | inl one ↦ subst (λ y. Known y u.ceremony) one (Known-read c u.ceremony found)
        | inr held ↦ o.known x held
      ];
    },
    Grows-refl u.ceremony,
  )
  Step-IsInOrder u v o (verifies w c h) = acted u c (verify_found d c) o h (Forward-verify d c)
  Step-IsInOrder u v o (decides w c decision h) =
      acted u c (decide_found d decision c) o h (Forward-decide d c decision)
  Step-IsInOrder u v o (polls w c h) = acted u c (poll_found d c) o h (Forward-poll d c)
  Step-IsInOrder u v o (consumes w c h) = acted u c (consume_found d c) o h (Forward-consume d c)

  pub Steps-IsInOrder :
      (u v : World) → IsInOrder d u → Steps d u v → IsInOrder d v × Grows u.ceremony v.ceremony
  Steps-IsInOrder u v o (here w) = (o, Grows-refl u.ceremony)
  Steps-IsInOrder u v o (then u' m v' step rest) =
      let (o', g) = Step-IsInOrder u m o step in
      let (o'', g') = Steps-IsInOrder m v o' rest in
      (o'', Grows-trans u.ceremony m.ceremony v.ceremony g g')

  pub quiet-IsInOrder : IsInOrder d quiet
  quiet-IsInOrder = record { fresh = λ n h. unfold Map.get in refl; known = λ c h. absurd h }

  -- However requests overlap: once the consumption of a claim has been granted to one request, every
  -- consumption of that claim by any request, whatever record of the claim it has read and when, is refused.
  pub one_grant_per_claim :
      (u v : World) (c other : ClaimRecord) {r : ClaimRecord}
      → Steps d quiet u
      → Held c u.read
      → (consume_found d c u.ceremony).0 ≡ ok r
      → Steps d (after (consume_found d c) u) v
      → Held other v.read
      → other.id ≡ c.id
      → is_ok (consume_found d other v.ceremony).0 ≡ false
  one_grant_per_claim u v c other {r} past held granted future held' same =
      let (o, _) = Steps-IsInOrder quiet u quiet-IsInOrder past in
      let (o', _) = Step-IsInOrder u _ o (consumes u c held) in
      let (o'', g) = Steps-IsInOrder _ v o' future in
      consumed_once d c other u.ceremony v.ceremony (o.known c held) granted g
        (o''.known other held') same

  -- However requests overlap, a claim keeps its identity, scopes, resource, expiry and code hashes
  -- from one state to every later one, its version never goes down, and the time of its use stays.
  pub claims_develop :
      (u v : World) (k : String) (old : ClaimRecord)
      → Steps d quiet u
      → Steps d u v
      → Map.get k u.ceremony.claims ≡ some old
      → (next : ClaimRecord) × (Map.get k v.ceremony.claims ≡ some next) × Follows old next
  claims_develop u v k old past future h =
      let (o, _) = Steps-IsInOrder quiet u quiet-IsInOrder past in
      let (o', g) = Steps-IsInOrder u v o future in g.claims k old h
