-- ===== src/Service/Agent/Scopes.antt =====
-- packages/service/src/service.ts: what the comparisons of scopes and of resources say.
use warden_md.Service.Types.{ServiceIdentity}
use warden_md.Service.Store.{first}
use warden_md.Common.{
  Bool-cases, Option-cases, truthy, includes, All, all_iff, String, ◌≡◌, refl, sym, inl, inr, Bool,
  true, ◌&&◌, some, List, [], ◌∷◌, arith, ◌==◌, eq_iff, eq_refl,
}
use warden_md.Service.Agent.{
  AgentDeps, scopes_within, or_fallback, normalize_resource, configured_resource, resource_matches,
}

includes_lem :
    (p : String → Bool) (xs : List String) (s : String)
    → All (λ x. p x ≡ true) xs
    → includes xs s ≡ true
    → p s ≡ true
includes_lem p [] s every there = cc there
includes_lem p (x ∷ xs) s (first, rest) there = elim (Bool-cases (x == s)) [
  | inl same ↦ rw (sym ((eq_iff x s).0 same)) first
  | inr apart ↦ includes_lem p xs s rest (ground (arith, there, apart))
]

All-weaker :
    (p q : String → Bool) (xs : List String)
    → ((s : String) → p s ≡ true → q s ≡ true)
    → All (λ x. p x ≡ true) xs
    → All (λ x. q x ≡ true) xs
All-weaker p q [] imp every = tt
All-weaker p q (x ∷ xs) imp (first, rest) = (imp x first, All-weaker p q xs imp rest)

-- Being within is an order on lists of scopes.
pub scopes_within_trans :
    (a b c : List String)
    → scopes_within a b ≡ true
    → scopes_within b c ≡ true
    → scopes_within a c ≡ true
unfolding scopes_within
scopes_within_trans a b c p q = (all_iff (includes c) a).1 (
    All-weaker (includes b) (includes c) a
      (λ s there. includes_lem (includes c) b s ((all_iff (includes c) b).0 q) there)
      ((all_iff (includes b) a).0 p))

within_longer :
    (x : String) (a b : List String) → scopes_within a b ≡ true → scopes_within a (x ∷ b) ≡ true
unfolding scopes_within
within_longer x a b p = (all_iff (includes (x ∷ b)) a).1 (
    All-weaker (includes b) (includes (x ∷ b)) a (λ s there. ground (arith, there))
      ((all_iff (includes b) a).0 p))

pub scopes_within_refl : (a : List String) → scopes_within a a ≡ true
unfolding scopes_within
scopes_within_refl [] = refl
scopes_within_refl (x ∷ a) = rw (eq_refl x) (within_longer x a a (scopes_within_refl a))

pub fallback-within :
    (a b : List String) → scopes_within a b ≡ true → scopes_within (or_fallback a b) b ≡ true
fallback-within [] b p = scopes_within_refl b
fallback-within (x ∷ a) b p = p

module _ (d : AgentDeps) where
  pub configured_resource-eq-some :
      (text resource : String)
      → configured_resource d text ≡ some resource
      → includes d.protected_resources resource ≡ true
  unfolding configured_resource
  configured_resource-eq-some text resource h =
      elim (Option-cases (normalize_resource d.parse_url text)) [
        | inl absent ↦ absurd (cc (rw (configured_resource, absent) at h))
        | inr (normalized, there) ↦
            elim (Bool-cases (truthy normalized && includes d.protected_resources normalized)) [
              | inl both ↦
                  let same : normalized ≡ resource =
                    cc (rw (configured_resource, there, both) at h) in
                  rw (sym same) (ground (arith, both))
              | inr neither ↦ absurd (cc (rw (configured_resource, there, neither) at h))
            ]
      ]

  -- A resource that matches an identity is one of the service's, and the identity's own if it has
  -- one.
  pub record Matches (identity : ServiceIdentity) (resource : String) : Type 0 where
    pub configured : String
    pub normal : configured_resource d resource ≡ some configured
    pub in_service : includes d.protected_resources configured ≡ true
    pub agrees :
        (registered : String) → identity.resource ≡ some registered → registered ≡ configured

  pub resource_matches-Matches :
      (identity : ServiceIdentity) (resource : String)
      → resource_matches d identity resource ≡ true
      → Matches identity resource
  unfolding resource_matches
  resource_matches-Matches identity resource h =
      elim (Option-cases (configured_resource d resource)) [
        | inl absent ↦ absurd (cc (rw absent at h))
        | inr (configured, normal) ↦ record {
          configured = configured;
          normal = normal;
          in_service = configured_resource-eq-some resource configured normal;
          agrees = λ registered own. (eq_iff registered configured).0 (rw (normal, own) at h);
        }
      ]
