-- ===== src/Broker/Crypto/Replay.antt =====
-- The replay table of DPoP proofs (`verifyDpopProof` of packages/broker/src/crypto.ts).
use warden_md.Common.{
  Bool-cases, All, ok, err, ℕ, ◌+◌, ◌<◌, String, ◌≡◌, refl, inl, inr, some, List, [], ◌∷◌, arith,
  ◌==◌, eq_iff, eq_refl,
}
use warden_md.Common.Map
use warden_md.Common.Map.{Map, get-set}
use warden_md.Broker.Errors.{dpop_proof_invalid}
use warden_md.Broker.Crypto.Dpop.{dpop_window_ms, purge, admit_jti}

-- The table after any proofs that reach it, each with its identifier and its time.
unfoldable pub admit_all : List (String × ℕ) → Map ℕ → Map ℕ
admit_all [] seen = seen
admit_all ((jti, now) ∷ proofs) seen = admit_all proofs (admit_jti jti now seen).1

get-purge :
    (jti : String) (now expiry : ℕ) (seen : Map ℕ)
    → Map.get jti seen ≡ some expiry
    → now < expiry
    → Map.get jti (purge now seen) ≡ some expiry
unfolding purge Map.get
get-purge jti now expiry [] h early = cc
get-purge jti now expiry ((j, x) ∷ seen) h early = elim (Bool-cases (j == jti)) [
  | inl hit ↦ ground (arith, rw hit at h, hit, early)
  | inr miss ↦ ground (arith, miss, early, get-purge jti now expiry seen (rw miss at h) early)
]

-- An identifier that is in the table stays, and is refused.
admit_jti-kept :
    (jti other : String) (now expiry : ℕ) (seen : Map ℕ)
    → Map.get jti seen ≡ some expiry
    → now < expiry
    → Map.get jti (admit_jti other now seen).1 ≡ some expiry
unfolding admit_jti
admit_jti-kept jti other now expiry seen h early =
    let still = get-purge jti now expiry seen h early in
    elim (Bool-cases (Map.has other (purge now seen))) [
      | inl before ↦ rw before still
      | inr fresh ↦ elim (Bool-cases (other == jti)) [
        | inl hit ↦ absurd (cc (still, fresh, (eq_iff other jti).0 hit))
        | inr miss ↦
            rw (fresh, get-set other jti (now + dpop_window_ms) (purge now seen), miss) still
      ]
    ]

admit_all-kept :
    (jti : String) (expiry : ℕ) (proofs : List (String × ℕ)) (seen : Map ℕ)
    → Map.get jti seen ≡ some expiry
    → All (λ proof. proof.1 < expiry) proofs
    → Map.get jti (admit_all proofs seen) ≡ some expiry
unfolding admit_all
admit_all-kept jti expiry [] seen h early = h
admit_all-kept jti expiry ((other, now) ∷ proofs) seen h (early, rest) =
    admit_all-kept jti expiry proofs (admit_jti other now seen).1
      (admit_jti-kept jti other now expiry seen h early) rest

admit_jti-recorded :
    (jti : String) (now : ℕ) (seen : Map ℕ)
    → (admit_jti jti now seen).0 ≡ ok tt
    → Map.get jti (admit_jti jti now seen).1 ≡ some (now + dpop_window_ms)
unfolding admit_jti
admit_jti-recorded jti now seen admitted = elim (Bool-cases (Map.has jti (purge now seen))) [
  | inl before ↦ absurd (cc (rw before at admitted))
  | inr fresh ↦
      rw (fresh, get-set jti jti (now + dpop_window_ms) (purge now seen), eq_refl jti) refl
]

admit_jti-refused :
    (jti : String) (now expiry : ℕ) (seen : Map ℕ)
    → Map.get jti seen ≡ some expiry
    → now < expiry
    → (admit_jti jti now seen).0 ≡ err dpop_proof_invalid
unfolding admit_jti
admit_jti-refused jti now expiry seen h early = rw (get-purge jti now expiry seen h early) refl

-- A proof whose identifier was admitted is refused for as long as the window of 300 seconds has not
-- passed, whatever proofs come before the window's end in between.
pub replayed_proof_refused :
    (jti : String) (now later : ℕ) (proofs : List (String × ℕ)) (seen : Map ℕ)
    → (admit_jti jti now seen).0 ≡ ok tt
    → All (λ proof. proof.1 < now + dpop_window_ms) proofs
    → later < now + dpop_window_ms
    → (admit_jti jti later (admit_all proofs (admit_jti jti now seen).1)).0 ≡ err dpop_proof_invalid
replayed_proof_refused jti now later proofs seen admitted early soon =
    admit_jti-refused jti later (now + dpop_window_ms) (admit_all proofs (admit_jti jti now seen).1)
      (admit_all-kept jti (now + dpop_window_ms) proofs (admit_jti jti now seen).1
        (admit_jti-recorded jti now seen admitted) early)
      soon
