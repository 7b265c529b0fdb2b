-- ===== src/Service/Agent/Quiet.antt =====
-- packages/service/src/service.ts: what leaves the store alone. Nothing but a few steps at the end
-- of an operation writes the store, except the marks of replayed tokens.
use warden_md.Common.Map
use warden_md.Common.Map.{Map}
use warden_md.Common.{
  if◌then◌else◌, Bool-cases, append, pure, throw, require, gets, throw_if, ◌>>=◌, ◌>>◌, Moves,
  Ensures, Ensures-pure, Ensures-throw, Ensures-require, Ensures-gets, Ensures-if, Ensures-bind,
  Ensures-guard, ℕ, ◌*◌, ◌≤◌, String, ◌≡◌, refl, sym, ap, ◌∙◌, inl, inr, Bool, true, false, not,
  Option, some, arith,
}
use warden_md.Service.Jose.Verify.{
  Expected, OpenedJwt, decode_jwt, is_expected, is_current, is_signed,
}
use warden_md.Service.Errors.{OauthErrorCode, invalid_grant}
use warden_md.Service.Types.{ReplayRecord}
use warden_md.Service.Claim.Ticks.{Later, claim_now-Later}
use warden_md.Service.Claim.{C, claim_now, next_identifier}
use warden_md.Service.Store.{ServiceStore, still_used, mark_if_unused}
use warden_md.Service.Jose.{JwtClaims, VerifiedJwt}
use warden_md.Service.Agent.{
  AgentDeps, Agent, S, in_ceremony, in_store, integer_seconds, agent_now, agent_identifier,
  mark_replay, verify_jwt,
}

-- The store is the same, but for its replay marks, and the clock was read no fewer times.
pub record Same (s t : Agent) : Type 0 where
  pub store : t.store ≡ record s.store { replays = t.store.replays }
  pub later : s.ceremony.ticks ≤ t.ceremony.ticks

pub Same-refl : (s : Agent) → Same s s
Same-refl s = record { store = refl; later = omega arith }

pub Same-trans : (s t u : Agent) → Same s t → Same t u → Same s u
Same-trans s t u p q = record {
  store = q.store ∙ ap (λ (x : ServiceStore). record x { replays = u.store.replays }) p.store;
  later = omega (arith, p.later, q.later);
}

-- A quiet step that says `Q` of its value.
abbrev pub Quiet : {A : Type 0} → Agent → (A → Type 0) → S A → Type 0
Quiet s0 Q m = Ensures Same s0 Q m

module _ {s0 : Agent} {A : Type 0} where
  pub Quiet-pure : (Q : A → Type 0) (a : A) → Q a → Quiet s0 Q (pure a)
  Quiet-pure = Ensures-pure Same Same-refl Same-trans

  pub Quiet-throw : (Q : A → Type 0) (e : OauthErrorCode) → Quiet s0 Q (throw e)
  Quiet-throw = Ensures-throw Same Same-refl Same-trans

  pub Quiet-require : (o : Option A) (e : OauthErrorCode) → Quiet s0 (λ a. o ≡ some a) (require o e)
  Quiet-require = Ensures-require Same Same-refl Same-trans

  pub Quiet-gets :
      (Q : A → Type 0) (f : Agent → A) → ((s : Agent) → Same s0 s → Q (f s)) → Quiet s0 Q (gets f)
  Quiet-gets = Ensures-gets Same Same-refl Same-trans

  pub Quiet-ceremony : (m : C A) → Moves Later m → Quiet s0 (λ _. Unit) (in_ceremony m)
  Quiet-ceremony m up = record {
    at = λ s a r h. tt;
    moves = λ s r. record { store = refl; later = (up.at s.ceremony).ticks };
  }

  pub Quiet-if :
      (Q : A → Type 0) (b : Bool) (m n : S A)
      → (b ≡ true → Quiet s0 Q m)
      → (b ≡ false → Quiet s0 Q n)
      → Quiet s0 Q (if b then m else n)
  Quiet-if = Ensures-if Same Same-refl Same-trans

  pub Quiet-guard :
      (Q : A → Type 0) (b : Bool) (e : OauthErrorCode) (n : S A)
      → (b ≡ false → Quiet s0 Q n)
      → Quiet s0 Q (throw_if b e >> n)
  Quiet-guard = Ensures-guard Same Same-refl Same-trans

module _ {s0 : Agent} {A B : Type 0} (Q : B → Type 0) where
  pub Quiet-bind :
      (m : S A) (f : A → S B) (P : A → Type 0)
      → Quiet s0 P m
      → ((a : A) → P a → Quiet s0 Q (f a))
      → Quiet s0 Q (m >>= f)
  Quiet-bind = Ensures-bind Same Same-refl Same-trans Q

  -- A step whose value is of no account, and a value that must be there.
  pub Quiet-then :
      (m : S A) (f : A → S B)
      → Quiet s0 (λ _. Unit) m
      → ((a : A) → Quiet s0 Q (f a))
      → Quiet s0 Q (m >>= f)
  Quiet-then m f p q = Quiet-bind m f (λ _. Unit) p (λ a _. q a)

  pub Quiet-need :
      (o : Option A) (e : OauthErrorCode) (f : A → S B)
      → ((a : A) → o ≡ some a → Quiet s0 Q (f a))
      → Quiet s0 Q (require o e >>= f)
  Quiet-need o e f q = Quiet-bind (require o e) f (λ a. o ≡ some a) (Quiet-require o e) q

module _ {s0 : Agent} where
  pub Quiet-throw_if : (b : Bool) (e : OauthErrorCode) → Quiet s0 (λ _. Unit) (throw_if b e)
  Quiet-throw_if true e = record { at = λ s a r h. tt; moves = λ s r. Same-refl s }
  Quiet-throw_if false e = record { at = λ s a r h. tt; moves = λ s r. Same-refl s }

  Quiet-mark : (r : ReplayRecord) (at : ℕ) → Quiet s0 (λ _. Unit) (in_store (mark_if_unused r at))
  unfolding mark_if_unused
  Quiet-mark r at = record {
    at = λ s a h e. tt;
    moves = λ s h. elim (Bool-cases (still_used (Map.get r.id s.store.replays) at)) [
      | inl used ↦ rw used (Same-refl s)
      | inr free ↦ rw free (record { store = refl; later = omega arith })
    ];
  }

module _ (d : AgentDeps) where
  -- What a verified token went through: the text was taken apart, its claims are of the expected
  -- issuer and audience and current at a reading of the clock since, and its signature was checked with the
  -- key that is resolved for its issuer and key identifier.
  pub record IsVerified (s0 : Agent) (resolve : ℕ → String → String → Option ℕ)
      (expected : Expected) (token : String) (v : VerifiedJwt) : Type 0 where
    pub opened : OpenedJwt
    pub decoded : decode_jwt d.jose token ≡ some opened
    pub claims : v.claims ≡ opened.claims
    pub right : is_expected expected v.claims ≡ true
    pub tick : ℕ
    pub since : s0.ceremony.ticks ≤ tick
    pub current : is_current (integer_seconds (d.claim.clock tick)) v.claims ≡ true
    pub asked : ℕ
    pub asked_since : s0.ceremony.ticks ≤ asked
    pub key : ℕ
    pub resolved : resolve asked opened.claims.iss opened.header.kid ≡ some key
    pub signed : is_signed d.jose key opened ≡ true

module _ (d : AgentDeps) {s0 : Agent} where
  pub Quiet-now : Quiet s0 (λ _. Unit) (agent_now d)
  unfolding agent_now
  Quiet-now = Quiet-ceremony (claim_now d.claim) (claim_now-Later d.claim)

  pub Quiet-identifier : (prefix : String) → Quiet s0 (λ _. Unit) (agent_identifier d prefix)
  unfolding agent_identifier next_identifier
  Quiet-identifier prefix =
      Quiet-ceremony (next_identifier d.claim prefix)
        (record { at = λ s. record { ticks = omega arith } })

  Quiet-replay :
      (replay : Bool) (claims : JwtClaims) → Quiet s0 (λ _. Unit) (mark_replay d replay claims)
  unfolding mark_replay
  Quiet-replay false claims = Quiet-pure (λ _. Unit) tt tt
  Quiet-replay true claims =
      Quiet-bind (λ _. Unit) (agent_now d) _ (λ _. Unit) Quiet-now
        λ at _.
          Quiet-bind (λ _. Unit)
            (in_store (
              mark_if_unused
                (record {
                  id = append claims.iss (append ":" claims.jti);
                  expires_at = claims.exp * 1000;
                })
                at))
            _ (λ _. Unit) (Quiet-mark _ at) λ unused _. Quiet-throw_if (not unused) invalid_grant

  pub Quiet-reading :
      Quiet s0
        (λ at. (tick : ℕ) × (s0.ceremony.ticks ≤ tick) × (at ≡ d.claim.clock tick))
        (agent_now d)
  unfolding agent_now claim_now
  Quiet-reading = record {
    at = λ s a r h. (s.ceremony.ticks, r.later, cc h);
    moves = λ s r. record { store = refl; later = omega arith };
  }

  -- Verifying a token writes no more than its replay mark.
  pub Quiet-verify :
      (resolve : ℕ → String → String → Option ℕ) (expected : Expected) (replay : Bool)
      (token : String)
      → Quiet s0
          (IsVerified d s0 resolve expected token)
          (verify_jwt d resolve expected replay token)
  unfolding verify_jwt
  Quiet-verify resolve expected replay token =
      let Q = IsVerified d s0 resolve expected token in
      Quiet-need Q (decode_jwt d.jose token) invalid_grant _ λ opened decoded.
        Quiet-guard Q (not (is_expected expected opened.claims)) invalid_grant _ λ right.
          Quiet-bind Q (agent_now d) _ _ Quiet-reading λ at reading.
            Quiet-guard Q (not (is_current (integer_seconds at) opened.claims)) invalid_grant _
              λ current.
                let find : Agent → Option ℕ =
                  λ s. resolve s.ceremony.ticks opened.claims.iss opened.header.kid in
                let P : Option ℕ → Type 0 = λ o.
                  (n : ℕ) × (s0.ceremony.ticks ≤ n)
                  × (resolve n opened.claims.iss opened.header.kid ≡ o) in
                Quiet-bind Q (gets find) _ P
                  (Quiet-gets P find (λ s r. (s.ceremony.ticks, r.later, refl)))
                  λ found from. Quiet-need Q found invalid_grant _ λ key is.
                    Quiet-guard Q (not (is_signed d.jose key opened)) invalid_grant _ λ signed.
                      Quiet-then Q (mark_replay d replay opened.claims) _
                        (Quiet-replay replay opened.claims)
                        λ _.
                          Quiet-pure Q (record { header = opened.header; claims = opened.claims })
                            (record {
                              opened = opened;
                              decoded = decoded;
                              claims = refl;
                              right = ground (arith, right);
                              tick = reading.0;
                              since = reading.1;
                              current = rw (sym reading.2) (ground (arith, current));
                              asked = from.0;
                              asked_since = from.1;
                              key = key;
                              resolved = from.2 ∙ is;
                              signed = ground (arith, signed);
                            })
