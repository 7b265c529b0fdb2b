-- ===== src/Broker/Store/Snapshot.antt =====
-- packages/broker/src/store.ts: `snapshot`, `restore` and `fromSnapshot` of `InMemoryBrokerStore`.
use warden_md.Common.{
  eqb, if◌then◌else◌, ℕ, String, ◌≡◌, refl, sym, ap, ◌∙◌, not, Option, none, some, List, [], ◌∷◌,
  ◌++◌, arith,
}
use warden_md.Common.Map
use warden_md.Common.Map.{Map}
use warden_md.Broker.Types.{Grant, AuditEvent, RevocationDelivery, EvidenceRecord}
use warden_md.Broker.Store.{Store, empty_store, list_grants}

-- `version` is a number, which `restore` tests.
pub record BrokerStoreSnapshot : Type 0 where
  pub version : ℕ
  pub grants : List Grant
  pub audits : List (String × List AuditEvent)
  pub evidence : List EvidenceRecord
  pub idempotency : List (String × String)
  pub subject_token_grants : List (String × String)
  pub deliveries : List (String × List RevocationDelivery)

unfoldable pub snapshot : Store → BrokerStoreSnapshot
unfolding list_grants
snapshot store = record {
  version = 1;
  grants = list_grants store;
  audits = store.audits;
  evidence = Map.values store.evidence;
  idempotency = store.idempotency;
  subject_token_grants = store.subject_token_grant;
  deliveries = store.deliveries;
}

module _ {ℓ} {V : Type ℓ} where
  -- `for (const [key, value] of entries) { table.set(key, value); }`
  unfoldable pub set_entries : List (String × V) → Map V → Map V
  set_entries [] table = table
  set_entries ((k, v) ∷ entries) table = set_entries entries (Map.set k v table)

  -- `for (const value of values) { table.set(value.id, value); }`
  unfoldable pub set_values : (V → String) → List V → Map V → Map V
  set_values key [] table = table
  set_values key (v ∷ rest) table = set_values key rest (Map.set (key v) v table)

-- The state of the store is `none` where `restore` throws, before it has cleared anything.
unfoldable pub restore : BrokerStoreSnapshot → Option Store
restore saved =
    if not (eqb saved.version 1)
    then none
    else some (record {
      grants = set_values (λ grant. grant.id) saved.grants [];
      audits = set_entries saved.audits [];
      evidence = set_values (λ evidence. evidence.grant_id) saved.evidence [];
      idempotency = set_entries saved.idempotency [];
      subject_token_grant = set_entries saved.subject_token_grants [];
      deliveries = set_entries saved.deliveries [];
    })

unfoldable pub from_snapshot : Option BrokerStoreSnapshot → Option Store
from_snapshot none = some empty_store
from_snapshot (some saved) = restore saved

module _ {V : Type 0} where
  -- No key of the entries occurs twice, or in the table.
  abbrev pub AreNew : List (String × V) → Map V → Type 0
  AreNew [] table = Unit {0}
  AreNew ((k, v) ∷ entries) table = (Map.get k table ≡ none) × AreNew entries (table ++ (k, v) ∷ [])

  -- Every value stands under its own key.
  abbrev pub AreUnder : (V → String) → List (String × V) → Type 0
  AreUnder key [] = Unit {0}
  AreUnder key ((k, v) ∷ entries) = (key v ≡ k) × AreUnder key entries

  set-absent :
      (k : String) (v : V) (table : Map V)
      → Map.get k table ≡ none
      → Map.set k v table ≡ table ++ (k, v) ∷ []
  unfolding Map.get Map.set
  set-absent k v [] h = refl
  set-absent k v ((j, w) ∷ table) h = ground (arith, h, set-absent k v table)

  append_assoc : (a b c : Map V) → (a ++ b) ++ c ≡ a ++ (b ++ c)
  append_assoc [] b c = refl
  append_assoc (x ∷ a) b c = ap (λ r. x ∷ r) (append_assoc a b c)

  append_nil : (a : Map V) → a ++ [] ≡ a
  append_nil [] = refl
  append_nil (x ∷ a) = ap (λ r. x ∷ r) (append_nil a)

  set_entries-append :
      (entries : List (String × V)) (table : Map V)
      → AreNew entries table
      → set_entries entries table ≡ table ++ entries
  unfolding set_entries
  set_entries-append [] table h = sym (append_nil table)
  set_entries-append ((k, v) ∷ entries) table (absent, rest) = rw (set-absent k v table absent) (
      set_entries-append entries (table ++ (k, v) ∷ []) rest
      ∙ append_assoc table ((k, v) ∷ []) entries)

  set_values-append :
      (key : V → String) (entries : List (String × V)) (table : Map V)
      → AreUnder key entries
      → AreNew entries table
      → set_values key (Map.values entries) table ≡ table ++ entries
  unfolding set_values
  set_values-append key [] table u h = sym (append_nil table)
  set_values-append key ((k, v) ∷ entries) table (under, below) (absent, rest) =
      ap (λ next. set_values key (Map.values entries) next)
        (ap (λ j. Map.set j v table) under ∙ set-absent k v table absent)
      ∙ set_values-append key entries (table ++ (k, v) ∷ []) below rest
      ∙ append_assoc table ((k, v) ∷ []) entries

-- Tables as the store's methods fill them: no key twice, grants and evidence under their own keys.
pub record IsKeyed (store : Store) : Type 0 where
  pub grants : AreNew store.grants []
  pub grant_ids : AreUnder (λ grant. grant.id) store.grants
  pub audits : AreNew store.audits []
  pub evidence : AreNew store.evidence []
  pub evidence_ids : AreUnder (λ evidence. evidence.grant_id) store.evidence
  pub idempotency : AreNew store.idempotency []
  pub subject_token_grant : AreNew store.subject_token_grant []
  pub deliveries : AreNew store.deliveries []

-- A store whose tables hold no key twice, with grants and evidence under their own identifiers,
-- comes back from its snapshot as it was.
pub from_snapshot-snapshot :
    (store : Store) → IsKeyed store → from_snapshot (some (snapshot store)) ≡ some store
unfolding from_snapshot restore snapshot list_grants
from_snapshot-snapshot store k =
    rw
      (
        set_values-append (λ grant. grant.id) store.grants [] k.grant_ids k.grants,
        set_entries-append store.audits [] k.audits,
        set_values-append (λ evidence. evidence.grant_id) store.evidence [] k.evidence_ids
            k.evidence,
        set_entries-append store.idempotency [] k.idempotency,
        set_entries-append store.subject_token_grant [] k.subject_token_grant,
        set_entries-append store.deliveries [] k.deliveries,
      )
      refl
