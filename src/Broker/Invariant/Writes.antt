-- ===== src/Broker/Invariant/Writes.antt =====
-- What a write to one grant, and the creation of one, need in order to keep the invariant.
use warden_md.Common.{
  if◌then◌else◌, Moves, Keeps, String, ◌≡◌, sym, ap, ◌∙◌, ◌≢◌, ◌⊎◌, Option, none, some, arith, ◌==◌,
  eq_iff,
}
use warden_md.Common.Map
use warden_md.Common.Map.{Map, get-set}
use warden_md.Broker.Types.{Grant}
use warden_md.Broker.Core.{Deps, Broker, M}
use warden_md.Broker.Ledger.{SameLedger}
use warden_md.Broker.Invariant.{grant_at, grant_name, Good}

-- A quiet move keeps everything.
pub SameLedger-Good : (d : Deps) (s0 s t : Broker) → SameLedger s t → Good d s0 s → Good d s0 t
SameLedger-Good d s0 s t l good = record {
  formed = record {
    keyed = λ k g e. good.formed.keyed k g (back k e);
    named = λ k g e. good.formed.named k g (back k e);
    issued = λ k g e. good.formed.issued k g (back k e);
    holds = λ k g e i.
        ap (λ m. Map.get g.subject_token_id m) l.holders ∙ good.formed.holds k g (back k e) i;
    closed = λ k g e. good.formed.closed k g (back k e) ∙ sym (l.evidence k);
    no_orphan = λ k e. l.evidence k ∙ good.formed.no_orphan k (back k e);
    unused = λ n h. forth (grant_name d n) (good.formed.unused n (omega (arith, l.drawn)));
  };
  evolved = record {
    later = λ k g e. let (h, at, dev) = good.evolved.later k g e in (h, forth k at, dev);
  };
}
  where
    back : (k : String) {o : Option Grant} → grant_at k t ≡ o → grant_at k s ≡ o
    back k e = ap (λ m. Map.get k m) (sym l.grants) ∙ e

    forth : (k : String) {o : Option Grant} → grant_at k s ≡ o → grant_at k t ≡ o
    forth k e = ap (λ m. Map.get k m) l.grants ∙ e

pub Quiet-Keeps :
    {A : Type 0} (d : Deps) (s0 : Broker) (m : M A) → Moves SameLedger m → Keeps (Good d s0) m
Quiet-Keeps d s0 m q = record { at = λ s h. SameLedger-Good d s0 s (m s).1 (q.at s) h }

module _ (k : String) (g' : Grant) (s t : Broker)
    (wrote : t.store.grants ≡ Map.set k g' s.store.grants) where
  -- The grants after the write.
  pub grant_at-write : (j : String) → grant_at j t ≡ (if k == j then some g' else grant_at j s)
  grant_at-write j = rw wrote (get-set k j g' s.store.grants)

  pub write_cases :
      (j : String) {h : Grant}
      → grant_at j t ≡ some h
      → ((k ≡ j) × (g' ≡ h)) ⊎ ((k ≢ j) × (grant_at j s ≡ some h))
  write_cases j e = ground (arith, grant_at-write j, eq_iff k j)

  pub write_none : (j : String) → grant_at j t ≡ none → (k ≢ j) × (grant_at j s ≡ none)
  write_none j e = ground (arith, grant_at-write j, eq_iff k j)

  pub write_other : (j : String) {o : Option Grant} → k ≢ j → grant_at j s ≡ o → grant_at j t ≡ o
  write_other j ne e = ground (arith, grant_at-write j, eq_iff k j)

  pub write_self : grant_at k t ≡ some g'
  write_self = ground (arith, grant_at-write k, eq_iff k k)
