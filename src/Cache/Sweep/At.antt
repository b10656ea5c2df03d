-- ===== src/Cache/Sweep/At.antt =====
-- A sweep followed at one shard, with the tally of the whole.
use zabbix_exporter.Prelude.{
  ℕ, zero, suc, ◌<◌, List, [], ◌∷◌, ◌==◌, keep, All, length, get_or, arith, All-keep,
}
use zabbix_exporter.Cache.Shard.{ValueShard, empty_shard}
use zabbix_exporter.Cache.Sweep.{run_bucket, visit, sweep}

-- `P` relates the shard and the tally: a request of `G` keeps it, the end of a visit keeps it, and
-- so do the requests that other shards handle.
module _ {Q R : Type 0} (index : Q → ℕ) (step : Q → ValueShard → R → ValueShard × R)
    (finish : ValueShard → ValueShard) (G : Q → Type 0) (P : ValueShard → R → Type 0)
    (steps : (q : Q) (s : ValueShard) (r : R) → G q → P s r → P (step q s r).0 (step q s r).1)
    (finishes : (s : ValueShard) (r : R) → P s r → P (finish s) r)
    (moves : (q : Q) (s s' : ValueShard) (r : R) → P s r → P s (step q s' r).1) where
  at-run_bucket :
      (qs : List Q) (s : ValueShard) (r : R)
      → All G qs
      → P s r
      → P (run_bucket index step finish qs s r).0 (run_bucket index step finish qs s r).1
  unfolding run_bucket
  at-run_bucket [] s r g h = h
  at-run_bucket (q ∷ qs) s r g h =
      at-run_bucket qs (step q s r).0 (step q s r).1 g.1 (steps q s r g.0 h)

  at-visit :
      (qs : List Q) (s : ValueShard) (r : R)
      → All G qs
      → P s r
      → P (visit index step finish qs s r).0 (visit index step finish qs s r).1
  unfolding visit
  at-visit [] s r g h = h
  at-visit (q ∷ qs) s r g h = finishes _ _ (at-run_bucket (q ∷ qs) s r g h)

  past-run_bucket :
      (qs : List Q) (s s' : ValueShard) (r : R)
      → P s r
      → P s (run_bucket index step finish qs s' r).1
  unfolding run_bucket
  past-run_bucket [] s s' r h = h
  past-run_bucket (q ∷ qs) s s' r h =
      past-run_bucket qs s (step q s' r).0 (step q s' r).1 (moves q s s' r h)

  past-visit :
      (qs : List Q) (s s' : ValueShard) (r : R) → P s r → P s (visit index step finish qs s' r).1
  unfolding visit
  past-visit [] s s' r h = h
  past-visit (q ∷ qs) s s' r h = past-run_bucket (q ∷ qs) s s' r h

  past-sweep :
      (qs : List Q) (i : ℕ) (ss : List ValueShard) (s : ValueShard) (r : R)
      → P s r
      → P s (sweep index step finish qs i ss r).1
  unfolding sweep
  past-sweep qs i [] s r h = h
  past-sweep qs i (s' ∷ ss) s r h =
      past-sweep qs (suc i) ss s (visit index step finish (keep (λ q. index q == i) qs) s' r).1
        (past-visit (keep (λ q. index q == i) qs) s s' r h)

  pub at-sweep :
      (qs : List Q) (i j : ℕ) (ss : List ValueShard) (r : R)
      → All G qs
      → j < length ss
      → P (get_or ss j empty_shard) r
      → P
          (get_or (sweep index step finish qs i ss r).0 j empty_shard)
          (sweep index step finish qs i ss r).1
  unfolding sweep
  at-sweep qs i j [] r g lt h = absurd (omega arith)
  at-sweep qs i zero (s ∷ ss) r g lt h =
      past-sweep qs (suc i) ss (visit index step finish (keep (λ q. index q == i) qs) s r).0
        (visit index step finish (keep (λ q. index q == i) qs) s r).1
        (at-visit (keep (λ q. index q == i) qs) s r (All-keep G (λ q. index q == i) qs g) h)
  at-sweep qs i (suc j) (s ∷ ss) r g lt h =
      at-sweep qs (suc i) j ss (visit index step finish (keep (λ q. index q == i) qs) s r).1 g
        (omega arith) (past-visit (keep (λ q. index q == i) qs) (get_or ss j empty_shard) s r h)
