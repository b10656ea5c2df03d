-- ===== src/Cache/Sweep/Growth.antt =====
-- A quantity of the shards that grows with a counter of the tally.
use zabbix_exporter.Prelude.{ℕ, suc, ◌+◌, ◌≡◌, refl, List, [], ◌∷◌, ◌==◌, keep, total, arith}
use zabbix_exporter.Cache.Shard.{ValueShard}
use zabbix_exporter.Cache.Sweep.{run_bucket, visit, sweep}

module _ {Q R : Type 0} (index : Q → ℕ) (step : Q → ValueShard → R → ValueShard × R)
    (finish : ValueShard → ValueShard) (m : ValueShard → ℕ) (g : R → ℕ)
    (steps : (q : Q) (s : ValueShard) (r : R) → m (step q s r).0 + g r ≡ m s + g (step q s r).1)
    (finishes : (s : ValueShard) → m (finish s) ≡ m s) where
  growth-run_bucket :
      (qs : List Q) (s : ValueShard) (r : R)
      → m (run_bucket index step finish qs s r).0 + g r
        ≡ m s + g (run_bucket index step finish qs s r).1
  unfolding run_bucket
  growth-run_bucket [] s r = refl
  growth-run_bucket (q ∷ qs) s r =
      omega (arith, steps q s r, growth-run_bucket qs (step q s r).0 (step q s r).1)

  growth-visit :
      (qs : List Q) (s : ValueShard) (r : R)
      → m (visit index step finish qs s r).0 + g r ≡ m s + g (visit index step finish qs s r).1
  unfolding visit
  growth-visit [] s r = refl
  growth-visit (q ∷ qs) s r = omega (
    arith,
    growth-run_bucket (q ∷ qs) s r,
    finishes (run_bucket index step finish (q ∷ qs) s r).0,
  )

  pub growth-sweep :
      (qs : List Q) (i : ℕ) (ss : List ValueShard) (r : R)
      → total m (sweep index step finish qs i ss r).0 + g r
        ≡ total m ss + g (sweep index step finish qs i ss r).1
  unfolding sweep
  growth-sweep qs i [] r = refl
  growth-sweep qs i (s ∷ ss) r = omega (
    arith,
    growth-visit (keep (λ q. index q == i) qs) s r,
    growth-sweep qs (suc i) ss (visit index step finish (keep (λ q. index q == i) qs) s r).1,
  )
