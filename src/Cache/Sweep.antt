-- ===== src/Cache/Sweep.antt =====
-- The loop that every bulk operation of value_cache.go runs: requests are put into one bucket for
-- each shard, and the touched shards are visited in rising order, each under its lock. `index`
-- says which shard a request belongs to, `step` handles one request, `finish` is what a visit does
-- before the lock is released.
pub mod Laws
pub mod At
pub mod Growth
pub mod Clean
use zabbix_exporter.Prelude.{ℕ, suc, List, [], ◌∷◌, Bool, ◌==◌, keep}
use zabbix_exporter.Cache.Shard.{ValueShard}

module _ {Q R : Type 0} (index : Q → ℕ) (step : Q → ValueShard → R → ValueShard × R)
    (finish : ValueShard → ValueShard) where
  -- The requests of one shard, in the order of the call.
  abbrev pub bucket : ℕ → List Q → List Q
  bucket i = keep (λ q. index q == i)

  unfoldable pub run_bucket : List Q → ValueShard → R → ValueShard × R
  run_bucket [] s r = (s, r)
  run_bucket (q ∷ qs) s r = let (s', r') = step q s r in run_bucket qs s' r'

  -- A shard with no request is not touched.
  unfoldable pub visit : List Q → ValueShard → R → ValueShard × R
  visit [] s r = (s, r)
  visit (q ∷ qs) s r = let (s', r') = run_bucket (q ∷ qs) s r in (finish s', r')

  unfoldable pub sweep : List Q → ℕ → List ValueShard → R → List ValueShard × R
  sweep qs i [] r = ([], r)
  sweep qs i (s ∷ ss) r =
      let (s', r') = visit (bucket i qs) s r in
      let (ss', r'') = sweep qs (suc i) ss r' in (s' ∷ ss', r'')
