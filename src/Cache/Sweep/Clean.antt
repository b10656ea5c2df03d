-- ===== src/Cache/Sweep/Clean.antt =====
-- The requests of a sweep, judged by its tally at the end.
use zabbix_exporter.Prelude.{
  ℕ, suc, ◌+◌, ◌<◌, ◌≡◌, List, [], ◌∷◌, ◌&&◌, ltb, leb, ◌==◌, keep, All, length, arith, Bool-cases,
  inl, inr, true, false,
}
use zabbix_exporter.Cache.Shard.{ValueShard}
use zabbix_exporter.Cache.Sweep.{run_bucket, visit, sweep}

-- `T` holds of a tally after a request only if it held before and the request is a good one.
module _ {Q R : Type 0} (index : Q → ℕ) (step : Q → ValueShard → R → ValueShard × R)
    (finish : ValueShard → ValueShard) (G : Q → Type 0) (T : R → Type 0)
    (steps : (q : Q) (s : ValueShard) (r : R) → T (step q s r).1 → T r × G q) where
  clean-run_bucket :
      (qs : List Q) (s : ValueShard) (r : R)
      → T (run_bucket index step finish qs s r).1
      → T r × All G qs
  unfolding run_bucket
  clean-run_bucket [] s r h = (h, tt)
  clean-run_bucket (q ∷ qs) s r h =
      let rest = clean-run_bucket qs (step q s r).0 (step q s r).1 h in
      let here = steps q s r rest.0 in (here.0, (here.1, rest.1))

  clean-visit :
      (qs : List Q) (s : ValueShard) (r : R) → T (visit index step finish qs s r).1 → T r × All G qs
  unfolding visit
  clean-visit [] s r h = (h, tt)
  clean-visit (q ∷ qs) s r h = clean-run_bucket (q ∷ qs) s r h

  abbrev within : ℕ → ℕ → List Q → List Q
  within i n = keep (λ q. leb i (index q) && ltb (index q) (i + n))

  All-within :
      (i n : ℕ) (qs : List Q)
      → All G (keep (λ q. index q == i) qs)
      → All G (within (suc i) n qs)
      → All G (within i (suc n) qs)
  All-within i n [] a b = tt
  All-within i n (q ∷ qs) a b = elim (Bool-cases (index q == i)) [
    | inl t ↦
        let here : (leb i (index q) && ltb (index q) (i + suc n)) ≡ true = ground arith in
        let later : (leb (suc i) (index q) && ltb (index q) (suc i + n)) ≡ false = ground arith in
        let a' = rw t at a in rw here (a'.0, All-within i n qs a'.1 (rw later at b))
    | inr f ↦ elim (Bool-cases (leb (suc i) (index q) && ltb (index q) (suc i + n))) [
      | inl u ↦
          let here : (leb i (index q) && ltb (index q) (i + suc n)) ≡ true = ground arith in
          let b' = rw u at b in rw here (b'.0, All-within i n qs (rw f at a) b'.1)
      | inr u ↦
          let here : (leb i (index q) && ltb (index q) (i + suc n)) ≡ false = ground arith in
          rw here (All-within i n qs (rw f at a) (rw u at b))
    ]
  ]

  within-All : (n : ℕ) (qs : List Q) → ((q : Q) → index q < n) → All G (within 0 n qs) → All G qs
  within-All n [] h a = tt
  within-All n (q ∷ qs) h a =
      let here : (leb 0 (index q) && ltb (index q) (0 + n)) ≡ true = ground (arith, h q) in
      let a' = rw here at a in (a'.0, within-All n qs h a'.1)

  within_none-All : (i : ℕ) (qs : List Q) → All G (within i 0 qs)
  within_none-All i [] = tt
  within_none-All i (q ∷ qs) =
      let here : (leb i (index q) && ltb (index q) (i + 0)) ≡ false = ground arith in
      rw here (within_none-All i qs)

  clean_within :
      (qs : List Q) (i : ℕ) (ss : List ValueShard) (r : R)
      → T (sweep index step finish qs i ss r).1
      → T r × All G (within i (length ss) qs)
  unfolding sweep
  clean_within qs i [] r h = (h, within_none-All i qs)
  clean_within qs i (s ∷ ss) r h =
      let rest =
        clean_within qs (suc i) ss (visit index step finish (keep (λ q. index q == i) qs) s r).1
          h in
      let here = clean-visit (keep (λ q. index q == i) qs) s r rest.0 in
      (here.0, All-within i (length ss) qs here.1 rest.1)

  pub clean-sweep :
      (qs : List Q) (ss : List ValueShard) (r : R)
      → ((q : Q) → index q < length ss)
      → T (sweep index step finish qs 0 ss r).1
      → T r × All G qs
  clean-sweep qs ss r h t =
      let range = clean_within qs 0 ss r t in (range.0, within-All (length ss) qs h range.1)
