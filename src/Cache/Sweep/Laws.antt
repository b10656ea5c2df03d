-- ===== src/Cache/Sweep/Laws.antt =====
-- What a sweep does to one item, to a shard's invariant, and to a sum over the shards.
use zabbix_exporter.Prelude.{
  ℕ, zero, suc, ◌+◌, ◌<◌, ◌≡◌, refl, ◌∙◌, ap, List, [], ◌∷◌, ◌&&◌, ltb, leb, ◌==◌, keep, All, total,
  length, get_or, String, Option, ite, if_neg, text_dec, lookup, arith, Bool-cases, inl, inr,
  ==_iff,
}
use zabbix_exporter.Cache.State.{ValueState}
use zabbix_exporter.Cache.Shard.{ValueShard, empty_shard}
use zabbix_exporter.Cache.Sweep.{run_bucket, visit, sweep}

-- A flat map treated by one request after the other: the effect on the item `id`.
unfoldable pub replay :
    {Q : Type 0}
    → (Q → String)
    → (Q → Option ValueState → Option ValueState)
    → String
    → List Q
    → Option ValueState
    → Option ValueState
replay key effect id [] o = o
replay key effect id (q ∷ qs) o = replay key effect id qs (ite (text_dec (key q) id) (effect q o) o)

module _ {Q R : Type 0} (index : Q → ℕ) (step : Q → ValueShard → R → ValueShard × R)
    (finish : ValueShard → ValueShard) where
  module _ (key : Q → String) (effect : Q → Option ValueState → Option ValueState) (id : String)
      (steps : (q : Q) (s : ValueShard) (r : R)
        → lookup id (step q s r).0.values
          ≡ ite (text_dec (key q) id) (effect q (lookup id s.values)) (lookup id s.values))
      (finishes : (s : ValueShard) → (finish s).values ≡ s.values) where
    lookup-run_bucket :
        (qs : List Q) (s : ValueShard) (r : R)
        → lookup id (run_bucket index step finish qs s r).0.values
          ≡ replay key effect id qs (lookup id s.values)
    unfolding run_bucket replay
    lookup-run_bucket [] s r = refl
    lookup-run_bucket (q ∷ qs) s r =
        lookup-run_bucket qs (step q s r).0 (step q s r).1
        ∙ ap (replay key effect id qs) (steps q s r)

    lookup-visit :
        (qs : List Q) (s : ValueShard) (r : R)
        → lookup id (visit index step finish qs s r).0.values
          ≡ replay key effect id qs (lookup id s.values)
    unfolding visit run_bucket
    lookup-visit [] s r = lookup-run_bucket [] s r
    lookup-visit (q ∷ qs) s r =
        ap (lookup id) (finishes (run_bucket index step finish (q ∷ qs) s r).0)
        ∙ lookup-run_bucket (q ∷ qs) s r

    -- Requests of other shards do not concern the item.
    replay-bucket :
        (n : ℕ) (qs : List Q) (o : Option ValueState)
        → ((q : Q) → key q ≡ id → index q ≡ n)
        → replay key effect id (keep (λ q. index q == n) qs) o ≡ replay key effect id qs o
    unfolding replay
    replay-bucket n [] o h = refl
    replay-bucket n (q ∷ qs) o h = elim (text_dec (key q) id) [
      | yes e ↦
          rw ((==_iff (index q) n).1 (h q e))
            (replay-bucket n qs (ite (text_dec (key q) id) (effect q o) o) h)
      | no e ↦ elim (Bool-cases (index q == n)) [
        | inl t ↦ rw t (replay-bucket n qs (ite (text_dec (key q) id) (effect q o) o) h)
        | inr f ↦ rw (f, if_neg (text_dec (key q) id) e) (replay-bucket n qs o h)
      ]
    ]

    pub lookup-sweep :
        (qs : List Q) (i j : ℕ) (ss : List ValueShard) (r : R)
        → j < length ss
        → ((q : Q) → key q ≡ id → index q ≡ i + j)
        → lookup id (get_or (sweep index step finish qs i ss r).0 j empty_shard).values
          ≡ replay key effect id qs (lookup id (get_or ss j empty_shard).values)
    unfolding sweep
    lookup-sweep qs i j [] r h e = absurd (omega arith)
    lookup-sweep qs i zero (s ∷ ss) r h e =
        lookup-visit (keep (λ q. index q == i) qs) s r
        ∙ replay-bucket i qs (lookup id s.values) (λ q p. omega (arith, e q p))
    lookup-sweep qs i (suc j) (s ∷ ss) r h e =
        lookup-sweep qs (suc i) j ss (visit index step finish (keep (λ q. index q == i) qs) s r).1
          (omega arith) (λ q p. omega (arith, e q p))

  -- A predicate of shards that every step keeps and every visit restores.
  module _ {κ} (P : ValueShard → Type κ)
      (steps : (q : Q) (s : ValueShard) (r : R) → P s → P (step q s r).0)
      (finishes : (s : ValueShard) → P s → P (finish s)) where
    All-run_bucket :
        (qs : List Q) (s : ValueShard) (r : R) → P s → P (run_bucket index step finish qs s r).0
    unfolding run_bucket
    All-run_bucket [] s r h = h
    All-run_bucket (q ∷ qs) s r h = All-run_bucket qs (step q s r).0 (step q s r).1 (steps q s r h)

    All-visit : (qs : List Q) (s : ValueShard) (r : R) → P s → P (visit index step finish qs s r).0
    unfolding visit
    All-visit [] s r h = h
    All-visit (q ∷ qs) s r h =
        finishes (run_bucket index step finish (q ∷ qs) s r).0 (All-run_bucket (q ∷ qs) s r h)

    pub All-sweep :
        (qs : List Q) (i : ℕ) (ss : List ValueShard) (r : R)
        → All P ss
        → All P (sweep index step finish qs i ss r).0
    unfolding sweep
    All-sweep qs i [] r h = h
    All-sweep qs i (s ∷ ss) r h = (
      All-visit (keep (λ q. index q == i) qs) s r h.0,
      All-sweep qs (suc i) ss (visit index step finish (keep (λ q. index q == i) qs) s r).1 h.1,
    )

  -- A quantity that moves between the shards and the tally.
  module _ (P : ValueShard → Type 0) (m : ValueShard → ℕ) (g : R → ℕ)
      (steps : (q : Q) (s : ValueShard) (r : R)
        → P s
        → P (step q s r).0 × (m (step q s r).0 + g (step q s r).1 ≡ m s + g r))
      (finishes : (s : ValueShard) → P s → P (finish s) × (m (finish s) ≡ m s)) where
    total-run_bucket :
        (qs : List Q) (s : ValueShard) (r : R)
        → P s
        → P (run_bucket index step finish qs s r).0
          × (m (run_bucket index step finish qs s r).0 + g (run_bucket index step finish qs s r).1
              ≡ m s + g r)
    unfolding run_bucket
    total-run_bucket [] s r h = (h, refl)
    total-run_bucket (q ∷ qs) s r h =
        let now = steps q s r h in
        let rest = total-run_bucket qs (step q s r).0 (step q s r).1 now.0 in
        (rest.0, rest.1 ∙ now.1)

    total-visit :
        (qs : List Q) (s : ValueShard) (r : R)
        → P s
        → m (visit index step finish qs s r).0 + g (visit index step finish qs s r).1 ≡ m s + g r
    unfolding visit
    total-visit [] s r h = refl
    total-visit (q ∷ qs) s r h =
        let all = total-run_bucket (q ∷ qs) s r h in
        omega (arith, all.1, finishes (run_bucket index step finish (q ∷ qs) s r).0 all.0)

    pub total-sweep :
        (qs : List Q) (i : ℕ) (ss : List ValueShard) (r : R)
        → All P ss
        → total m (sweep index step finish qs i ss r).0 + g (sweep index step finish qs i ss r).1
          ≡ total m ss + g r
    unfolding sweep
    total-sweep qs i [] r h = refl
    total-sweep qs i (s ∷ ss) r h = omega (
      arith,
      total-visit (keep (λ q. index q == i) qs) s r h.0,
      total-sweep qs (suc i) ss (visit index step finish (keep (λ q. index q == i) qs) s r).1 h.1,
    )

  pub length-sweep :
      (qs : List Q) (i : ℕ) (ss : List ValueShard) (r : R)
      → length (sweep index step finish qs i ss r).0 ≡ length ss
  unfolding sweep
  length-sweep qs i [] r = refl
  length-sweep qs i (s ∷ ss) r =
      ap suc
        (length-sweep qs (suc i) ss (visit index step finish (keep (λ q. index q == i) qs) s r).1)

  -- A predicate of the tally that every step keeps.
  module _ {κ} (T : R → Type κ)
      (steps : (q : Q) (s : ValueShard) (r : R) → T r → T (step q s r).1) where
    tally-run_bucket :
        (qs : List Q) (s : ValueShard) (r : R) → T r → T (run_bucket index step finish qs s r).1
    unfolding run_bucket
    tally-run_bucket [] s r h = h
    tally-run_bucket (q ∷ qs) s r h =
        tally-run_bucket qs (step q s r).0 (step q s r).1 (steps q s r h)

    tally-visit :
        (qs : List Q) (s : ValueShard) (r : R) → T r → T (visit index step finish qs s r).1
    unfolding visit
    tally-visit [] s r h = h
    tally-visit (q ∷ qs) s r h = tally-run_bucket (q ∷ qs) s r h

    pub tally-sweep :
        (qs : List Q) (i : ℕ) (ss : List ValueShard) (r : R)
        → T r
        → T (sweep index step finish qs i ss r).1
    unfolding sweep
    tally-sweep qs i [] r h = h
    tally-sweep qs i (s ∷ ss) r h =
        tally-sweep qs (suc i) ss (visit index step finish (keep (λ q. index q == i) qs) s r).1
          (tally-visit (keep (λ q. index q == i) qs) s r h)

  -- A counter that each request raises by one counts the requests.
  module _ (g : R → ℕ) (steps : (q : Q) (s : ValueShard) (r : R) → g (step q s r).1 ≡ g r + 1) where
    count-run_bucket :
        (qs : List Q) (s : ValueShard) (r : R)
        → g (run_bucket index step finish qs s r).1 ≡ g r + length qs
    unfolding run_bucket
    count-run_bucket [] s r = omega arith
    count-run_bucket (q ∷ qs) s r =
        omega (arith, count-run_bucket qs (step q s r).0 (step q s r).1, steps q s r)

    count-visit :
        (qs : List Q) (s : ValueShard) (r : R)
        → g (visit index step finish qs s r).1 ≡ g r + length qs
    unfolding visit
    count-visit [] s r = omega arith
    count-visit (q ∷ qs) s r = count-run_bucket (q ∷ qs) s r

    abbrev in_range : ℕ → ℕ → List Q → List Q
    in_range i n = keep (λ q. leb i (index q) && ltb (index q) (i + n))

    in_range_split :
        (i n : ℕ) (qs : List Q)
        → length (keep (λ q. index q == i) qs) + length (in_range (suc i) n qs)
          ≡ length (in_range i (suc n) qs)
    in_range_split i n [] = omega arith
    in_range_split i n (q ∷ qs) = ground (arith, in_range_split i n qs)

    in_range_none : (i : ℕ) (qs : List Q) → length (in_range i 0 qs) ≡ 0
    in_range_none i [] = refl
    in_range_none i (q ∷ qs) = ground (arith, in_range_none i qs)

    in_range_all :
        (n : ℕ) (qs : List Q) → ((q : Q) → index q < n) → length (in_range 0 n qs) ≡ length qs
    in_range_all n [] h = refl
    in_range_all n (q ∷ qs) h = ground (arith, in_range_all n qs h, h q)

    count_range :
        (qs : List Q) (i : ℕ) (ss : List ValueShard) (r : R)
        → g (sweep index step finish qs i ss r).1 ≡ g r + length (in_range i (length ss) qs)
    unfolding sweep
    count_range qs i [] r = omega (arith, in_range_none i qs)
    count_range qs i (s ∷ ss) r = omega (
      arith,
      count-visit (keep (λ q. index q == i) qs) s r,
      count_range qs (suc i) ss (visit index step finish (keep (λ q. index q == i) qs) s r).1,
      in_range_split i (length ss) qs,
    )

    pub count-sweep :
        (qs : List Q) (ss : List ValueShard) (r : R)
        → ((q : Q) → index q < length ss)
        → g (sweep index step finish qs 0 ss r).1 ≡ g r + length qs
    count-sweep qs ss r h = omega (arith, count_range qs 0 ss r, in_range_all (length ss) qs h)
