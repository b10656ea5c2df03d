-- ===== src/Collector/Query/Induction.antt =====
-- internal/collector/group_collector.go: induction on the splits of a query.
use zabbix_exporter.Prelude.{
  ℕ, zero, suc, ◌/◌, ◌≤◌, ◌≡◌, inl, inr, true, false, Option, length, take, drop, ltb, arith,
  Bool-cases,
}
use zabbix_exporter.Time.{Duration}
use zabbix_exporter.Zabbix.History.{HistoryQuery}
use zabbix_exporter.Metadata.Types.{MetadataSnapshot}
use zabbix_exporter.Collector.{HistoryConfig}
use zabbix_exporter.Collector.Query.{
  Ports, QueryResult, CollectError, failed_with, not_started, merge_split, may_be_truncated, settle,
  limit_query, ask, half_of, query,
}

module _ {ℓ κ} {W : Type ℓ} (ports : Ports W) (config : HistoryConfig) (delay : Duration)
    (snapshot : Option MetadataSnapshot) (P : W → HistoryQuery → W × QueryResult → Type κ) where
  -- The first half of a query's items, and the second.
  abbrev pub first_half : HistoryQuery → HistoryQuery
  first_half q =
      half_of ports config delay snapshot (limit_query ports config delay snapshot q)
        (take (length q.item_ids / 2))

  abbrev pub second_half : HistoryQuery → HistoryQuery
  second_half q =
      half_of ports config delay snapshot (limit_query ports config delay snapshot q)
        (drop (length q.item_ids / 2))

  abbrev pub OnCancelled : Type (ℓ ⊔ κ)
  OnCancelled = (w : W) (q : HistoryQuery) → ports.is_cancelled w ≡ true → P w q (w, not_started)

  abbrev pub OnRefused : Type (ℓ ⊔ κ)
  OnRefused =
      (w : W) (q : HistoryQuery)
      → P w q (
        (ask ports config delay snapshot w q).0,
        failed_with (ask ports config delay snapshot w q).1.finished_at true
            CollectError.possibly_truncated,
      )

  abbrev pub OnSettled : Type (ℓ ⊔ κ)
  OnSettled =
      (w : W) (q : HistoryQuery)
      → may_be_truncated (limit_query ports config delay snapshot q)
          (ask ports config delay snapshot w q).1
        ≡ false
      → P w q (
          settle ports config delay snapshot (ask ports config delay snapshot w q).0
            (limit_query ports config delay snapshot q) (ask ports config delay snapshot w q).1)

  abbrev pub OnSplit : Type (ℓ ⊔ κ)
  OnSplit =
      (w : W) (q : HistoryQuery) (l r : W × QueryResult)
      → 2 ≤ length q.item_ids
      → P (ask ports config delay snapshot w q).0 (first_half q) l
      → P l.0 (second_half q) r
      → P w q (r.0, merge_split l.1 r.1)

  pub query_induction :
      OnCancelled
      → OnRefused
      → OnSettled
      → OnSplit
      → (left : ℕ) (w : W) (q : HistoryQuery) → P w q (query ports config delay snapshot left w q)
  unfolding query
  query_induction cancelled refused settled split zero w q =
      elim (Bool-cases (ports.is_cancelled w)) [
        | inl t ↦ rw (t, query) (cancelled w q t)
        | inr f ↦
            elim (Bool-cases (
              may_be_truncated (limit_query ports config delay snapshot q)
                (ask ports config delay snapshot w q).1)) [
                  | inr n ↦ rw (f, query) (rw n (settled w q n))
                  | inl t ↦ rw (f, query) (rw t (refused w q))
                ]
      ]
  query_induction cancelled refused settled split (suc left) w q =
      elim (Bool-cases (ports.is_cancelled w)) [
        | inl t ↦ rw (t, query) (cancelled w q t)
        | inr f ↦
            elim (Bool-cases (
              may_be_truncated (limit_query ports config delay snapshot q)
                (ask ports config delay snapshot w q).1)) [
                  | inr n ↦ rw (f, query) (rw n (settled w q n))
                  | inl t ↦ elim (Bool-cases (ltb (length q.item_ids) 2)) [
                    | inl few ↦ rw (f, query) (rw t (rw few (refused w q)))
                    | inr many ↦
                        let l =
                          query_induction cancelled refused settled split left
                            (ask ports config delay snapshot w q).0 (first_half q) in
                        let r =
                          query_induction cancelled refused settled split left
                            (query ports config delay snapshot left
                              (ask ports config delay snapshot w q).0 (first_half q)).0
                            (second_half q) in
                        rw (f, query) (rw t (rw many (split w q _ _ (ground arith) l r)))
                  ]
                ]
      ]
