-- ===== src/Collector/Query/Coverage.antt =====
-- internal/collector/group_collector.go: the items whose answers a query has stored.
use zabbix_exporter.Prelude.{
  ℕ, ◌/◌, ◌<◌, ◌≡◌, refl, ap, ◌∙◌, inl, inr, String, true, false, false≢true, Option, List, ◌++◌,
  append_assoc, length, take, drop, take-append-drop, ◌==◌, arith, Bool-cases,
}
use zabbix_exporter.Time.{Duration}
use zabbix_exporter.Zabbix.History.{HistoryQuery, BatchResult}
use zabbix_exporter.Metadata.Types.{MetadataSnapshot}
use zabbix_exporter.Cache.Apply.{is_usable}
use zabbix_exporter.Collector.{HistoryConfig, query_limit_bounds, filter_expired_latest}
use zabbix_exporter.Collector.Query.{
  Ports, QueryResult, merge_split, may_be_truncated, settle, limit_query, ask, query,
}
use zabbix_exporter.Collector.Query.Induction.{query_induction}

-- `seen` lists the items of the stored answers: requests leave it as it is, and an answer that is
-- usable and below its limit adds the items it was asked for.
module _ {ℓ} {W : Type ℓ} (ports : Ports W) (config : HistoryConfig) (delay : Duration)
    (snapshot : Option MetadataSnapshot) (seen : W → List String)
    (asks : (w : W) (q : HistoryQuery) → seen (ports.query_history_batch w q).0 ≡ seen w)
    (applies : (w : W) (b : BatchResult)
      → is_usable b.status ≡ true
      → b.returned < b.query.limit
      → seen (ports.apply_batch w b snapshot).0 ≡ seen w ++ b.query.item_ids) where
  Covers : W → HistoryQuery → W × QueryResult → Type 0
  Covers w q r = r.1.complete ≡ true → seen r.0 ≡ seen w ++ q.item_ids

  settle-Covers :
      (w : W) (q : HistoryQuery) (b : BatchResult)
      → b.query ≡ q
      → 0 < q.limit
      → may_be_truncated q b ≡ false
      → Covers w q (settle ports config delay snapshot w q b)
  unfolding settle may_be_truncated Covers filter_expired_latest
  settle-Covers w q b same p n = elim (Bool-cases (is_usable b.status)) [
    | inr f ↦ rw f (λ h. absurd (false≢true h))
    | inl t ↦
        let stored =
          applies w (filter_expired_latest b delay q.time_till) t (ground (arith, same)) in
        elim (Bool-cases (
          (ports.apply_batch w (filter_expired_latest b delay q.time_till) snapshot).1.stale
          == 0)) [
            | inl u ↦ rw t (rw u (λ h. stored ∙ ap (λ x. seen w ++ x.item_ids) same))
            | inr u ↦ rw t (rw u (λ h. absurd (false≢true h)))
          ]
  ]

  -- With a positive limit: a query that is complete has stored answers for its items, each item once
  -- and in their order, from answers that were below their limit.
  pub query_covers :
      (left : ℕ) (w : W) (q : HistoryQuery)
      → 0 < config.limit
      → (query ports config delay snapshot left w q).1.complete ≡ true
      → seen (query ports config delay snapshot left w q).0 ≡ seen w ++ q.item_ids
  unfolding Covers ask limit_query merge_split
  query_covers left w q p =
      query_induction ports config delay snapshot Covers (λ w q t h. absurd (false≢true h))
        (λ w q h. absurd (false≢true h))
        (λ w q n h.
          settle-Covers (ask ports config delay snapshot w q).0
            (limit_query ports config delay snapshot q) (ask ports config delay snapshot w q).1 refl
            (query_limit_bounds config q delay p).0 n h
          ∙ ap (λ s. s ++ q.item_ids) (asks w (limit_query ports config delay snapshot q)))
        (λ w q l r many hl hr h.
          let half : ℕ = length q.item_ids / 2 in
          let (a, b) : (l.1.complete ≡ true) × (r.1.complete ≡ true) =
            (ground arith, ground arith) in
          hr b
          ∙ ap (λ s. s ++ drop half q.item_ids) (hl a)
          ∙ ap (λ s. (s ++ take half q.item_ids) ++ drop half q.item_ids)
              (asks w (limit_query ports config delay snapshot q))
          ∙ append_assoc (seen w) (take half q.item_ids) (drop half q.item_ids)
          ∙ ap (λ s. seen w ++ s) (take-append-drop half q.item_ids))
        left w q
