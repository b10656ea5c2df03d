-- ===== src/Collector/Query/Counts.antt =====
-- internal/collector/group_collector.go: the number of requests of a query, and its errors.
use zabbix_exporter.Prelude.{
  ℕ, ◌+◌, ◌*◌, ◌/◌, ◌≤◌, ◌<◌, ◌≡◌, ap, ◌∙◌, false≢true, ◌⊎◌, ◌↔◌, refl, inl, inr, true, false,
  Option, List, [], ◌∷◌, ◌++◌, length, take, drop, length-take, length-drop, ◌==◌, arith,
  Bool-cases,
}
use zabbix_exporter.Time.{Duration}
use zabbix_exporter.Zabbix.History.{HistoryQuery, BatchResult}
use zabbix_exporter.Metadata.Types.{MetadataSnapshot}
use zabbix_exporter.Cache.Apply.{is_usable}
use zabbix_exporter.Collector.{HistoryConfig, filter_expired_latest}
use zabbix_exporter.Collector.Query.{
  Ports, QueryResult, CollectError, failed_with, merge_split, settle, limit_query, ask, query,
}
use zabbix_exporter.Collector.Query.Induction.{query_induction}

-- The requests are two for a split and one more, unless the context was cancelled, and the splits are
-- fewer than the items. The result is complete if and only if there is no error.
abbrev pub IsAccounted : HistoryQuery → QueryResult → Type 0
IsAccounted q r =
    (r.queries ≤ 2 * r.splits + 1) × ((r.splits + 1 ≤ length q.item_ids) ⊎ (r.splits ≡ 0))

abbrev pub IsTold : QueryResult → Type 0
IsTold r = (r.complete ≡ true) ↔ (r.errors ≡ [])

ap2_append : {xs ys : List CollectError} → xs ≡ [] → ys ≡ [] → xs ++ ys ≡ []
ap2_append {xs} {ys} a b = ap (λ l. l ++ ys) a ∙ b

no_errors : (xs ys : List CollectError) → xs ++ ys ≡ [] → (xs ≡ []) × (ys ≡ [])
no_errors [] ys h = (refl, h)
no_errors (x ∷ xs) ys h = absurd cc

one_error : (e : CollectError) → IsTold (failed_with 0 false e)
one_error e = ((λ h. absurd (false≢true h)), (λ h. absurd cc))

merge_split-IsTold : (l r : QueryResult) → IsTold l → IsTold r → IsTold (merge_split l r)
unfolding merge_split
merge_split-IsTold l r hl hr = (
  λ h.
      let (a, b) : (l.complete ≡ true) × (r.complete ≡ true) = (ground arith, ground arith) in
      ap2_append (hl.0 a) (hr.0 b),
  λ h.
      let (a, b) = no_errors l.errors r.errors h in
      let c = hl.1 a in let d = hr.1 b in ground (arith, c, d),
)

halved : (n : ℕ) → 2 ≤ n → (0 < n / 2) × (n / 2 < n)
halved n h = (omega arith, omega arith)

split-IsAccounted :
    (q : HistoryQuery) (l r : QueryResult)
    → 2 ≤ length q.item_ids
    → IsAccounted (record q { item_ids = take (length q.item_ids / 2) q.item_ids }) l
    → IsAccounted (record q { item_ids = drop (length q.item_ids / 2) q.item_ids }) r
    → IsAccounted q (merge_split l r)
unfolding merge_split
split-IsAccounted q l r many hl hr =
    let (some_left, some_right) = halved (length q.item_ids) many in
    let left_size = length-take (length q.item_ids / 2) q.item_ids in
    let right_size = length-drop (length q.item_ids / 2) q.item_ids in
    (omega (arith, hl.0, hr.0), inl (ground (arith, hl.1, hr.1, left_size, right_size)))

module _ {ℓ} {W : Type ℓ} (ports : Ports W) (config : HistoryConfig) (delay : Duration)
    (snapshot : Option MetadataSnapshot) where
  settle_one :
      (w : W) (q : HistoryQuery) (b : BatchResult)
      → ((settle ports config delay snapshot w q b).1.queries ≡ 1)
        × (((settle ports config delay snapshot w q b).1.splits ≡ 0)
            × IsTold (settle ports config delay snapshot w q b).1)
  unfolding settle
  settle_one w q b = elim (Bool-cases (is_usable b.status)) [
    | inr f ↦ rw f (refl, (refl, one_error _))
    | inl t ↦
        elim (Bool-cases (
          (ports.apply_batch w (filter_expired_latest b delay q.time_till) snapshot).1.stale
          == 0)) [
            | inl u ↦ rw t (rw u (refl, (refl, ((λ h. refl), (λ h. refl)))))
            | inr u ↦ rw t (rw u (refl, (refl, one_error _)))
          ]
  ]

  -- A query is complete if and only if it ends without an error.
  pub query-IsTold :
      (left : ℕ) (w : W) (q : HistoryQuery) → IsTold (query ports config delay snapshot left w q).1
  query-IsTold =
      query_induction ports config delay snapshot (λ w q r. IsTold r.1)
        (λ w q t. one_error CollectError.cancelled)
        (λ w q. one_error CollectError.possibly_truncated)
        (λ w q n.
          (settle_one (ask ports config delay snapshot w q).0
            (limit_query ports config delay snapshot q)
            (ask ports config delay snapshot w q).1).1.1)
        (λ w q l r many hl hr. merge_split-IsTold l.1 r.1 hl hr)

-- `asked` counts the requests to the history reader: each adds one, and to store an answer adds none.
module _ {ℓ} {W : Type ℓ} (ports : Ports W) (config : HistoryConfig) (delay : Duration)
    (snapshot : Option MetadataSnapshot) (asked : W → ℕ)
    (asks : (w : W) (q : HistoryQuery) → asked (ports.query_history_batch w q).0 ≡ asked w + 1)
    (applies : (w : W) (b : BatchResult) → asked (ports.apply_batch w b snapshot).0 ≡ asked w) where
  -- The requests that the result tells of are those that were made.
  abbrev pub Counts : W → W × QueryResult → Type 0
  Counts w r = asked r.0 ≡ asked w + r.1.queries

  settle-asked :
      (w : W) (q : HistoryQuery) (b : BatchResult)
      → asked (settle ports config delay snapshot w q b).0 ≡ asked w
  unfolding settle
  settle-asked w q b = elim (Bool-cases (is_usable b.status)) [
    | inr f ↦ rw f refl
    | inl t ↦
        let stored = applies w (filter_expired_latest b delay q.time_till) in
        elim (Bool-cases (
          (ports.apply_batch w (filter_expired_latest b delay q.time_till) snapshot).1.stale
          == 0)) [ inl u ↦ rw t (rw u stored) | inr u ↦ rw t (rw u stored) ]
  ]

  -- Where `asked` counts the requests to the history reader and no storing of an answer changes it: the
  -- requests that a query tells of are those that it made, at most two for every split and one more. It
  -- has fewer splits than items (none for no items), and is complete if and only if it ends without an
  -- error.
  pub query-IsAccounted :
      (left : ℕ) (w : W) (q : HistoryQuery)
      → Counts w (query ports config delay snapshot left w q)
        × IsAccounted q (query ports config delay snapshot left w q).1
        × IsTold (query ports config delay snapshot left w q).1
  unfolding limit_query ask merge_split
  query-IsAccounted =
      query_induction ports config delay snapshot
        (λ w q r. Counts w r × IsAccounted q r.1 × IsTold r.1)
        (λ w q t. (omega arith, (omega arith, inr refl), one_error CollectError.cancelled))
        (λ w q. (
          asks w (limit_query ports config delay snapshot q),
          (omega arith, inr refl),
          one_error CollectError.possibly_truncated,
        ))
        (λ w q n.
          let (asked', answer) = ask ports config delay snapshot w q in
          let h =
            settle_one ports config delay snapshot asked'
              (limit_query ports config delay snapshot q) answer in
          let kept = settle-asked asked' (limit_query ports config delay snapshot q) answer in
          let made = asks w (limit_query ports config delay snapshot q) in
          (omega (arith, h.0, kept, made), (omega (arith, h.0), inr h.1.0), h.1.1))
        (λ w q l r many hl hr.
          let made = asks w (limit_query ports config delay snapshot q) in
          (
            omega (arith, made, hl.0, hr.0),
            split-IsAccounted q l.1 r.1 many hl.1 hr.1,
            merge_split-IsTold l.1 r.1 hl.2 hr.2,
          ))
