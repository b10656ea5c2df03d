-- ===== src/Push/Batcher/Reserved/Finished.antt =====
-- internal/promwrap/publisher.go: the account of reservations at the end of a page.
use zabbix_exporter.Prelude.{
  ℕ, zero, suc, ◌+◌, ◌*◌, ◌≤◌, ◌<◌, ◌≡◌, sym, subst, ap, ◌∙◌, inl, inr, List, Option, none, some,
  length, get_or, arith, Bool-cases, Option-cases,
}
use zabbix_exporter.Time.{Time}
use zabbix_exporter.Push.Queue.{PublishKey}
use zabbix_exporter.Push.Publisher.{submit_batch}
use zabbix_exporter.Push.Encoder.{TimeSeries, BatchEncoder, BatchBuilder, encode, is_empty}
use zabbix_exporter.Push.Batcher.{PageBatcher, set_builder, finish_from, finish, count_batch}
use zabbix_exporter.Push.Batcher.Reserved.{
  encoded_from, IsLaneBelow, IsReserved, get_or-IsLaneBelow, cleanup-IsReserved,
  submit_at-IsReserved,
}
use zabbix_exporter.Push.Batcher.Reserved.Samples.{admission_cases, Encoded-cases}
use zabbix_exporter.Push.Batcher.Reserved.Keys.{key_count}
use zabbix_exporter.Push.Batcher.Reserved.Account.{builder_keys}

module _ (size : TimeSeries → ℕ) (marshal : List TimeSeries → Option (List ℕ))
    (compress : List ℕ → List ℕ) (encoder : BatchEncoder) (slot : ℕ) (cycle : Time) (workers : ℕ)
    (c : PublishKey → ℕ) where
  below_at :
      (i : ℕ) (b : BatchBuilder) (t : PageBatcher)
      → get_or t.builders i none ≡ some b
      → IsReserved workers c t
      → b.lane < workers
  unfolding IsReserved
  below_at i b t n h =
      subst (IsLaneBelow workers) n (get_or-IsLaneBelow workers i t.builders h.1.1.1)

  finish_from-IsReserved :
      (left index : ℕ) (t : PageBatcher)
      → index + left ≤ workers * 2
      → IsReserved workers c t
      → IsReserved workers c (finish_from size marshal compress encoder slot cycle left index t).1
  unfolding finish_from IsReserved
  finish_from-IsReserved zero index t le h = h
  finish_from-IsReserved (suc left) index t le h =
      elim (Option-cases (get_or t.builders index none)) [
        | inl n ↦ rw (n, finish_from) (finish_from-IsReserved left (suc index) t (omega arith) h)
        | inr (b, n) ↦ elim (Bool-cases (is_empty b)) [
          | inl e ↦
              rw (n, finish_from) (rw e (finish_from-IsReserved left (suc index) t (omega arith) h))
          | inr some_series ↦ elim (Encoded-cases (encode marshal compress b)) [
            | inr (inl m) ↦
                rw (n, finish_from) (rw some_series (rw m (cleanup-IsReserved workers c t h)))
            | inr (inr m) ↦
                rw (n, finish_from) (rw some_series (rw m (cleanup-IsReserved workers c t h)))
            | inl (batch, m) ↦
                let (keys, lane) = encoded_from marshal compress b batch m in
                let u : PageBatcher = record t {
                  publisher = (submit_batch batch t.publisher).1;
                  builders = set_builder index none t.builders;
                } in
                let queued : IsReserved workers c u =
                  submit_at-IsReserved workers c index batch t (omega arith)
                    (λ k. ap (key_count k) keys ∙ sym (ap (builder_keys k) n))
                    (omega (arith, lane, below_at index b t n h)) h in
                elim (admission_cases (submit_batch batch t.publisher).0) [
                  | inl a ↦
                      rw (n, finish_from)
                        (rw some_series (
                          rw m (
                            rw a (
                              finish_from-IsReserved left (suc index)
                                (record u { result = count_batch batch u.result }) (omega arith)
                                queued))))
                  | inr (inl a) ↦
                      rw (n, finish_from)
                        (rw some_series (rw m (rw a (cleanup-IsReserved workers c u queued))))
                  | inr (inr a) ↦
                      rw (n, finish_from)
                        (rw some_series (rw m (rw a (cleanup-IsReserved workers c u queued))))
                ]
          ]
        ]
      ]

  -- A page is finished. If before it every key was reserved as often as it stands in a builder, in the
  -- queue or elsewhere, and at most once, then so it is afterwards, also where a batch was refused.
  pub finish-IsReserved :
      (t : PageBatcher)
      → IsReserved workers c t
      → IsReserved workers c (finish size marshal compress encoder slot cycle t).1
  unfolding finish IsReserved
  finish-IsReserved t h = finish_from-IsReserved (length t.builders) 0 t (omega (arith, h.1.0)) h
