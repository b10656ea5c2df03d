-- ===== src/Push/Delivery.antt =====
-- internal/promwrap/push_worker.go: the delivery of one batch, with its retries.
-- `attempt` is one HTTP exchange: its status code, or a failure of the transport, and whether the
-- response was read; `waits` is whether the wait before the next attempt ended without cancellation.
use zabbix_exporter.Prelude.{
  String, ℕ, zero, suc, ◌+◌, ◌*◌, ◌/◌, ◌≤◌, ◌<◌, ◌≡◌, refl, sym, ap, ◌∙◌, ==_iff, ◌⊎◌, inl, inr,
  Bool, true, ◌&&◌, ◌||◌, ltb, leb, ◌==◌, if◌then◌else◌, arith, Bool-cases,
}
use zabbix_exporter.Time.{Duration}

pub data DeliveryClass : Type 0 where
  success retryable permanent : DeliveryClass

-- DeliveryClass.String().
unfoldable pub delivery_class_name : DeliveryClass → String
delivery_class_name DeliveryClass.success = "success"
delivery_class_name DeliveryClass.retryable = "retryable"
delivery_class_name DeliveryClass.permanent = "permanent"

unfoldable pub classify_remote_write_status : ℕ → DeliveryClass
classify_remote_write_status code =
    if leb 200 code && ltb code 300
    then DeliveryClass.success
    else if code == 408 || code == 429 || leb 500 code
    then DeliveryClass.retryable
    else DeliveryClass.permanent

pub data Exchange : Type 0 where
  bad_request transport_failure : Exchange
  response : (code : ℕ) → (was_read : Bool) → Exchange

-- `success` stands for the nil error.
unfoldable pub send_attempt : Exchange → DeliveryClass
unfolding classify_remote_write_status
send_attempt Exchange.bad_request = DeliveryClass.permanent
send_attempt Exchange.transport_failure = DeliveryClass.retryable
send_attempt (Exchange.response code was_read) = elim (classify_remote_write_status code) [
  | DeliveryClass.success ↦ if was_read then DeliveryClass.success else DeliveryClass.retryable
  | DeliveryClass.retryable ↦ DeliveryClass.retryable
  | DeliveryClass.permanent ↦ DeliveryClass.permanent
]

pub record DeliveryResult : Type 0 where
  pub attempts : ℕ
  pub class : DeliveryClass

module _ (exchange : ℕ → Exchange) (waits : ℕ → Bool) where
  -- The loop from one attempt on, with `left` retries left.
  unfoldable pub send_from : ℕ → ℕ → DeliveryResult
  unfolding send_attempt
  send_from zero attempt = record { attempts = attempt; class = send_attempt (exchange attempt) }
  send_from (suc left) attempt =
      let rest : DeliveryResult = send_from left (suc attempt) in
      elim (send_attempt (exchange attempt)) [
        | DeliveryClass.success ↦ record { attempts = attempt; class = DeliveryClass.success }
        | DeliveryClass.permanent ↦ record { attempts = attempt; class = DeliveryClass.permanent }
        | DeliveryClass.retryable ↦
            if waits attempt
            then rest
            else record { attempts = attempt; class = DeliveryClass.retryable }
      ]

  unfoldable pub send : ℕ → DeliveryResult
  unfolding send_from
  send max_retries = send_from max_retries 1

unfoldable pub double_up : ℕ → Duration → Duration → Duration
double_up zero maximum delay = if ltb 0 maximum && ltb maximum delay then maximum else delay
double_up (suc n) maximum delay =
    let rest : Duration = double_up n maximum (2 * delay) in
    if leb maximum delay || ltb (maximum / 2) delay then maximum else rest

unfoldable pub bounded_backoff : Duration → Duration → ℕ → Duration
unfolding double_up
bounded_backoff base maximum exponent = if base == 0 then 0 else double_up exponent maximum base

DeliveryClass-cases :
    (c : DeliveryClass)
    → (c ≡ DeliveryClass.retryable) ⊎ ((c ≡ DeliveryClass.success) ⊎ (c ≡ DeliveryClass.permanent))
DeliveryClass-cases DeliveryClass.success = inr (inl refl)
DeliveryClass-cases DeliveryClass.retryable = inl refl
DeliveryClass-cases DeliveryClass.permanent = inr (inr refl)

module _ (exchange : ℕ → Exchange) (waits : ℕ → Bool) where
  -- What the result says of the exchanges made.
  abbrev pub IsDelivery : ℕ → DeliveryResult → Type 0
  IsDelivery first r =
      (first ≤ r.attempts)
      × (r.class ≡ send_attempt (exchange r.attempts))
      × ((k : ℕ)
          → first ≤ k
          → k < r.attempts
          → (send_attempt (exchange k) ≡ DeliveryClass.retryable) × (waits k ≡ true))

  send_from-IsDelivery :
      (left attempt : ℕ)
      → IsDelivery attempt (send_from exchange waits left attempt)
        × ((send_from exchange waits left attempt).attempts ≤ attempt + left)
  unfolding send_from
  send_from-IsDelivery zero attempt =
      ((omega arith, refl, λ k a b. absurd (omega arith)), omega arith)
  send_from-IsDelivery (suc left) attempt =
      let (r, within) = send_from-IsDelivery left (suc attempt) in
      elim (DeliveryClass-cases (send_attempt (exchange attempt))) [
        | inr (inl e) ↦
            rw (e, send_from) ((omega arith, sym e, λ k a b. absurd (omega arith)), omega arith)
        | inr (inr e) ↦
            rw (e, send_from) ((omega arith, sym e, λ k a b. absurd (omega arith)), omega arith)
        | inl e ↦ elim (Bool-cases (waits attempt)) [
          | inr f ↦
              rw (e, send_from)
                (rw (f, send_from)
                  ((omega arith, sym e, λ k a b. absurd (omega arith)), omega arith))
          | inl t ↦
              rw (e, send_from)
                (rw (t, send_from)
                  (
                    (
                      omega (arith, r.0),
                      r.1,
                      λ k a b. elim (Bool-cases (k == attempt)) [
                        | inl same ↦
                            let at : k ≡ attempt = (==_iff k attempt).0 same in
                            (ap (λ i. send_attempt (exchange i)) at ∙ e, ap waits at ∙ t)
                        | inr other ↦ r.2 k (ground arith) b
                      ],
                    ),
                    omega (arith, within),
                  ))
        ]
      ]

  -- A delivery with `max_retries` retries makes between one and that many attempts more, ends with
  -- the class of the last exchange, and goes beyond an attempt only if it failed retryably and the
  -- wait after it was not cancelled.
  pub send-attempts :
      (max_retries : ℕ)
      → IsDelivery 1 (send exchange waits max_retries)
        × ((send exchange waits max_retries).attempts ≤ max_retries + 1)
  unfolding send
  send-attempts max_retries =
      let h = send_from-IsDelivery max_retries 1 in (h.0, omega (arith, h.1))
