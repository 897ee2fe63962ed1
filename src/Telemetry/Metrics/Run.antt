-- ===== src/Telemetry/Metrics/Run.antt =====
-- The calls of the library along a run of requests.
use flo_mimi.Prelude.{
  is_utf8, true, ℕ, [], ◌∷◌, ◌≡◌, ◌≢◌, refl, sym, ap, ◌∙◌, List, Option, some, Text, Text-discrete,
  length,
}
use mathlib.Core.Path.{subst}
use mathlib.Core.Option.{bind}
use flo_mimi.Clock.{decimal}
use flo_mimi.Telemetry.{normalize_route, Monitor, enter, leave, observe_outbound_http}
use flo_mimi.Telemetry.Interleaving.{idle}
use flo_mimi.Telemetry.Metrics.{
  MetricVec, http_requests_total, http_request_duration, http_inflight_requests,
  outbound_http_requests_total, outbound_http_duration, metrics, Change, inc, dec, observe,
  Prometheus, init, count_start, count_finish, count_outbound, Event, starts, finishes, observes,
  monitored, meter, metered,
}
use flo_mimi.Telemetry.Metrics.Agreement.{
  has_duplicate, IsAllowed, IsPrometheus, Agrees, IsOrderly, after, tally, all_utf8,
  outbound_status,
}
use flo_mimi.Telemetry.{leave_valid}
use flo_mimi.Telemetry.Metrics.Labels.{decimal-is_utf8, all_utf8-cons, all_utf8-four}
use flo_mimi.Telemetry.Metrics.Steps.{start-Agrees, finish-Agrees, outbound-Agrees}

module _ {R : Type 0} (prometheus : Prometheus R) (fresh : R)
    (k : IsPrometheus prometheus fresh) where
  -- An update with a value for each label, as a change of what the registry shows.
  update-shows :
      (metric : MetricVec) (values : List Text) (change : Change) (r : R)
      → length values ≡ length metric.labels
      → all_utf8 values ≡ true
      → IsAllowed change (k.value r metric.name metric.labels values)
      → (r' : R) × (prometheus.update metric values change r ≡ some r')
        × (k.value r' ≡ after (k.value r) metric values change)
  update-shows metric values change r arity valid allowed =
      let (r', e, h) = k.updates metric values change r arity valid allowed in
      (r', e, λ i name labels others. h name labels others i)

  module _ (service : Text) (named : is_utf8 service ≡ true) where
    alone : all_utf8 (service ∷ []) ≡ true
    unfolding all_utf8
    alone = all_utf8-cons service [] named refl

    Outcome : Option R → Monitor → Type 0
    Outcome o m = (r : R) × (o ≡ some r) × Agrees service (k.value r) m

    init-Outcome : Outcome (init prometheus fresh) idle
    unfolding Outcome init Text-discrete has_duplicate tally
    init-Outcome =
        let (r, e, zero) = k.registers metrics refl in
        (
          r,
          e,
          record {
            inflight = zero _ _ _;
            requests = λ _ _ _. zero _ _ _;
            durations = λ _ _. zero _ _ _;
            outbound = λ _ _ _ _ _. zero _ _ _;
            outbound_durations = λ _ _ _ _. zero _ _ _;
          },
        )

    module _ (r : R) (m : Monitor) (a : Agrees service (k.value r) m) where
      start-Outcome : Outcome (count_start prometheus service r) (enter m)
      unfolding Outcome count_start
      start-Outcome =
          let (r', e, h) = update-shows http_inflight_requests (service ∷ []) inc r refl alone tt in
          (
            r',
            e,
            subst (λ v. Agrees service v (enter m)) (sym h) (start-Agrees service (k.value r) m a),
          )

      finish-Outcome :
          (method path correlation_id : Text) (status : ℕ)
          → m.inflight ≢ 0
          → is_utf8 method ≡ true
          → is_utf8 (normalize_route path) ≡ true
          → Outcome
              (count_finish prometheus service method path status r)
              (leave method path correlation_id status m)
      unfolding Outcome count_finish bind Text-discrete all_utf8
      finish-Outcome method path correlation_id status busy method_valid valid =
          let route = normalize_route path in
          let statuses = all_utf8-cons (decimal status) [] (decimal-is_utf8 status) refl in
          let labels : List Text → Type 0 =
            λ end. all_utf8 (service ∷ method ∷ route ∷ end) ≡ true in
          let valid_labels : (end : List Text) → all_utf8 end ≡ true → labels end = λ end h.
            all_utf8-cons service (method ∷ route ∷ end) named
              (all_utf8-cons method (route ∷ end) method_valid (all_utf8-cons route end valid h)) in
          let (r₁, e₁, h₁) =
            update-shows http_requests_total (service ∷ method ∷ route ∷ decimal status ∷ []) inc r
              refl (valid_labels (decimal status ∷ []) statuses) tt in
          let (r₂, e₂, h₂) =
            update-shows http_request_duration (service ∷ method ∷ route ∷ []) observe r₁ refl
              (valid_labels [] refl) tt in
          let shown =
            h₂
            ∙ ap (λ v. after v http_request_duration (service ∷ method ∷ route ∷ []) observe) h₁ in
          let (r₃, e₃, h₃) =
            update-shows http_inflight_requests (service ∷ []) dec r₂ refl alone (λ z. busy (
              sym a.inflight
              ∙ sym (
                  ap
                    (λ v.
                      v http_inflight_requests.name http_inflight_requests.labels (service ∷ []))
                    shown)
              ∙ z)) in
          (
            r₃,
            rw (e₁, e₂) e₃,
            subst (λ v. Agrees service v (leave method path correlation_id status m))
                (sym (h₃ ∙ ap (λ v. after v http_inflight_requests (service ∷ []) dec) shown))
                (subst (Agrees service _)
                  (sym (leave_valid method path correlation_id status m valid))
                  (finish-Agrees service (k.value r) m a method path correlation_id status)),
          )

      outbound-Outcome :
          (s target method path status : Text)
          → all_utf8 (s ∷ target ∷ method ∷ normalize_route path ∷ outbound_status status ∷ [])
            ≡ true
          → Outcome
              (count_outbound prometheus s target method path status r)
              (observe_outbound_http s target method path status m)
      unfolding Outcome count_outbound bind
      outbound-Outcome s target method path status valid =
          let (r₁, e₁, h₁) =
            update-shows outbound_http_requests_total
              (s ∷ target ∷ method ∷ normalize_route path ∷ outbound_status status ∷ []) inc r refl
              valid tt in
          let (r₂, e₂, h₂) =
            update-shows outbound_http_duration (s ∷ target ∷ method ∷ normalize_route path ∷ [])
              observe r₁ refl (all_utf8-four _ _ _ _ _ valid) tt in
          (
            r₂,
            rw e₁ e₂,
            subst (λ v. Agrees service v (observe_outbound_http s target method path status m))
                (sym (
                  h₂
                  ∙ ap
                      (λ v.
                        after v outbound_http_duration
                          (s ∷ target ∷ method ∷ normalize_route path ∷ []) observe)
                      h₁))
                (outbound-Agrees service (k.value r) m a s target method path status),
          )

    meter-Outcome :
        (event : Event) (events : List Event) (r : R)
        → IsOrderly (event ∷ events)
        → Agrees service (k.value r) (monitored events)
        → Outcome (meter prometheus service event r) (monitored (event ∷ events))
    unfolding Outcome meter monitored IsOrderly
    meter-Outcome starts events r o a = start-Outcome r _ a
    meter-Outcome (finishes method path correlation_id status) events r
          (_, busy, method_valid, valid) a =
        finish-Outcome r _ a method path correlation_id status busy method_valid valid
    meter-Outcome (observes s target method path status) events r o a =
        outbound-Outcome r _ a s target method path status o.1

    tail-IsOrderly :
        (event : Event) (events : List Event) → IsOrderly (event ∷ events) → IsOrderly events
    unfolding IsOrderly
    tail-IsOrderly starts events o = o
    tail-IsOrderly (finishes _ _ _ _) events o = o.0
    tail-IsOrderly (observes _ _ _ _ _) events o = o.0

    -- In a run in which no request finishes that has not started, and the names and the texts that become
    -- labels are valid UTF-8, no call of the library panics, its registration included, and each series,
    -- told by the names and the values of its labels, then shows the number of its samples in the
    -- monitor, the gauge the number of open requests.
    pub metered-Agrees :
        (events : List Event)
        → IsOrderly events
        → (r : R) × (metered prometheus service events fresh ≡ some r)
          × Agrees service (k.value r) (monitored events)
    unfolding metered monitored bind Outcome
    metered-Agrees [] o = init-Outcome
    metered-Agrees (event ∷ events) o =
        let (r, e, a) = metered-Agrees events (tail-IsOrderly event events o) in
        rw e (meter-Outcome event events r o a)
