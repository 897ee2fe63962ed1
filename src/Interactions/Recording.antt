-- ===== src/Interactions/Recording.antt =====
-- `Service.Record` and its ports: what is refused, the order of the effects, and the response.
use mathlib.Core.Path.{subst}
use flo_mimi.Prelude.{
  sym, if◌then◌else◌, Bool, true, false, ◌||◌, [], ◌∷◌, Option, ◌≡◌, ◌≢◌, refl, inl, inr, arith,
  Text, codes, is_blank, Error, message, ok, err, continue, continue-eq-ok, pure, ◌>>=◌, Bool-cases,
}
use flo_mimi.Text.{trim_space, is_space}
use flo_mimi.Text.Trim.{trim_space-cons-ne-nil}
use flo_mimi.Clock.{Entropy, bytes, failed, new_id, rfc3339}
use flo_mimi.Interactions.Normal.{normalize-IsNormal}
use flo_mimi.Command.{Command, Context, PublishResult, Response, EventSink, MutationStore}
use flo_mimi.Interactions.{
  Ambient, requires_campaign_identity, first_non_empty, normalize, apply_store, respond,
  record_interaction,
}

-- A command with a blank surface or action.
abbrev pub is_refused : Command → Bool
is_refused c = is_blank (trim_space c.surface) || is_blank (trim_space c.action)

trace_id-ne-nil : (e : Entropy) → trim_space (new_id (codes "trace") e) ≢ []
unfolding new_id
trace_id-ne-nil (bytes b) = trim_space-cons-ne-nil b't' _ (unfold is_space in refl)
trace_id-ne-nil (failed n) = trim_space-cons-ne-nil b't' _ (unfold is_space in refl)

-- What the response reports: the answers of the two ports, the session and the campaign of the
-- completed command, the correlation ID of the request or, if that is blank, a new trace ID, and the
-- time.
pub record Reports (a : Ambient) (ctx : Context) (c : Command) (stored : Bool)
    (result : PublishResult) (r : Response) : Type 0 where
  pub accepted : r.accepted ≡ true
  pub was_stored : r.stored ≡ stored
  pub was_published : r.published ≡ result.published
  pub session : r.session_id ≡ (normalize a c).session_id
  pub campaign : r.campaign_id ≡ (normalize a c).campaign_id
  pub correlation : r.correlation_id ≡ (
      if is_blank (trim_space ctx.correlation_id)
      then new_id (codes "trace") a.trace_entropy
      else ctx.correlation_id)
  pub time : r.occurred_at ≡ rfc3339 a.occurred_at

filled : (s : Text) → trim_space s ≢ [] → is_blank (trim_space s) ≡ false
filled s h = ground (arith, h)

trace_id-filled : (e : Entropy) → is_blank (trim_space (new_id (codes "trace") e)) ≡ false
trace_id-filled e = filled (new_id (codes "trace") e) (trace_id-ne-nil e)

respond-Reports :
    (a : Ambient) (ctx : Context) (c : Command) (stored : Bool) (result : PublishResult)
    → Reports a ctx c stored result (respond a ctx (normalize a c) stored result)
unfolding respond first_non_empty
respond-Reports a ctx c stored result = record {
  accepted = refl;
  was_stored = refl;
  was_published = refl;
  session = refl;
  campaign = refl;
  correlation = ground (arith, trace_id-filled a.trace_entropy);
  time = refl;
}

module _ {W : Type 0} (store : Option (MutationStore W)) (sink : EventSink W) (a : Ambient)
    (ctx : Context) (c : Command) (w : W) where
  -- A command with a blank surface or action is answered with an error, and neither port is called.
  pub record-refused :
      is_refused c ≡ true → (e : Error) × (record_interaction store sink a ctx c w ≡ (err e, w))
  unfolding record_interaction
  record-refused h = elim (Bool-cases (is_blank (trim_space c.surface))) [
    | inl e ↦ (message (codes "surface is required"), ground arith)
    | inr e ↦ (message (codes "action is required"), ground arith)
  ]

  -- A failing store ends the call: its error is the answer, and nothing is published.
  pub record-store_failed :
      {e : Error} {w' : W}
      → is_refused c ≡ false
      → apply_store store ctx (normalize a c) w ≡ (err e, w')
      → record_interaction store sink a ctx c w ≡ (err e, w')
  unfolding record_interaction
  record-store_failed r h = ground arith

  completed-ok :
      {r : Response} {w'' : W}
      → continue
          (λ stored.
            ◌>>=◌
              (sink.publish_interaction ctx (normalize a c))
              λ result. pure (respond a ctx (normalize a c) stored result))
          (apply_store store ctx (normalize a c) w)
        ≡ (ok r, w'')
      → (stored : Bool) × (w' : W) × (result : PublishResult) × (apply_store store ctx
            (normalize a c)
            w
          ≡ (ok stored, w'))
        × (sink.publish_interaction ctx (normalize a c) w' ≡ (ok result, w''))
        × (r ≡ respond a ctx (normalize a c) stored result)
  completed-ok h =
      let (stored, w', applied, rest) = continue-eq-ok _ _ h in
      let (result, w₂, published, done) =
        continue-eq-ok (λ result. pure (respond a ctx (normalize a c) stored result))
          (sink.publish_interaction ctx (normalize a c) w') rest in
      (stored, w', result, applied, ground arith, ground arith)

  completed :
      {r : Response} {w'' : W}
      → record_interaction store sink a ctx c w ≡ (ok r, w'')
      → (stored : Bool) × (w' : W) × (result : PublishResult) × (apply_store store ctx
            (normalize a c)
            w
          ≡ (ok stored, w'))
        × (sink.publish_interaction ctx (normalize a c) w' ≡ (ok result, w''))
        × (r ≡ respond a ctx (normalize a c) stored result)
  unfolding record_interaction
  completed h = elim (Bool-cases (is_blank (trim_space c.surface))) [
    | inl e ↦ absurd (ground arith)
    | inr e ↦ elim (Bool-cases (is_blank (trim_space c.action))) [
      | inl e' ↦ absurd (ground arith)
      | inr e' ↦ completed-ok (rw (e, e') at h)
    ]
  ]

  -- A command that is answered without an error was handed in its normal form to the store, if there is
  -- one, and then to the sink, and the response reports what they answered: whether it was stored, and
  -- the channels it was published on.
  pub record-ok :
      {r : Response} {w'' : W}
      → record_interaction store sink a ctx c w ≡ (ok r, w'')
      → (stored : Bool) × (w' : W) × (result : PublishResult) × (apply_store store ctx
            (normalize a c)
            w
          ≡ (ok stored, w'))
        × (sink.publish_interaction ctx (normalize a c) w' ≡ (ok result, w''))
        × Reports a ctx c stored result r
  record-ok h =
      let (stored, w', result, applied, published, same_response) = completed h in
      (
        stored,
        w',
        result,
        applied,
        published,
        subst (Reports a ctx c stored result) (sym same_response)
            (respond-Reports a ctx c stored result),
      )

-- What a caller can rely on in the answer to an accepted command.
pub record IsComplete (c : Command) (r : Response) : Type 0 where
  pub accepted : r.accepted ≡ true
  pub session : r.session_id ≢ []
  pub correlation : trim_space r.correlation_id ≢ []
  pub campaign : requires_campaign_identity c ≡ true → r.campaign_id ≢ []

first_non_empty-ne-nil :
    (v d : Text) → trim_space d ≢ [] → trim_space (first_non_empty (v ∷ d ∷ [])) ≢ []
unfolding first_non_empty
first_non_empty-ne-nil v d h = ground arith

respond-IsComplete :
    (a : Ambient) (ctx : Context) (c : Command) (stored : Bool) (result : PublishResult)
    → IsComplete (normalize a c) (respond a ctx (normalize a c) stored result)
unfolding respond
respond-IsComplete a ctx c stored result =
    let normal = normalize-IsNormal a c in
    record {
      accepted = refl;
      session = normal.session;
      correlation = first_non_empty-ne-nil ctx.correlation_id _ (trace_id-ne-nil a.trace_entropy);
      campaign = normal.campaign;
    }

-- Every accepted command is answered with a session, a correlation ID and, where it needs one, a
-- campaign, whatever the caller left out.
pub record-IsComplete :
    {W : Type 0} (store : Option (MutationStore W)) (sink : EventSink W) (a : Ambient)
    (ctx : Context) (c : Command) (w : W) {r : Response} {w'' : W}
    → record_interaction store sink a ctx c w ≡ (ok r, w'')
    → IsComplete (normalize a c) r
record-IsComplete store sink a ctx c w h =
    let (stored, w', result, applied, published, same_response) =
      completed store sink a ctx c w h in
    rw same_response (respond-IsComplete a ctx c stored result)
