-- ===== src/Interactions/Posted.antt =====
-- What a recorded interaction sends to the event gateway.
mod Tests
use flo_mimi.Prelude.{
  Bool, false, [], ◌∷◌, ◌++◌, List, Option, some, ◌≡◌, refl, sym, ap, inl, inr, arith, Text,
  is_blank, ok, err, Error, Result, pure, continue, ◌>>=◌, map, append-nil, Bool-cases, ◌==◌,
}
use mathlib.Core.Path.{subst}
use flo_mimi.Text.{trim_space, trim_right}
use flo_mimi.Command.{Command, Context, PublishResult, Response, EventSink, MutationStore}
use flo_mimi.Gateway.{Client, Request, new_http_event_gateway}
use flo_mimi.Gateway.Channels.{channels}
use flo_mimi.Gateway.Requests.{Logs, logged, request_of, publish-Logs, continued-Logs}
use flo_mimi.Interactions.{Ambient, normalize, respond, apply_store, record_interaction}
use flo_mimi.Interactions.Recording.{is_refused, record-refused}

-- The store, which leaves the log of the requests alone.
abbrev pub beside : {W : Type 0} → MutationStore W → MutationStore (W × List Request)
beside store = record { apply = λ ctx c s. let r = store.apply ctx c s.0 in (r.0, (r.1, s.1)) }

module _ {W : Type 0} (store : MutationStore W) (client : Client W) (base_url : Text) (a : Ambient)
    (ctx : Context) (c : Command) (has_id : is_blank ctx.correlation_id ≡ false)
    (log : List Request) (w : W) where
  -- The events of the completed command.
  abbrev wanted : List Request
  wanted =
      map (request_of (trim_right (λ c. c == b'/') base_url) ctx.correlation_id (normalize a c))
        (channels (normalize a c))

  sink : EventSink (W × List Request)
  sink = new_http_event_gateway (logged client) base_url

  stored-Logs :
      (r : Result Bool × W)
      → Logs {A = Response} log wanted (
          continue
            (λ stored.
              ◌>>=◌
                (sink.publish_interaction ctx (normalize a c))
                (λ result. pure (respond a ctx (normalize a c) stored result)))
            (r.0, (r.1, log)))
  unfolding sink new_http_event_gateway
  stored-Logs (ok stored, v) =
      continued-Logs log wanted (λ result. respond a ctx (normalize a c) stored result) _
        (publish-Logs client (trim_right (λ c. c == b'/') base_url) ctx (normalize a c) has_id log
          v)
  stored-Logs (err e, v) = ([], wanted, refl, sym (append-nil log))

  -- Under a correlation ID that is not empty, what Service.Record sends to the gateway is, in order, one
  -- JSON post with the ID in a header for each channel of the completed command, with the channel's
  -- event of that command: all of them if it answers, and the first of them, none or all included, if it
  -- returns an error.
  pub record-Logs : Logs log wanted (
      record_interaction
        (some (beside store))
        (new_http_event_gateway (logged client) base_url)
        a
        ctx
        c
        (w, log))
  unfolding record_interaction sink
  record-Logs = elim (Bool-cases (is_refused c)) [
    | inl refused ↦
        let (e, unchanged) = record-refused (some (beside store)) sink a ctx c (w, log) refused in
        subst (Logs log wanted) (sym unchanged) ([], wanted, refl, sym (append-nil log))
    | inr accepted ↦
        let surface : is_blank (trim_space c.surface) ≡ false = ground arith in
        let action : is_blank (trim_space c.action) ≡ false = ground arith in
        rw (surface, action) (stored-Logs (store.apply ctx (normalize a c) w))
  ]
