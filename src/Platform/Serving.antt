-- ===== src/Platform/Serving.antt =====
-- What the handler of every request keeps of the world, the recording of a command included.
use flo_mimi.Prelude.{sym, inl, inr, Option, none, some, Text, codes, same, Bool-cases, if-both}
use mathlib.Core.Path.{subst}
use flo_mimi.Prelude.Effects.{Keeps}
use flo_mimi.Command.{Command, Context}
use flo_mimi.Content.Driver.{Session}
use flo_mimi.Interactions.{record_interaction}
use flo_mimi.Interactions.Recording.{is_refused, record-refused}
use flo_mimi.Interactions.Effects.{record_interaction-keeps}
use flo_mimi.Server.{Request, Answer, limit, body_limit, record_decoded, handle_interactions, serve}
use flo_mimi.Telemetry.{observe_outbound_http}
use flo_mimi.Platform.Readings.{
  sink-Keeps, answered, health-keeps, bootstrap-keeps, analytics-keeps, spa-keeps,
}
use flo_mimi.Platform.{
  on_monitor, Environment, World, Outside, mutation_store, event_gateway, bootstrap_service,
  application_handler,
}

module _ {N : Type 0} (getenv : Environment) (out : Outside N getenv) (P : World N → Type 0)
    (db_stays : (w : World N) (s : Session) → P w → P (record w { db = s }))
    (net_stays : (w : World N) (n : N) → P w → P (record w { net = n }))
    (outbound_stays : (target method route status : Text) (w : World N)
      → P w
      → P (
          on_monitor (observe_outbound_http (codes "platform") target method route status) w)) where
  repository-Keeps : Keeps P (bootstrap_service getenv out).repository
  unfolding bootstrap_service
  repository-Keeps = record { run = λ w h. db_stays w _ h }

  record-keeps :
      (ctx : Context) (c : Command) (w : World N)
      → P w
      → P
          (record_interaction
            (some (mutation_store getenv out))
            (event_gateway getenv out)
            (out.ambient w.net)
            ctx
            c
            w).1
  unfolding mutation_store
  record-keeps ctx c w h = elim (Bool-cases (is_refused c)) [
    | inl refused ↦
        let (e, unchanged) =
          record-refused (some (mutation_store getenv out)) (event_gateway getenv out)
            (out.ambient w.net) ctx c w refused in
        subst (λ r. P r.1) (sym unchanged) h
    | inr accepted ↦
        record_interaction-keeps P (mutation_store getenv out) (event_gateway getenv out)
          (out.ambient w.net) ctx c w accepted
          (λ c'. sink-Keeps getenv out P net_stays outbound_stays repository-Keeps ctx c')
          (db_stays w _ h)
  ]

  abbrev Left : Answer × World N → Type 0
  Left r = P r.1

  decoded-keeps :
      (ctx : Context) (c : Option Command) (w : World N)
      → P w
      → Left (record_decoded (application_handler getenv out) ctx c w)
  unfolding application_handler
  decoded-keeps ctx none w h = h
  decoded-keeps ctx (some c) w h =
      answered getenv out P net_stays outbound_stays repository-Keeps _ _ _ _
        (record-keeps ctx c w h)

  interactions-keeps :
      (request : Request) (w : World N)
      → P w
      → Left (handle_interactions (application_handler getenv out) request w)
  unfolding handle_interactions application_handler
  interactions-keeps request w h =
      if-both Left (same request.method (codes "POST"))
        (λ _.
          decoded-keeps request.context (out.decode_command (limit body_limit request.body)) w h)
        (λ _. h)

  pub serve-keeps :
      (request : Request) (w : World N)
      → P w
      → Left (serve (application_handler getenv out) request w)
  unfolding serve
  serve-keeps request w h =
      let k = repository-Keeps in
      if-both Left (same request.matched (codes "/health"))
        (λ _. health-keeps getenv out P net_stays outbound_stays k request w h)
        (λ _.
          if-both Left (same request.matched (codes "/api/bootstrap"))
            (λ _. bootstrap-keeps getenv out P net_stays outbound_stays k request w h)
            (λ _.
              if-both Left (same request.matched (codes "/api/analytics"))
                (λ _. analytics-keeps getenv out P net_stays outbound_stays k request w h)
                (λ _.
                  if-both Left (same request.matched (codes "/api/interactions"))
                    (λ _. interactions-keeps request w h)
                    (λ _. spa-keeps getenv out P net_stays outbound_stays k request w h))))
