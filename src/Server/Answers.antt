-- ===== src/Server/Answers.antt =====
-- What a status promises of the work behind it.
use flo_mimi.Prelude.{
  Bool, true, false, Option, none, some, ◌≡◌, ◌⊎◌, inl, inr, refl, arith, codes, same, Result, ok,
  err, if◌then◌else◌, Bool-cases, if-both,
}
use mathlib.Core.Path.{subst}
use flo_mimi.Command.{Command, Response}
use flo_mimi.Interactions.{record_interaction}
use flo_mimi.Interactions.Recording.{is_refused, record-refused}
use flo_mimi.Bootstrap.{AppBootstrap, Analytics}
use flo_mimi.Bootstrap.Service.{IsShown, load_view-IsShown}
use flo_mimi.Server.{
  Request, Handler, Answer, recorded, view, nothing, page, limit, body_limit, answer,
  method_not_allowed, write_json, record_decoded, serve, handle_health, handle_bootstrap,
  handle_analytics, handle_interactions, handle_spa, asset_path,
}

module _ {W : Type 0} (h : Handler W) where
  -- The command of a request was recorded, with the response that is the answer.
  pub record IsRecorded (request : Request) (w : W) (a : Answer) (w' : W) : Type 0 where
    pub posted : same request.method (codes "POST") ≡ true
    pub command : Command
    pub decoded : h.decode_command (limit body_limit request.body) ≡ some command
    pub response : Response
    pub answered : a.body ≡ recorded response
    pub done :
        record_interaction h.store h.sink (h.ambient w) request.context command w
        ≡ (ok response, w')

  recorded-IsRecorded :
      (request : Request) (w : W) (command : Command)
      → same request.method (codes "POST") ≡ true
      → h.decode_command (limit body_limit request.body) ≡ some command
      → (r : Result Response × W)
      → record_interaction h.store h.sink (h.ambient w) request.context command w ≡ r
      → (answer 202 502 recorded r).0.status ≡ 202
      → IsRecorded request w (answer 202 502 recorded r).0 (answer 202 502 recorded r).1
  recorded-IsRecorded request w command p d (ok response, w') r e = record {
    posted = p;
    command = command;
    decoded = d;
    response = response;
    answered = refl;
    done = r;
  }
  recorded-IsRecorded request w command p d (err x, w') r e = absurd (omega (arith, e))

  decoded-IsRecorded :
      (request : Request) (w : W)
      → same request.method (codes "POST") ≡ true
      → (o : Option Command) → h.decode_command (limit body_limit request.body) ≡ o
      → (record_decoded h request.context o w).0.status ≡ 202
      → IsRecorded request w
          (record_decoded h request.context o w).0
          (record_decoded h request.context o w).1
  decoded-IsRecorded request w p none d e = absurd (omega (arith, e))
  decoded-IsRecorded request w p (some command) d e =
      recorded-IsRecorded request w command p d _ refl e

  Answered : Request → W → Answer × W → Type 0
  Answered request w r = r.0.status ≡ 202 → IsRecorded request w r.0 r.1

  -- The status 202 is given to the commands that were recorded, and to no other.
  pub handle_interactions-IsRecorded :
      (request : Request) (w : W) {a : Answer} {w' : W}
      → handle_interactions h request w ≡ (a, w')
      → a.status ≡ 202
      → IsRecorded request w a w'
  unfolding handle_interactions Answered
  handle_interactions-IsRecorded request w {a} {w'} r =
      subst (Answered request w) r (answered (same request.method (codes "POST")) refl)
    where
      answered :
          (b : Bool)
          → same request.method (codes "POST") ≡ b
          → Answered request w (
              if b
              then record_decoded h request.context
                  (h.decode_command (limit body_limit request.body))
                  w
              else (method_not_allowed, w))
      answered true p = decoded-IsRecorded request w p _ refl
      answered false p = λ e. absurd (omega (arith, e))

  -- A command that was recorded is answered with 202.
  pub handle_interactions-accepted :
      (request : Request) (w : W) {a : Answer} {w' : W}
      → IsRecorded request w a w'
      → (handle_interactions h request w).0.status ≡ 202
  unfolding handle_interactions
  handle_interactions-accepted request w k = rw (k.posted, k.decoded, k.done) refl

  -- A command with a blank surface or action is answered with 502, and neither port is called.
  pub handle_interactions-refused :
      (request : Request) (w : W) {command : Command}
      → same request.method (codes "POST") ≡ true
      → h.decode_command (limit body_limit request.body) ≡ some command
      → is_refused command ≡ true
      → ((handle_interactions h request w).0.status ≡ 502)
        × ((handle_interactions h request w).1 ≡ w)
  unfolding handle_interactions
  handle_interactions-refused request w {command} p d b =
      let (e, r) = record-refused h.store h.sink (h.ambient w) request.context command w b in
      rw (p, d, r) (refl, refl)

  -- A view that the repository gives is answered with 200, whatever becomes of the analytics.
  pub handle_bootstrap-view :
      (request : Request) (w : W) {model : AppBootstrap} {w' : W}
      → same request.method (codes "GET") ≡ true
      → h.bootstrap_service.repository w ≡ (ok model, w')
      → (a : Analytics) × (w'' : W) × (handle_bootstrap h request w
          ≡ (write_json 200 (view (record model { analytics = a })), w''))
        × IsShown h.bootstrap_service model w' a w''
  unfolding handle_bootstrap
  handle_bootstrap-view request w p m =
      let (a, w'', shows, is_shown) = load_view-IsShown h.bootstrap_service w m in
      (a, w'', rw (p, shows) refl, is_shown)

  -- A path without an asset is answered with the index page, and HEAD with the same less the body.
  pub handle_spa-index :
      (request : Request) (w : W)
      → (same request.method (codes "GET") ≡ true) ⊎ (same request.method (codes "HEAD") ≡ true)
      → h.is_asset (asset_path request.path) ≡ false
      → (handle_spa h request w).0.body
        ≡ (if same request.method (codes "HEAD") then nothing else page h.index)
  unfolding handle_spa
  handle_spa-index request w (inl g) n = rw (g, n) refl
  handle_spa-index request w (inr g) n = elim (Bool-cases (same request.method (codes "GET"))) [
    | inl p ↦ rw (p, n) refl
    | inr p ↦ rw (p, g, n) refl
  ]

module _ {W : Type 0} (h : Handler W) (request : Request) (w : W)
    (not_get : same request.method (codes "GET") ≡ false)
    (not_head : same request.method (codes "HEAD") ≡ false) where
  abbrev Refused : Answer × W → Type 0
  Refused r = r ≡ (method_not_allowed, w)

  health-Refused : Refused (handle_health request w)
  unfolding handle_health
  health-Refused = rw not_get refl

  bootstrap-Refused : Refused (handle_bootstrap h request w)
  unfolding handle_bootstrap
  bootstrap-Refused = rw not_get refl

  analytics-Refused : Refused (handle_analytics h request w)
  unfolding handle_analytics
  analytics-Refused = rw not_get refl

  interactions-Refused :
      same request.method (codes "POST") ≡ false → Refused (handle_interactions h request w)
  unfolding handle_interactions
  interactions-Refused not_post = rw not_post refl

  spa-Refused : Refused (handle_spa h request w)
  unfolding handle_spa
  spa-Refused = rw (not_get, not_head) refl

  -- A method that no route has is answered with 405, on every path, and nothing is done; so is POST
  -- on any path but that of the interactions.
  pub serve-not_allowed :
      (same request.matched (codes "/api/interactions") ≡ true
        → same request.method (codes "POST") ≡ false)
      → serve h request w ≡ (method_not_allowed, w)
  unfolding serve
  serve-not_allowed not_post =
      if-both Refused (same request.matched (codes "/health")) (λ _. health-Refused)
        (λ _.
          if-both Refused (same request.matched (codes "/api/bootstrap")) (λ _. bootstrap-Refused)
            (λ _.
              if-both Refused (same request.matched (codes "/api/analytics"))
                (λ _. analytics-Refused)
                (λ _.
                  if-both Refused (same request.matched (codes "/api/interactions"))
                    (λ e. interactions-Refused (not_post e)) (λ _. spa-Refused))))
