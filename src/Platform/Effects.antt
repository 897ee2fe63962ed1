-- ===== src/Platform/Effects.antt =====
-- What a request does to the tables.
use flo_mimi.Prelude.{
  ◌≢◌, arith, some-same, true, false, [], ◌∷◌, Option, none, some, ◌≡◌, ◌⊎◌, inl, inr, refl, sym,
  ap, ◌∙◌, Text, codes, same, Error, Result, ok, err, Bool-cases, if-both,
}
use mathlib.Core.Path.{subst}
use flo_mimi.Prelude.Effects.{Keeps}
use flo_mimi.Clock.{Entropy}
use flo_mimi.Command.{Command, Context}
use flo_mimi.Interactions.{normalize, record_interaction}
use flo_mimi.Interactions.Recording.{is_refused, record-refused}
use flo_mimi.Interactions.Effects.{record_interaction-keeps}
use flo_mimi.Content.{apply}
use flo_mimi.Content.Schema.{Tables}
use flo_mimi.Content.Driver.{Session, exec, answer, settle}
use flo_mimi.Bootstrap.Load.{Row}
use flo_mimi.Bootstrap.Effects.{load-Keeps}
use flo_mimi.Server
use flo_mimi.Server.{
  Request, Answer, Handler, limit, body_limit, record_decoded, handle_health, handle_bootstrap,
  handle_analytics, handle_interactions, handle_spa, serve, asset_path,
}
use flo_mimi.Telemetry.{observe_outbound_http, wrap_http, enter, correlation_of}
use flo_mimi.Platform.Readings.{
  sink-Keeps, health-keeps, bootstrap-keeps, analytics-keeps, spa-keeps,
}
use flo_mimi.Platform.{
  on_monitor, Environment, World, Outside, environment_of, viewed, view_source, mutation_store,
  event_gateway, bootstrap_service, application_handler, serve_root, serve_matched, serve_root-both,
}

some-not-none : {a : Answer} → some a ≢ none
some-not-none h = cc

true-not-false : true ≢ false
true-not-false h = cc

module _ {N : Type 0} (getenv : Environment) (out : Outside N getenv) where
  -- The tables after a POST of a command that was not refused: what the repository leaves for the
  -- completed command.
  pub record IsApplied (request : Request) (w : World N) (t' : Tables) : Type 0 where
    pub routed : same request.matched (codes "/api/interactions") ≡ true
    pub posted : same request.method (codes "POST") ≡ true
    pub command : Command
    pub decoded : out.decode_command (limit body_limit request.body) ≡ some command
    pub accepted : is_refused command ≡ false
    pub context : Context
    pub applied :
        t'
        ≡ (apply out.driver
            (environment_of getenv)
            (out.clock w.net)
            context
            (normalize (out.ambient w.net) command)
            w.db).1.tables

  -- A POST of a command that is not refused, on the path of the interactions.
  pub record IsPosted (request : Request) : Type 0 where
    pub routed : same request.matched (codes "/api/interactions") ≡ true
    pub posted : same request.method (codes "POST") ≡ true
    pub command : Command
    pub decoded : out.decode_command (limit body_limit request.body) ≡ some command
    pub accepted : is_refused command ≡ false

  abbrev pub Outcome : Request → World N → Tables → Type 0
  Outcome request w t' = (¬ IsPosted request × (t' ≡ w.db.tables)) ⊎ IsApplied request w t'

  module _ (t : Tables) where
    -- The tables are these.
    abbrev pub Has : World N → Type 0
    Has w = w.db.tables ≡ t

    abbrev HasTables : Session → Type 0
    HasTables s = s.tables ≡ t

    settle-keeps :
        (r : Result Row) (s : Session)
        → HasTables s
        → HasTables (settle out.driver (viewed getenv out r s.tables) s).1
    settle-keeps (ok row) s h = h
    settle-keeps (err e) s h = h

    answer-keeps :
        (fault : Option Error) (env : Text) (s : Session)
        → HasTables s
        → HasTables
            (answer out.driver fault (λ _ t'. viewed getenv out (out.select_view env t') t') s).1
    answer-keeps none env s h = settle-keeps (out.select_view env s.tables) _ h
    answer-keeps (some e) env s h = h

    select-Keeps : (env : Text) → Keeps HasTables ((view_source getenv out).select_bootstrap env)
    unfolding view_source exec
    select-Keeps env = record { run = λ s h. answer-keeps (out.driver.fault s.calls) env s h }

    repository-Keeps : Keeps Has (bootstrap_service getenv out).repository
    unfolding bootstrap_service
    repository-Keeps = record {
      run = λ w h.
          (load-Keeps HasTables (view_source getenv out) (environment_of getenv)
              (select-Keeps (environment_of getenv))).run
            w.db h;
    }

    outbound-Has :
        (target method route status : Text) (w : World N)
        → Has w
        → Has (on_monitor (observe_outbound_http (codes "platform") target method route status) w)
    outbound-Has target method route status w h = h

    pub announced-Keeps :
        (ctx : Context) (c : Command)
        → Keeps Has ((event_gateway getenv out).publish_interaction ctx c)
    announced-Keeps ctx c =
        sink-Keeps getenv out Has (λ v n k. k) outbound-Has repository-Keeps ctx c

  -- The answer to a call is written after it.
  answered-state :
      {A : Type 0} (success failed : _) (body : A → Server.Body) (r : Result A × World N)
      → (Server.answer success failed body r).1 ≡ r.1
  answered-state success failed body (ok a, w) = refl
  answered-state success failed body (err e, w) = refl

  decoded-Outcome :
      (request : Request) (w : World N)
      → same request.matched (codes "/api/interactions") ≡ true
      → same request.method (codes "POST") ≡ true
      → (o : Option Command) → out.decode_command (limit body_limit request.body) ≡ o
      → Outcome request w
          (record_decoded (application_handler getenv out) request.context o w).1.db.tables
  unfolding application_handler
  decoded-Outcome request w routed posted none d = inl (λ p. let decoded = p.decoded in cc, refl)
  decoded-Outcome request w routed posted (some command) d =
      elim (Bool-cases (is_refused command)) [
        | inl refused ↦
            let (e, unchanged) =
              record-refused (some (mutation_store getenv out)) (event_gateway getenv out)
                (out.ambient w.net) request.context command w refused in
            inl (
              λ p.
                  let same_command : p.command ≡ command = some-same (sym p.decoded ∙ d) in
                  absurd
                    (true-not-false (sym refused ∙ sym (ap is_refused same_command) ∙ p.accepted)),
              ap (λ v. v.db.tables) (answered-state _ _ _ _ ∙ ap (λ r. r.1) unchanged),
            )
        | inr accepted ↦ inr (record {
          routed = routed;
          posted = posted;
          command = command;
          decoded = d;
          accepted = accepted;
          context = request.context;
          applied = ap (λ v. v.db.tables) (answered-state _ _ _ _) ∙ stored accepted;
        })
      ]
    where
      stored :
          is_refused command ≡ false
          → (record_interaction
              (some (mutation_store getenv out))
              (event_gateway getenv out)
              (out.ambient w.net)
              request.context
              command
              w).1.db.tables
            ≡ (apply out.driver
                (environment_of getenv)
                (out.clock w.net)
                request.context
                (normalize (out.ambient w.net) command)
                w.db).1.tables
      stored accepted =
          record_interaction-keeps (Has _) (mutation_store getenv out) (event_gateway getenv out)
            (out.ambient w.net) request.context command w accepted
            (λ c. announced-Keeps _ request.context c) refl

  interactions-Outcome :
      (request : Request) (w : World N)
      → same request.matched (codes "/api/interactions") ≡ true
      → Outcome request w
          (handle_interactions (application_handler getenv out) request w).1.db.tables
  unfolding handle_interactions application_handler
  interactions-Outcome request w routed =
      if-both (λ (r : Answer × World N). Outcome request w r.1.db.tables)
        (same request.method (codes "POST"))
        (λ posted. decoded-Outcome request w routed posted _ refl)
        (λ other. inl (λ p. absurd (true-not-false (sym p.posted ∙ other)), refl))

  not-IsPosted :
      (request : Request) (other : Text)
      → other ≢ codes "/api/interactions"
      → same request.matched other ≡ true
      → ¬ IsPosted request
  not-IsPosted request other apart e p = apart (ground (arith, e, p.routed))

  serve-Outcome :
      (request : Request) (w : World N)
      → Outcome request w (serve (application_handler getenv out) request w).1.db.tables
  unfolding serve
  serve-Outcome request w =
      let after : Answer × World N → Type 0 = λ r. Outcome request w r.1.db.tables in
      if-both after (same request.matched (codes "/health"))
        (λ e. inl (
          not-IsPosted request (codes "/health") (λ h. ground (arith, h)) e,
          health-keeps getenv out (Has w.db.tables) (λ v n k. k) (outbound-Has w.db.tables)
              (repository-Keeps w.db.tables) request w refl,
        ))
        (λ _.
          if-both after (same request.matched (codes "/api/bootstrap"))
            (λ e. inl (
              not-IsPosted request (codes "/api/bootstrap") (λ h. ground (arith, h)) e,
              bootstrap-keeps getenv out (Has w.db.tables) (λ v n k. k) (outbound-Has w.db.tables)
                  (repository-Keeps w.db.tables) request w refl,
            ))
            (λ _.
              if-both after (same request.matched (codes "/api/analytics"))
                (λ e. inl (
                  not-IsPosted request (codes "/api/analytics") (λ h. ground (arith, h)) e,
                  analytics-keeps getenv out (Has w.db.tables) (λ v n k. k)
                      (outbound-Has w.db.tables) (repository-Keeps w.db.tables) request w refl,
                ))
                (λ _.
                  if-both after (same request.matched (codes "/api/interactions"))
                    (λ e. interactions-Outcome request w e)
                    (λ other. inl (
                      λ p. absurd (true-not-false (sym p.routed ∙ other)),
                      spa-keeps getenv out (Has w.db.tables) (λ v n k. k) (outbound-Has w.db.tables)
                          (repository-Keeps w.db.tables) request w refl,
                    )))))

  around :
      (ctx : Context) (request : Request) (w : World N) {t' : Tables}
      → Outcome (record request { context = ctx }) (on_monitor enter w) t'
      → Outcome request w t'
  around ctx request w (inl (other, same_tables)) = inl (
    λ p. other (record {
      routed = p.routed;
      posted = p.posted;
      command = p.command;
      decoded = p.decoded;
      accepted = p.accepted;
    }),
    same_tables,
  )
  around ctx request w (inr a) = inr (record {
    routed = a.routed;
    posted = a.posted;
    command = a.command;
    decoded = a.decoded;
    accepted = a.accepted;
    context = a.context;
    applied = a.applied;
  })

  -- The middleware acts on the monitor alone.
  wrapped-tables :
      (next : Text → World N → Answer × World N) (method path header : Text) (entropy : Entropy)
      (w : World N)
      → (wrap_http on_monitor
          (λ (a : Answer). a.status ∷ [])
          next
          method
          path
          header
          entropy
          w).1.db.tables
        ≡ (next (correlation_of header entropy) (on_monitor enter w)).1.db.tables
  unfolding wrap_http
  wrapped-tables next method path header entropy w = refl

  wrapped-Outcome :
      (header : Text) (request : Request) (w : World N)
      → Outcome request w
          (wrap_http on_monitor
            (λ (a : Answer). a.status ∷ [])
            (λ correlation_id.
              serve
                (application_handler getenv out)
                (record request { context = record { correlation_id = correlation_id } }))
            request.method
            request.path
            header
            (out.entropy w.net)
            w).1.db.tables
  wrapped-Outcome header request w =
      let ctx : Context = record { correlation_id = correlation_of header (out.entropy w.net) } in
      subst (Outcome request w)
        (sym (wrapped-tables _ request.method request.path header (out.entropy w.net) w))
        (around ctx request w
          (serve-Outcome (record request { context = ctx }) (on_monitor enter w)))

  matched-Outcome :
      (header : Text) (request : Request) (w : World N)
      → Outcome request w (serve_matched getenv out header request w).1.db.tables
  unfolding serve_matched
  matched-Outcome header request w =
      if-both (λ (r : (Text × Answer) × World N). Outcome request w r.1.db.tables)
        (same request.matched (codes "/metrics"))
        (λ e. inl (not-IsPosted request (codes "/metrics") (λ h. ground (arith, h)) e, refl))
        (λ _. wrapped-Outcome header request w)

  pub serve_root-Outcome :
      (header : Text) (request : Request) (w : World N)
      → ((out.redirect request ≡ none → ¬ IsPosted request)
          × ((serve_root getenv out header request w).1.db.tables ≡ w.db.tables))
        ⊎ IsApplied request w (serve_root getenv out header request w).1.db.tables
  serve_root-Outcome header request w =
      serve_root-both getenv out
        (λ r.
          ((out.redirect request ≡ none → ¬ IsPosted request) × (r.1.db.tables ≡ w.db.tables))
          ⊎ IsApplied request w r.1.db.tables)
        header request w (λ answer e. inl (λ passed. absurd (some-not-none (sym e ∙ passed)), refl))
        (λ _. passed_on (matched-Outcome header request w))
    where
      passed_on :
          {t' : Tables}
          → Outcome request w t'
          → ((out.redirect request ≡ none → ¬ IsPosted request) × (t' ≡ w.db.tables))
            ⊎ IsApplied request w t'
      passed_on (inl (other, same_tables)) = inl (λ _. other, same_tables)
      passed_on (inr a) = inr a
