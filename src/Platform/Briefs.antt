-- ===== src/Platform/Briefs.antt =====
-- From a posted brief to its rows, and what stays behind when it cannot be announced.
use flo_mimi.Prelude.{
  some-same, Bool, true, false, some, ◌≡◌, refl, sym, ap, ◌∙◌, arith, Text, codes, same, Error,
  Result, ok, err, Action, wrapped, continue, pure,
}
use mathlib.Core.Path.{subst}
use flo_mimi.Text.{trim_space}
use flo_mimi.Clock.{Time}
use flo_mimi.Command.{Command, Context, Response}
use flo_mimi.Interactions.{normalize, record_interaction}
use flo_mimi.Interactions.Normal.{normalize-Keeps}
use flo_mimi.Interactions.Recording.{is_refused, record-ok}
use flo_mimi.Interactions.Effects.{record_interaction-unpublished}
use flo_mimi.Content.{apply, stored_as, app_db_repository}
use flo_mimi.Content.Driver.{Driver, Session}
use flo_mimi.Content.Campaigns.{create_campaign}
use flo_mimi.Content.Campaigns.Stored.{CampaignStored, create_campaign-CampaignStored}
use flo_mimi.Server.{Request, Answer, limit, body_limit, handle_interactions}
use flo_mimi.Server.Answers.{handle_interactions-IsRecorded}
use flo_mimi.Platform.{
  Environment, World, Outside, environment_of, on_db, mutation_store, event_gateway,
  application_handler,
}
use flo_mimi.Platform.Effects.{announced-Keeps}

stored_as-ok :
    (what : Text) (m : Action Session (Unit {0})) (s : Session) {b : Bool} {s' : Session}
    → stored_as what m s ≡ (ok b, s')
    → m s ≡ (ok tt, s')
unfolding stored_as
stored_as-ok what m s {b} {s'} h = by_result (m s) h
  where
    by_result :
        (r : Result (Unit {0}) × Session)
        → continue (λ _. pure true) (wrapped what r) ≡ (ok b, s')
        → r ≡ (ok tt, s')
    by_result (ok u, s₁) h = ground arith
    by_result (err e, s₁) h = cc

-- The switch on the action of a brief.
apply-brief :
    (driver : Driver) (env : Text) (now : Time) (ctx : Context) (c : Command) (s : Session)
    {b : Bool} {s' : Session}
    → same (trim_space c.action) (codes "create-brief") ≡ true
    → apply driver env now ctx c s ≡ (ok b, s')
    → create_campaign driver env c s ≡ (ok tt, s')
unfolding apply
apply-brief driver env now ctx c s a h = stored_as-ok _ (create_campaign driver env c) s (rw a at h)

module _ {N : Type 0} where
  on_db-ok :
      {A : Type 0} (m : Action Session A) (w : World N) {a : A} {w' : World N}
      → on_db m w ≡ (ok a, w')
      → m w.db ≡ (ok a, w'.db)
  on_db-ok m w h = ap (λ r. (r.0, r.1.db)) h

module _ {N : Type 0} (getenv : Environment) (out : Outside N getenv) where
  recorded-CampaignStored :
      (ctx : Context) (command : Command) (w : World N) {response : Response} {w' : World N}
      → same (trim_space command.action) (codes "create-brief") ≡ true
      → record_interaction
          (some (mutation_store getenv out))
          (event_gateway getenv out)
          (out.ambient w.net)
          ctx
          command
          w
        ≡ (ok response, w')
      → CampaignStored
          (environment_of getenv)
          (normalize (out.ambient w.net) command)
          w.db.tables
          w'.db.tables
  unfolding mutation_store app_db_repository
  recorded-CampaignStored ctx command w {w' = w'} brief done =
      let completed = normalize (out.ambient w.net) command in
      let (stored, w₁, result, applied, published, answered) =
        record-ok (some (mutation_store getenv out)) (event_gateway getenv out) (out.ambient w.net)
          ctx command w done in
      let same_action : same (trim_space completed.action) (codes "create-brief") ≡ true =
        subst (λ a. same (trim_space a) (codes "create-brief") ≡ true)
          (sym (normalize-Keeps (out.ambient w.net) command).action) brief in
      let created =
        apply-brief out.driver (environment_of getenv) (out.clock w.net) ctx completed w.db
          same_action
          (on_db-ok (apply out.driver (environment_of getenv) (out.clock w.net) ctx completed) w
            applied) in
      let kept : w'.db.tables ≡ w₁.db.tables =
        sym (ap (λ r. r.1.db.tables) published)
        ∙ (announced-Keeps getenv out w₁.db.tables ctx completed).run w₁ refl in
      subst (CampaignStored (environment_of getenv) completed w.db.tables) (sym kept)
        (create_campaign-CampaignStored out.driver (environment_of getenv) completed w.db created)

  -- A brief that is answered with 202 is in the tables: its row stands in its place of the display
  -- order, with statistics beside it, and no other row has changed.
  pub accepted-CampaignStored :
      (request : Request) (w : World N) {a : Answer} {w' : World N} (command : Command)
      → handle_interactions (application_handler getenv out) request w ≡ (a, w')
      → a.status ≡ 202
      → out.decode_command (limit body_limit request.body) ≡ some command
      → same (trim_space command.action) (codes "create-brief") ≡ true
      → CampaignStored
          (environment_of getenv)
          (normalize (out.ambient w.net) command)
          w.db.tables
          w'.db.tables
  unfolding application_handler
  accepted-CampaignStored request w {w' = w'} command h status decoded brief =
      let k = handle_interactions-IsRecorded (application_handler getenv out) request w h status in
      let same_one : k.command ≡ command = some-same (sym k.decoded ∙ decoded) in
      recorded-CampaignStored request.context command w brief (
        subst
          (λ c.
            record_interaction (some (mutation_store getenv out)) (event_gateway getenv out)
              (out.ambient w.net) request.context c w
            ≡ (ok k.response, w'))
          same_one k.done)

  -- The rows of a command stay where its announcement fails: the request is answered with 502, and the
  -- tables are those that the repository left.
  pub handle_interactions-unannounced :
      (request : Request) (w v : World N) (command : Command) {stored : Bool} {s' : Session}
      {e : Error}
      → same request.method (codes "POST") ≡ true
      → out.decode_command (limit body_limit request.body) ≡ some command
      → is_refused command ≡ false
      → apply out.driver
          (environment_of getenv)
          (out.clock w.net)
          request.context
          (normalize (out.ambient w.net) command)
          w.db
        ≡ (ok stored, s')
      → (event_gateway getenv out).publish_interaction request.context
          (normalize (out.ambient w.net) command)
          (record w { db = s' })
        ≡ (err e, v)
      → ((handle_interactions (application_handler getenv out) request w).0.status ≡ 502)
        × ((handle_interactions (application_handler getenv out) request w).1.db.tables ≡ s'.tables)
  unfolding handle_interactions application_handler mutation_store app_db_repository
  handle_interactions-unannounced request w v command {s' = s'} posted decoded accepted applied
        failed =
      let completed = normalize (out.ambient w.net) command in
      let done =
        record_interaction-unpublished (λ _. Unit) (mutation_store getenv out)
          (event_gateway getenv out) (out.ambient w.net) request.context command w accepted
          (ap (λ r. (r.0, record w { db = r.1 })) applied) failed in
      let kept : v.db.tables ≡ s'.tables =
        sym (ap (λ r. r.1.db.tables) failed)
        ∙ (announced-Keeps getenv out s'.tables request.context completed).run
            (record w { db = s' }) refl in
      rw (posted, decoded, done) (refl, kept)
