-- ===== src/Platform/Shown.antt =====
-- From a posted brief to the view that a browser is given next.
mod Tests
use flo_mimi.Prelude.{
  ℕ, Bool, true, false, ◌≡◌, ◌≢◌, refl, sym, ap, ◌∙◌, arith, inl, inr, List, Option, none, some,
  Text, codes, same, Error, Result, ok, err, Bool-cases,
}
use mathlib.Core.Path.{subst}
use mathlib.Core.List.{Mem}
use flo_mimi.Text.{trim_space}
use flo_mimi.Command.{Command}
use flo_mimi.Interactions.{normalize}
use flo_mimi.Content.Schema.{Tables}
use flo_mimi.Content.Driver.{Session, Driver, exec, answer, settle}
use flo_mimi.Content.View.{Formats, IsShown}
use flo_mimi.Content.View.Briefs.{ShowsBrief, stored-ShowsBrief}
use flo_mimi.Bootstrap.{AppBootstrap, Campaigns, CampaignRecord}
use flo_mimi.Bootstrap.Service.{load_view}
use flo_mimi.Bootstrap.Load.{Row, load, load-IsDecoded}
use flo_mimi.Server.{
  Request, Answer, Handler, view, limit, body_limit, handle_interactions, handle_bootstrap,
}
use flo_mimi.Server.Answers.{handle_bootstrap-view}
use flo_mimi.Platform.{
  Environment, World, Outside, environment_of, on_db, viewed, view_source, bootstrap_service,
  application_handler,
}
use flo_mimi.Platform.Briefs.{accepted-CampaignStored}

module _ {N : Type 0} (getenv : Environment) (out : Outside N getenv) where
  settle-selected :
      (r : Result Row) (s : Session) {row : Row} {s' : Session}
      → settle out.driver (viewed getenv out r s.tables) s ≡ (ok row, s')
      → r ≡ ok row
  settle-selected (ok q) s h = ground arith
  settle-selected (err e) s h = cc

  answer-selected :
      (fault : Option Error) (env : Text) (s : Session) {row : Row} {s' : Session}
      → answer out.driver fault (λ _ t. viewed getenv out (out.select_view env t) t) s
        ≡ (ok row, s')
      → out.select_view env s.tables ≡ ok row
  answer-selected none env s h = settle-selected (out.select_view env s.tables) _ h
  answer-selected (some e) env s h = cc

  -- A view that the repository gives has the campaigns of the view of the tables, decoded.
  repository-campaigns :
      (w : World N) {model : AppBootstrap} {w' : World N}
      → (bootstrap_service getenv out).repository w ≡ (ok model, w')
      → (row : Row) × (out.select_view (environment_of getenv) w.db.tables ≡ ok row)
        × (out.decoders.unmarshal_campaigns row.raw_campaigns ≡ ok model.campaigns)
  unfolding bootstrap_service view_source exec
  repository-campaigns w h =
      let loaded = ap (λ r. (r.0, r.1.db)) h in
      let (row, selected, decoded) =
        load-IsDecoded (view_source getenv out) (environment_of getenv) w.db loaded in
      (
        row,
        answer-selected (out.driver.fault w.db.calls) (environment_of getenv) w.db selected,
        decoded.campaigns_ok.1,
      )

  -- An answer of 200 has a view with the campaigns that the repository gives.
  given_view :
      (request : Request) (w : World N) (r : Result AppBootstrap × World N)
      → (bootstrap_service getenv out).repository w ≡ r
      → same request.method (codes "GET") ≡ true
      → (handle_bootstrap (application_handler getenv out) request w).0.status ≡ 200
      → (model : AppBootstrap) × ((handle_bootstrap
            (application_handler getenv out)
            request
            w).0.body
          ≡ view model)
        × (row : Row) × (out.select_view (environment_of getenv) w.db.tables ≡ ok row)
        × (out.decoders.unmarshal_campaigns row.raw_campaigns ≡ ok model.campaigns)
  unfolding application_handler handle_bootstrap load_view
  given_view request w (ok model, v) e g h =
      let (a, u, answered, _) =
        handle_bootstrap-view (application_handler getenv out) request w g e in
      let (row, selected, decoded) = repository-campaigns w e in
      (record model { analytics = a }, ap (λ r. r.0.body) answered, row, selected, decoded)
  given_view request w (err e, v) k g h =
      absurd (omega (arith, rw (handle_bootstrap, g, load_view, k) at h))

  handle_bootstrap-given :
      (request : Request) (w : World N)
      → (handle_bootstrap (application_handler getenv out) request w).0.status ≡ 200
      → (model : AppBootstrap) × ((handle_bootstrap
            (application_handler getenv out)
            request
            w).0.body
          ≡ view model)
        × (row : Row) × (out.select_view (environment_of getenv) w.db.tables ≡ ok row)
        × (out.decoders.unmarshal_campaigns row.raw_campaigns ≡ ok model.campaigns)
  unfolding handle_bootstrap
  handle_bootstrap-given request w h = elim (Bool-cases (same request.method (codes "GET"))) [
    | inl g ↦ given_view request w ((bootstrap_service getenv out).repository w) refl g h
    | inr g ↦ absurd (omega (arith, rw (handle_bootstrap, g) at h))
  ]

  -- If a brief was answered with 202 and the next request for the view with 200, and if the campaigns
  -- of the row that the database gives are decoded to a list that the SQL view may show (`shows`), then
  -- the view in the answer has an item that shows what the brief, completed, asks for.
  pub accepted-ShowsBrief :
      (formats : Formats) (post get : Request) (w : World N) {a : Answer} {w' : World N}
      (command : Command)
      → handle_interactions (application_handler getenv out) post w ≡ (a, w')
      → a.status ≡ 202
      → out.decode_command (limit body_limit post.body) ≡ some command
      → same (trim_space command.action) (codes "create-brief") ≡ true
      → (shows : (row : Row) (campaigns : Campaigns)
          → out.select_view (environment_of getenv) w'.db.tables ≡ ok row
          → out.decoders.unmarshal_campaigns row.raw_campaigns ≡ ok campaigns
          → IsShown formats (environment_of getenv) w'.db.tables campaigns.items)
      → (handle_bootstrap (application_handler getenv out) get w').0.status ≡ 200
      → (model : AppBootstrap) × ((handle_bootstrap (application_handler getenv out) get w').0.body
          ≡ view model)
        × (item : CampaignRecord) × Mem item model.campaigns.items
        × ShowsBrief formats (environment_of getenv) (normalize (out.ambient w.net) command) item
  accepted-ShowsBrief formats post get w {w' = w'} command h status decoded brief shows given =
      let (model, body, row, selected, campaigns_ok) = handle_bootstrap-given get w' given in
      let stored = accepted-CampaignStored getenv out post w command h status decoded brief in
      let (item, here, as_asked) =
        stored-ShowsBrief formats (environment_of getenv) (normalize (out.ambient w.net) command)
          w.db.tables w'.db.tables model.campaigns.items stored
          (shows row model.campaigns selected campaigns_ok) in
      (model, body, item, here, as_asked)
