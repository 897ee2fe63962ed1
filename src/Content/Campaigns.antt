-- ===== src/Content/Campaigns.antt =====
-- `createCampaign` and `scheduleCampaign`.
pub mod Stored
pub mod Scheduled
pub mod Refused
use flo_mimi.Prelude.{
  ℕ, [], ◌∷◌, Option, none, some, Text, codes, same, ◌==◌, if◌then◌else◌, Action, wrapped, quoted,
  message, pure, raise, ◌>>=◌, ◌>>◌, continue,
}
use flo_mimi.Prelude.Int.{ℤ, pos}
use flo_mimi.Text.{trim_space}
use flo_mimi.Command.{Command}
use flo_mimi.Content.Metadata.{
  first_non_empty, metadata_string, metadata_int, default_campaign_title,
}
use flo_mimi.Content.Schema.{
  Campaign, Statement, select_campaign_order, select_next_campaign_order, upsert_campaign,
  seed_campaign_analytics, schedule_campaign_rows,
}
use flo_mimi.Content.Driver.{Driver, Session, exec}

unfoldable pub campaign_id_of : Command → Text
unfolding first_non_empty
campaign_id_of command =
    first_non_empty (trim_space command.campaign_id ∷ trim_space command.subject_id ∷ [])

unfoldable pub audience_of : Command → ℤ
unfolding metadata_int
audience_of c = metadata_int c.metadata (codes "audienceCount") (pos 6400)

-- The row that the command asks for.
unfoldable pub campaign_row : Text → Command → ℕ → Campaign
unfolding metadata_string audience_of default_campaign_title campaign_id_of
campaign_row env c display_order = record {
  environment = env;
  campaign_id = campaign_id_of c;
  title = metadata_string c.metadata (codes "title") (default_campaign_title c.action);
  summary =
      metadata_string c.metadata (codes "summary")
        (codes "Created from the operator console just now");
  status = metadata_string c.metadata (codes "status") (codes "Draft");
  audience_count = audience_of c;
  audience_label =
      metadata_string c.metadata (codes "audienceLabel") (codes "Curated audience pending review");
  action_label = metadata_string c.metadata (codes "actionLabel") (codes "Launch test send");
  tone = metadata_string c.metadata (codes "tone") (codes "tertiary");
  display_order = display_order;
}

-- sql.ErrNoRows is an order of 0.
abbrev pub order_or_zero : Option ℕ → ℕ
order_or_zero none = 0
order_or_zero (some n) = n

module _ (driver : Driver) where
  unfoldable pub lookup_display_order : Statement (Option ℕ) → Action Session ℕ
  unfolding exec
  lookup_display_order query s =
      continue (λ found. pure (order_or_zero found))
        (wrapped (codes "lookup display order") (exec driver (λ _. query) s))

  unfoldable pub next_display_order : Statement ℕ → Action Session ℕ
  unfolding exec
  next_display_order query s =
      wrapped (codes "select next display order") (exec driver (λ _. query) s)

  -- The order that a row has, or the next one of its environment.
  unfoldable pub display_order_of : Statement (Option ℕ) → Statement ℕ → Action Session ℕ
  unfolding lookup_display_order next_display_order
  display_order_of query next = do
    found ← lookup_display_order query
    if found == 0 then next_display_order next else pure found

  module _ (env : Text) where
    unfoldable pub create_campaign : Command → Action Session (Unit {0})
    unfolding display_order_of exec
    create_campaign c =
        if same (campaign_id_of c) [] then raise (message (codes "campaign ID is required")) else do
          display_order ←
              display_order_of (select_campaign_order env (campaign_id_of c))
                (select_next_campaign_order env)
          λ s.
              wrapped (codes "upsert campaign")
                (exec driver (λ _. upsert_campaign (campaign_row env c display_order)) s)
          λ s.
              wrapped (codes "seed campaign analytics")
                (exec driver (λ now. seed_campaign_analytics now env (campaign_id_of c)) s)

    unfoldable pub schedule_campaign : Command → Action Session (Unit {0})
    unfolding exec
    schedule_campaign c =
        if same (campaign_id_of c) [] then raise (message (codes "campaign ID is required")) else do
          rows_affected ← λ s.
              wrapped (codes "update campaign")
                (exec driver (λ _. schedule_campaign_rows env (campaign_id_of c)) s)
          if rows_affected == 0
              then raise (quoted (codes "campaign ") (campaign_id_of c) (codes " was not found"))
              else pure tt
