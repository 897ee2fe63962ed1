-- ===== src/Content/Schema/OfCampaigns.antt =====
-- The statements of `createCampaign` and `scheduleCampaign`.
use flo_mimi.Prelude.{ℕ, ◌+◌, Option, none, some, Text, codes, same, ok, err}
use flo_mimi.Content.Table.{find, upsert, update_where, count_where, max_order}
use mathlib.Core.Option
use package.flo_mimi.Content.Schema.Rows.{
  Campaign, CampaignAnalytics, Statement, as_integer, in_known_environment, is_analytics,
  is_campaign, violates,
}

-- select display_order from platform_campaign where environment = $1 and campaign_id = $2
unfoldable pub select_campaign_order : Text → Text → Statement (Option ℕ)
select_campaign_order env id t =
    ok (Option.map (λ (r : Campaign). r.display_order) (find (is_campaign env id) t.campaigns), t)

-- select coalesce(max(display_order), 0) + 1 from platform_campaign where environment = $1
unfoldable pub select_next_campaign_order : Text → Statement ℕ
select_next_campaign_order env t =
    ok (
      max_order (λ (r : Campaign). same r.environment env) (λ r. r.display_order) t.campaigns + 1,
      t,
    )

-- on conflict (environment, campaign_id) do update: the display order is not set.
abbrev pub merge_campaign : Campaign → Campaign → Campaign
merge_campaign new old = record old {
  title = new.title;
  summary = new.summary;
  status = new.status;
  audience_count = new.audience_count;
  audience_label = new.audience_label;
  action_label = new.action_label;
  tone = new.tone;
}

unfoldable pub upsert_campaign : Campaign → Statement (Unit {0})
upsert_campaign row t = as_integer row.audience_count (
    in_known_environment row.environment t (
      tt,
      record t {
        campaigns =
            upsert (is_campaign row.environment row.campaign_id) (merge_campaign row) row
              t.campaigns;
      },
    ))

abbrev pub unsent : ℕ → Text → Text → CampaignAnalytics
unsent now env id = record {
  environment = env;
  campaign_id = id;
  delivered_recipients = 0;
  open_recipients = 0;
  click_recipients = 0;
  bounce_recipients = 0;
  refreshed_at = now;
}

-- insert into platform_campaign_analytics … on conflict do nothing
unfoldable pub seed_campaign_analytics : ℕ → Text → Text → Statement (Unit {0})
seed_campaign_analytics now env id t = elim (find (is_campaign env id) t.campaigns) [
  | none ↦ err (violates (codes "platform_campaign"))
  | some _ ↦ in_known_environment env t (
    tt,
    record t { analytics = upsert (is_analytics env id) (λ r. r) (unsent now env id) t.analytics },
  )
]

-- update platform_campaign set status = 'Scheduled', …
abbrev pub scheduled : Campaign → Campaign
scheduled r = record r {
  status = codes "Scheduled";
  summary = codes "Test send queued just now";
  action_label = codes "Inspect performance";
  tone = codes "primary";
}

unfoldable pub schedule_campaign_rows : Text → Text → Statement ℕ
schedule_campaign_rows env id t = ok (
  count_where (is_campaign env id) t.campaigns,
  record t { campaigns = update_where (is_campaign env id) scheduled t.campaigns },
)
