-- ===== src/Content/View.antt =====
-- appdb/init/03_platform_bootstrap_views.sql: what the view analytics.platform_bootstrap shows of the
-- tables that the repository writes.
pub mod Campaigns
pub mod Briefs
mod Tests
use flo_mimi.Prelude.{
  ℕ, Bool, ◌≡◌, List, Option, none, some, Text, Text-discrete, codes, same, ◌==◌, if◌then◌else◌,
  map,
}
use flo_mimi.Prelude.Int.{ℤ}
use flo_mimi.Prelude.Sorted.{IsAscending, sort_by}
use mathlib.Core.List.{filter, Perm}
use flo_mimi.Content.Table.{find}
use flo_mimi.Content.Schema.{Tables, Campaign, CampaignAnalytics, is_analytics}
use flo_mimi.Bootstrap.{CampaignRecord}

-- The functions of the database that print numbers: platform_format_integer, and
-- platform_format_percent of the rate that one number is of another, rounded to a tenth.
pub record Formats : Type 0 where
  pub integer : ℤ → Text
  pub percent_of : ℕ → ℕ → Text

-- where campaign.environment = environment_rows.environment
unfoldable pub campaigns_of : Text → Tables → List Campaign
campaigns_of env t = filter (λ (r : Campaign). Text-discrete r.environment env) t.campaigns

-- jsonb_agg(… order by campaign.display_order): in which order rows of one place come is left open.
pub record IsListed (env : Text) (t : Tables) (rows : List Campaign) : Type 0 where
  pub same_rows : Perm rows (campaigns_of env t)
  pub in_order : IsAscending (λ (r : Campaign). r.display_order) rows

-- One such list.
unfoldable pub listed : Text → Tables → List Campaign
unfolding campaigns_of sort_by
listed env t = sort_by (λ (r : Campaign). r.display_order) (campaigns_of env t)

module _ (formats : Formats) where
  -- platform_campaign_live_metrics_view has no rate for a campaign that reached nobody, and the left
  -- join none for a campaign without statistics.
  unfoldable pub rate : (CampaignAnalytics → ℕ) → Option CampaignAnalytics → Text
  rate recipients none = codes "--"
  rate recipients (some a) =
      if a.delivered_recipients == 0
      then codes "--"
      else formats.percent_of (recipients a) a.delivered_recipients

  -- One element of 'items'.
  unfoldable pub campaign_record : Text → Tables → Campaign → CampaignRecord
  unfolding rate
  campaign_record env t r =
      let metrics = find (is_analytics r.environment r.campaign_id) t.analytics in
      record {
        id = r.campaign_id;
        title = r.title;
        summary = r.summary;
        status = r.status;
        audience = formats.integer r.audience_count;
        audience_label = r.audience_label;
        open_rate =
            if same r.status (codes "Sent")
            then rate (λ a. a.open_recipients) metrics
            else codes "--";
        click_rate =
            if same r.status (codes "Sent")
            then rate (λ a. a.click_recipients) metrics
            else codes "--";
        action_label = r.action_label;
        tone = r.tone;
      }

  -- The items that the view shows.
  abbrev pub IsShown : Text → Tables → List CampaignRecord → Type 0
  IsShown env t items =
      (rows : List Campaign) × IsListed env t rows × (items ≡ map (campaign_record env t) rows)
