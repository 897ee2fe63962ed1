-- ===== src/Content/View/Briefs.antt =====
-- From a stored brief to the item that shows it.
use flo_mimi.Prelude.{◌≡◌, refl, arith, List, Option, none, some, Text}
use mathlib.Core.List.{Mem}
use flo_mimi.Command.{Command}
use flo_mimi.Content.Table.{find}
use flo_mimi.Content.Table.Keys.{merged}
use flo_mimi.Content.Schema.{Tables, Campaign, is_campaign, merge_campaign}
use flo_mimi.Content.Campaigns.{campaign_row, campaign_id_of}
use flo_mimi.Content.Campaigns.Stored.{CampaignStored, wanted}
use flo_mimi.Bootstrap.{CampaignRecord}
use flo_mimi.Content.View.{Formats, campaign_record, IsShown}
use flo_mimi.Content.View.Campaigns.{find-mem, found_shown}

found-id :
    (env id : Text) (rows : List Campaign) {r : Campaign}
    → find (is_campaign env id) rows ≡ some r
    → r.campaign_id ≡ id
found-id env id rows h = let (m, k) = find-mem (is_campaign env id) rows h in ground (arith, k)

module _ (formats : Formats) (env : Text) (c : Command) where
  -- An item shows what a brief asks for.
  pub record ShowsBrief (item : CampaignRecord) : Type 0 where
    pub id : item.id ≡ campaign_id_of c
    pub title : item.title ≡ (campaign_row env c 0).title
    pub summary : item.summary ≡ (campaign_row env c 0).summary
    pub status : item.status ≡ (campaign_row env c 0).status
    pub audience : item.audience ≡ formats.integer (campaign_row env c 0).audience_count
    pub audience_label : item.audience_label ≡ (campaign_row env c 0).audience_label
    pub action_label : item.action_label ≡ (campaign_row env c 0).action_label
    pub tone : item.tone ≡ (campaign_row env c 0).tone

  module _ (t t' : Tables) where
    merged-ShowsBrief :
        (o : Option Campaign)
        → find (is_campaign env (campaign_id_of c)) t.campaigns ≡ o
        → ShowsBrief (
            campaign_record formats env t'
              (merged (merge_campaign (wanted env c t)) (wanted env c t) o))
    unfolding campaign_record campaign_row
    merged-ShowsBrief none h = record {
      id = refl;
      title = refl;
      summary = refl;
      status = refl;
      audience = refl;
      audience_label = refl;
      action_label = refl;
      tone = refl;
    }
    merged-ShowsBrief (some old) h = record {
      id = found-id env (campaign_id_of c) t.campaigns h;
      title = refl;
      summary = refl;
      status = refl;
      audience = refl;
      audience_label = refl;
      action_label = refl;
      tone = refl;
    }

    -- The view shows a stored brief, in every list that it may show.
    pub stored-ShowsBrief :
        (items : List CampaignRecord)
        → CampaignStored env c t t'
        → IsShown formats env t' items
        → (item : CampaignRecord) × Mem item items × ShowsBrief item
    stored-ShowsBrief items stored shown = (
      _,
      found_shown formats env t' (campaign_id_of c) items shown stored.row,
      merged-ShowsBrief (find (is_campaign env (campaign_id_of c)) t.campaigns) refl,
    )
