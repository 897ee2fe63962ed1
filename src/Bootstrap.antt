-- ===== src/Bootstrap.antt =====
-- platform/internal/domain/bootstrap/models.go: what the server gives to the view.
pub mod Load
pub mod Service
pub mod Effects
mod Tests
use flo_mimi.Prelude.{Bool, List, Text}
use flo_mimi.Prelude.Int.{ℤ}

pub record Brand : Type 0 where
  pub name : Text
  pub tagline : Text
  pub hero_title : Text
  pub hero_accent : Text
  pub hero_note : Text
  pub last_sync : Text
  pub search_placeholder : Text

pub record Session : Type 0 where
  pub label : Text
  pub node : Text
  pub status : Text

pub record Metric : Type 0 where
  pub id : Text
  pub label : Text
  pub value : Text
  pub delta : Text
  pub accent : Text
  pub icon : Text
  pub detail : Text

pub record ChartBar : Type 0 where
  pub label : Text
  pub value : Text
  pub height : ℤ
  pub emphasis : Bool

pub record Performance : Type 0 where
  pub title : Text
  pub modes : List Text
  pub active_mode : Text
  pub bars : List ChartBar

pub record Activity : Type 0 where
  pub id : Text
  pub title : Text
  pub description : Text
  pub at : Text
  pub tone : Text

pub record Segment : Type 0 where
  pub id : Text
  pub label : Text
  pub value : Text

pub record SecurityCard : Type 0 where
  pub title : Text
  pub status : Text
  pub description : Text

pub record BillingCard : Type 0 where
  pub eyebrow : Text
  pub title : Text
  pub date : Text
  pub action : Text

pub record Dashboard : Type 0 where
  pub metrics : List Metric
  pub performance : Performance
  pub activities : List Activity
  pub segments : List Segment
  pub security_card : SecurityCard
  pub billing_card : BillingCard

pub record CampaignSummary : Type 0 where
  pub id : Text
  pub label : Text
  pub value : Text
  pub detail : Text
  pub tone : Text
  pub progress : ℤ

pub record CampaignRecord : Type 0 where
  pub id : Text
  pub title : Text
  pub summary : Text
  pub status : Text
  pub audience : Text
  pub audience_label : Text
  pub open_rate : Text
  pub click_rate : Text
  pub action_label : Text
  pub tone : Text

pub record Campaigns : Type 0 where
  pub headline : Text
  pub description : Text
  pub stats : List CampaignSummary
  pub items : List CampaignRecord

pub record SubscriberRecord : Type 0 where
  pub id : Text
  pub name : Text
  pub email : Text
  pub security_status : Text
  pub assigned_segments : List Text
  pub filter_tags : List Text
  pub last_interaction : Text
  pub tone : Text

pub record Subscribers : Type 0 where
  pub headline : Text
  pub description : Text
  pub filters : List Text
  pub network_size : Text
  pub items : List SubscriberRecord

pub record PipelineStage : Type 0 where
  pub id : Text
  pub title : Text
  pub description : Text
  pub status : Text

pub record AnalyticsSignal : Type 0 where
  pub id : Text
  pub title : Text
  pub description : Text
  pub action : Text
  pub event_kind : Text
  pub subject_type : Text
  pub subject_id : Text

pub record Analytics : Type 0 where
  pub headline : Text
  pub description : Text
  pub pipelines : List PipelineStage
  pub signals : List AnalyticsSignal

pub record AppBootstrap : Type 0 where
  pub brand : Brand
  pub session : Session
  pub dashboard : Dashboard
  pub campaigns : Campaigns
  pub subscribers : Subscribers
  pub analytics : Analytics
