-- ===== src/Content/Schema/Rows.antt =====
-- The rows of the platform tables, their keys, and the constraint on the environment.
use flo_mimi.Prelude.{
  ℕ, Bool, true, false, ◌&&◌, [], ◌∷◌, ◌++◌, List, Text, codes, same, if◌then◌else◌, Result, ok,
  err, Error, message,
}
use flo_mimi.Prelude.Int.{ℤ, fits_int32}

pub record Campaign : Type 0 where
  pub environment : Text
  pub campaign_id : Text
  pub title : Text
  pub summary : Text
  pub status : Text
  pub audience_count : ℤ
  pub audience_label : Text
  pub action_label : Text
  pub tone : Text
  pub display_order : ℕ

pub record CampaignAnalytics : Type 0 where
  pub environment : Text
  pub campaign_id : Text
  pub delivered_recipients : ℕ
  pub open_recipients : ℕ
  pub click_recipients : ℕ
  pub bounce_recipients : ℕ
  pub refreshed_at : ℕ

pub record Subscriber : Type 0 where
  pub environment : Text
  pub subscriber_id : Text
  pub name : Text
  pub email : Text
  pub security_status : Text
  pub created_at : ℕ
  pub last_interaction_at : ℕ
  pub tone : Text
  pub is_featured : Bool
  pub display_order : ℕ

pub record SubscriberSegment : Type 0 where
  pub environment : Text
  pub subscriber_id : Text
  pub segment_label : Text
  pub display_order : ℕ

pub record Filter : Type 0 where
  pub environment : Text
  pub filter_label : Text
  pub display_order : ℕ

pub record FilterAssignment : Type 0 where
  pub environment : Text
  pub subscriber_id : Text
  pub filter_label : Text

pub record Tables : Type 0 where
  pub environments : List Text
  pub campaigns : List Campaign
  pub analytics : List CampaignAnalytics
  pub subscribers : List Subscriber
  pub segments : List SubscriberSegment
  pub filters : List Filter
  pub assignments : List FilterAssignment

-- A statement on the tables: its result with the tables after it, or the constraint that it breaks.
abbrev pub Statement : Type 0 → Type 0
Statement A = Tables → Result (A × Tables)

abbrev pub violates : Text → Error
violates constraint = message (codes "pq: insert or update violates " ++ constraint)

unfoldable pub contains : Text → List Text → Bool
contains t [] = false
contains t (s ∷ ts) = if same s t then true else contains t ts

-- The foreign key on platform_environment.
abbrev pub in_known_environment : {A : Type 0} → Text → Tables → A → Result A
in_known_environment env t a =
    if contains env t.environments then ok a else err (violates (codes "platform_environment"))

-- A parameter of the type integer.
abbrev pub out_of_range : Error
out_of_range = message (codes "pq: value is out of range for type integer")

abbrev pub as_integer : {A : Type 0} → ℤ → Result A → Result A
as_integer n r = if fits_int32 n then r else err out_of_range

-- The keys (environment, id).
abbrev pub is_campaign : Text → Text → Campaign → Bool
is_campaign env id r = same r.environment env && same r.campaign_id id

abbrev pub is_analytics : Text → Text → CampaignAnalytics → Bool
is_analytics env id r = same r.environment env && same r.campaign_id id

abbrev pub is_subscriber : Text → Text → Subscriber → Bool
is_subscriber env id r = same r.environment env && same r.subscriber_id id

abbrev pub is_segment_of : Text → Text → SubscriberSegment → Bool
is_segment_of env id r = same r.environment env && same r.subscriber_id id

abbrev pub is_filter : Text → Text → Filter → Bool
is_filter env label r = same r.environment env && same r.filter_label label

abbrev pub is_assignment_of : Text → Text → FilterAssignment → Bool
is_assignment_of env id r = same r.environment env && same r.subscriber_id id
