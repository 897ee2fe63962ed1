-- ===== src/Interactions.antt =====
-- platform/internal/application/interactions/service.go: a command is checked, completed, stored
-- and published, in this order.
pub mod Normal
pub mod Campaign
pub mod Recording
pub mod Posted
pub mod Effects
mod Tests
use flo_mimi.Prelude.{
  Bool, true, false, ◌&&◌, ◌||◌, not, [], ◌∷◌, ◌++◌, List, Option, none, some, Text, codes, same,
  is_blank, if◌then◌else◌, Action, pure, raise, message, ◌>>=◌,
}
use flo_mimi.Text.{trim_space}
use flo_mimi.Slug.{slugify}
use flo_mimi.Clock.{Time, Entropy, compact, rfc3339, new_id}
use flo_mimi.Value.{done}
use flo_mimi.Command.{Command, PublishResult, Response, Context, EventSink, MutationStore}

-- What one call reads of the random source and of the clock `s.now`.
pub record Ambient : Type 0 where
  pub session_entropy : Entropy
  pub derived_at : Time
  pub trace_entropy : Entropy
  pub occurred_at : Time

unfoldable pub first_non_empty : List Text → Text
first_non_empty [] = []
first_non_empty (value ∷ values) =
    if is_blank (trim_space value) then first_non_empty values else value

unfoldable pub requires_campaign_identity : Command → Bool
requires_campaign_identity command =
    same command.event_kind (codes "email")
    || same command.event_kind (codes "both")
    || same command.subject_type (codes "campaign")
    || same command.action (codes "create-brief")

unfoldable pub is_campaign_placeholder : Text → Bool
is_campaign_placeholder value =
    let trimmed = trim_space value in
    same trimmed [] || same trimmed (codes "new-brief") || same trimmed (codes "new-campaign")

unfoldable pub build_campaign_id : Text → Time → Text
build_campaign_id action now = slugify action ++ (b'-' ∷ compact now)

unfoldable pub derive_campaign_id : Command → Time → Text
unfolding is_campaign_placeholder build_campaign_id
derive_campaign_id command now =
    let campaign_id = trim_space command.campaign_id in
    if not (same campaign_id [])
    then campaign_id
    else if not (is_campaign_placeholder command.subject_id)
    then trim_space command.subject_id
    else build_campaign_id command.action now

-- `if v == "" { v = d }`
abbrev pub or_default : Text → Text → Text
or_default v d = if is_blank v then d else v

unfoldable pub with_defaults : Ambient → Command → Command
with_defaults a c = record c {
  session_id = or_default c.session_id (new_id (codes "session") a.session_entropy);
  user_id = or_default c.user_id (codes "platform-operator");
  route = or_default c.route (codes "dashboard");
  event_kind = or_default c.event_kind (codes "auto");
  metadata = elim c.metadata [ none ↦ some done | some m ↦ some m ];
}

unfoldable pub with_campaign_id : Ambient → Command → Command
with_campaign_id a c =
    if requires_campaign_identity c && is_blank c.campaign_id
    then record c { campaign_id = derive_campaign_id c a.derived_at }
    else c

unfoldable pub with_subject : Command → Command
with_subject c =
    if same c.action (codes "create-brief") && is_campaign_placeholder c.subject_id
    then record c { subject_id = c.campaign_id }
    else c

-- The assignments to `normalized`.
unfoldable pub normalize : Ambient → Command → Command
normalize a c = with_subject (with_campaign_id a (with_defaults a c))

-- `s.store` may be nil.
abbrev pub apply_store : {W : Type 0} → Option (MutationStore W) → Context → Command → Action W Bool
apply_store none ctx c = pure false
apply_store (some s) ctx c = s.apply ctx c

unfoldable pub respond : Ambient → Context → Command → Bool → PublishResult → Response
respond a ctx normalized stored result = record {
  accepted = true;
  stored = stored;
  session_id = normalized.session_id;
  correlation_id =
      first_non_empty (ctx.correlation_id ∷ new_id (codes "trace") a.trace_entropy ∷ []);
  campaign_id = normalized.campaign_id;
  published = result.published;
  occurred_at = rfc3339 a.occurred_at;
}

module _ {W : Type 0} (store : Option (MutationStore W)) (sink : EventSink W) where
  -- Service.Record
  unfoldable pub record_interaction : Ambient → Context → Command → Action W Response
  record_interaction a ctx command =
      if is_blank (trim_space command.surface)
      then raise (message (codes "surface is required"))
      else if is_blank (trim_space command.action)
      then raise (message (codes "action is required"))
      else do
        let normalized = normalize a command
        stored ← apply_store store ctx normalized
        result ← sink.publish_interaction ctx normalized
        pure (respond a ctx normalized stored result)
