-- ===== src/Command.antt =====
-- platform/internal/domain/interactions/command.go, and the ports EventSink and MutationStore.
use flo_mimi.Prelude.{Bool, List, Text, Action}
use flo_mimi.Value.{Metadata}

pub record Command : Type 0 where
  pub session_id : Text
  pub user_id : Text
  pub route : Text
  pub surface : Text
  pub action : Text
  pub subject_type : Text
  pub subject_id : Text
  pub campaign_id : Text
  pub recipient_id : Text
  pub event_kind : Text
  pub metadata : Metadata

pub record PublishResult : Type 0 where
  pub published : List Text

pub record Response : Type 0 where
  pub accepted : Bool
  pub stored : Bool
  pub session_id : Text
  pub correlation_id : Text
  pub campaign_id : Text
  pub published : List Text
  pub occurred_at : Text

-- What the program keeps in a `context.Context`.
pub record Context : Type 0 where
  pub correlation_id : Text

-- The ports, over the state of the world that they act on.
pub record EventSink (W : Type 0) : Type 0 where
  pub publish_interaction : Context → Command → Action W PublishResult

pub record MutationStore (W : Type 0) : Type 0 where
  pub apply : Context → Command → Action W Bool
