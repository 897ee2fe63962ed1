-- ===== src/Gateway/Contract.antt =====
-- event-gateway/app/main.py: the events that the event gateway takes, and that the platform's
-- payloads are such events.
use flo_mimi.Prelude.{
  Bool, true, false, [], ◌∷◌, ◌++◌, List, Option, none, some, ◌≡◌, refl, arith, inl, inr, Text,
  Text-discrete, codes, is_blank, if◌then◌else◌, Bool-cases,
}
use mathlib.Core.Option.{bind}
use flo_mimi.Text.{trim_space}
use flo_mimi.Value.{Value, string, object, null, Fields, done, lookup}
use flo_mimi.Command.{Command}
use flo_mimi.Gateway.{
  slugify, route_path, first_non_empty, metadata_value, analytics_payload, email_payload,
}

-- The events, less the identifier and the time, which the gateway gives to an event without them.
pub record AnalyticsEvent : Type 0 where
  pub session_id : Option Text
  pub user_id : Option Text
  pub event_name : Text
  pub page_url : Option Text
  pub payload : Fields

pub record EmailEvent : Type 0 where
  pub campaign_id : Text
  pub recipient_id : Option Text
  pub event_type : Text
  pub payload : Fields

-- A field of the type `str`.
abbrev pub as_text : Option Value → Option Text
as_text (some (string t)) = some t
as_text _ = none

-- A field of the type `str | None`, None by default.
abbrev pub as_optional_text : Option Value → Option (Option Text)
as_optional_text none = some none
as_optional_text (some null) = some none
as_optional_text (some (string t)) = some (some t)
as_optional_text _ = none

-- A field of the type `dict`, empty by default.
abbrev pub as_dict : Option Value → Option Fields
as_dict none = some done
as_dict (some (object m)) = some m
as_dict _ = none

-- A body whose identifier and time are left to the gateway.
unfoldable pub is_fresh : Fields → Bool
unfolding lookup
is_fresh m = elim (lookup (codes "event_id") m) [
  | some _ ↦ false
  | none ↦ elim (lookup (codes "occurred_at") m) [ some _ ↦ false | none ↦ true ]
]

-- What FastAPI makes of a fresh body, nothing being the answer 422.
unfoldable pub analytics_event : Value → Option AnalyticsEvent
unfolding lookup is_fresh
analytics_event (object m) =
    if is_fresh m
    then bind (as_optional_text (lookup (codes "session_id") m)) (λ session_id.
      bind (as_optional_text (lookup (codes "user_id") m)) (λ user_id.
        bind (as_text (lookup (codes "event_name") m)) (λ event_name.
          bind (as_optional_text (lookup (codes "page_url") m)) (λ page_url.
            bind (as_dict (lookup (codes "payload") m)) (λ payload. some (record {
              session_id = session_id;
              user_id = user_id;
              event_name = event_name;
              page_url = page_url;
              payload = payload;
            }))))))
    else none
analytics_event _ = none

unfoldable pub email_event : Value → Option EmailEvent
unfolding lookup is_fresh
email_event (object m) =
    if is_fresh m
    then bind (as_text (lookup (codes "campaign_id") m)) (λ campaign_id.
      bind (as_optional_text (lookup (codes "recipient_id") m)) (λ recipient_id.
        bind (as_text (lookup (codes "event_type") m)) (λ event_type.
          bind (as_dict (lookup (codes "payload") m)) (λ payload. some (record {
            campaign_id = campaign_id;
            recipient_id = recipient_id;
            event_type = event_type;
            payload = payload;
          })))))
    else none
email_event _ = none

-- What a command says in the payload of its event.
pub record Tells (c : Command) (m : Fields) : Type 0 where
  pub surface : lookup (codes "surface") m ≡ some (string c.surface)
  pub subject_type : lookup (codes "subject_type") m ≡ some (string c.subject_type)
  pub subject_id : lookup (codes "subject_id") m ≡ some (string c.subject_id)
  pub metadata : lookup (codes "metadata") m ≡ some (metadata_value c.metadata)

-- The gateway takes the analytics event of every command, and reads out of it what went in.
pub analytics_payload-event :
    (c : Command)
    → (m : Fields) × (analytics_event (analytics_payload c)
        ≡ some (record {
          session_id = some c.session_id;
          user_id = some c.user_id;
          event_name = slugify c.surface ++ (b'.' ∷ slugify c.action);
          page_url = some (route_path c.route);
          payload = m;
        }))
      × Tells c m
unfolding analytics_payload analytics_event lookup is_fresh Text-discrete bind
analytics_payload-event c =
    (_, refl, record { surface = refl; subject_type = refl; subject_id = refl; metadata = refl })

blank_of_trim : (value : Text) → is_blank (trim_space value) ≡ false → is_blank value ≡ false
unfolding trim_space
blank_of_trim [] p = ground arith
blank_of_trim (c ∷ s) p = refl

first_non_empty-first :
    (value : Text) (values : List Text)
    → is_blank (trim_space value) ≡ false
    → first_non_empty (value ∷ values) ≡ value
unfolding first_non_empty
first_non_empty-first value values p = simp p

first_non_empty-next :
    (value : Text) (values : List Text)
    → is_blank (trim_space value) ≡ true
    → first_non_empty (value ∷ values) ≡ first_non_empty values
unfolding first_non_empty
first_non_empty-next value values p = simp p

first_non_empty-filled :
    (values : List Text) → is_blank (first_non_empty (values ++ (codes "platform-ui" ∷ []))) ≡ false
unfolding first_non_empty trim_space
first_non_empty-filled [] = refl
first_non_empty-filled (value ∷ values) = elim (Bool-cases (is_blank (trim_space value))) [
  | inl p ↦
      rw (first_non_empty-next value (values ++ (codes "platform-ui" ∷ [])) p)
        (first_non_empty-filled values)
  | inr p ↦
      rw (first_non_empty-first value (values ++ (codes "platform-ui" ∷ [])) p)
        (blank_of_trim value p)
]

-- The gateway takes the campaign event of every command, and reads out of it the recipient, the action
-- as a slug, the surface, the subject and the metadata of the command, and an identifier that is not
-- empty and is that of the command's campaign if this is not blank.
pub email_payload-event :
    (c : Command)
    → (id : Text) × (m : Fields) × (email_event (email_payload c)
        ≡ some (record {
          campaign_id = id;
          recipient_id = some c.recipient_id;
          event_type = codes "ui_" ++ slugify c.action;
          payload = m;
        }))
      × (is_blank id ≡ false)
      × (is_blank (trim_space c.campaign_id) ≡ false → id ≡ c.campaign_id)
      × Tells c m
unfolding email_payload email_event lookup is_fresh Text-discrete bind
email_payload-event c = (
  _,
  _,
  refl,
  first_non_empty-filled (c.campaign_id ∷ c.subject_id ∷ []),
  first_non_empty-first c.campaign_id (c.subject_id ∷ codes "platform-ui" ∷ []),
  record { surface = refl; subject_type = refl; subject_id = refl; metadata = refl },
)
