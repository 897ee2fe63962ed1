-- ===== src/Interactions/Tests.antt =====
-- The service's tests of service_test.go, and its theorems at them, over stubs that remember.
use flo_mimi.Prelude.{
  ◌≢◌, Bool, true, [], ◌∷◌, List, Option, none, some, ◌≡◌, refl, codes, Error, Result, ok, err,
  message, Text-discrete,
}
use flo_mimi.Text.{trim_space}
use flo_mimi.Slug.{slugify}
use flo_mimi.Clock.{Time, bytes, failed, compact, new_id, decimal, rfc3339}
use flo_mimi.Command.{Command, Context, PublishResult, Response, EventSink, MutationStore}
use flo_mimi.Interactions.{
  Ambient, with_defaults, with_campaign_id, with_subject, requires_campaign_identity,
  first_non_empty, normalize, apply_store, respond, record_interaction, is_campaign_placeholder,
  derive_campaign_id,
}
use flo_mimi.Interactions.Normal.{
  IsNormal, Keeps, normalize-IsNormal, normalize-normalize, normalize-Keeps,
}
use flo_mimi.Interactions.Campaign.{derive-not_placeholder}
use flo_mimi.Interactions.Recording.{
  record-refused, record-store_failed, record-ok, Reports, record-IsComplete, IsComplete,
}

-- The commands that the two stubs have received.
pub record Seen : Type 0 where
  pub stored : List Command
  pub sent : List Command

abbrev nothing : Seen
nothing = record { stored = []; sent = [] }

abbrev stub_sink : EventSink Seen
stub_sink = record {
  publish_interaction = λ ctx c w. (
    ok (record { published = codes "analytics" ∷ codes "email" ∷ [] }),
    record w { sent = c ∷ w.sent },
  );
}

abbrev stub_store : MutationStore Seen
stub_store = record { apply = λ ctx c w. (ok true, record w { stored = c ∷ w.stored }) }

abbrev broken_store : MutationStore Seen
broken_store = record { apply = λ ctx c w. (err (message (codes "store is down")), w) }

abbrev april : Time
april = record { year = 2026; month = 4; day = 9; hour = 10; minute = 11; second = 12 }

abbrev ambient : Ambient
ambient = record {
  session_entropy = bytes (1 ∷ 35 ∷ 69 ∷ 103 ∷ 137 ∷ 171 ∷ []);
  derived_at = april;
  trace_entropy = failed 1700;
  occurred_at = april;
}

abbrev later : Ambient
later = record ambient { derived_at = record april { hour = 11 } }

abbrev background : Context
background = record { correlation_id = [] }

abbrev blank_command : Command
blank_command = record {
  session_id = [];
  user_id = [];
  route = [];
  surface = [];
  action = [];
  subject_type = [];
  subject_id = [];
  campaign_id = [];
  recipient_id = [];
  event_kind = [];
  metadata = none;
}

abbrev create_brief : Command
create_brief = record blank_command {
  surface = codes "campaigns-header";
  action = codes "create-brief";
  subject_type = codes "campaign";
  subject_id = codes "new-brief";
}

abbrev test_send : Command
test_send = record blank_command {
  surface = codes "campaign-row";
  action = codes "launch-test-send";
  subject_type = codes "campaign";
  subject_id = codes "product-unveiling-zenith";
}

completed : Command → Command
unfolding normalize with_defaults with_campaign_id with_subject requires_campaign_identity
    is_campaign_placeholder derive_campaign_id trim_space slugify compact new_id Text-discrete
completed c = normalize ambient c

new_campaign : (completed create_brief).campaign_id ≡ codes "create-brief-20260409101112"
unfolding completed
new_campaign = refl

new_subject : (completed create_brief).subject_id ≡ codes "create-brief-20260409101112"
unfolding completed
new_subject = refl

subject_as_campaign : (completed test_send).campaign_id ≡ codes "product-unveiling-zenith"
unfolding completed
subject_as_campaign = refl

new_session : (completed test_send).session_id ≡ codes "session-0123456789ab"
unfolding completed
new_session = refl

recorded : Option (MutationStore Seen) → Command → Result Response × Seen
unfolding record_interaction respond first_non_empty completed decimal rfc3339
recorded store c = record_interaction store stub_sink ambient background c nothing

abbrev response : Response
response = record {
  accepted = true;
  stored = true;
  session_id = codes "session-0123456789ab";
  correlation_id = codes "trace-1700";
  campaign_id = codes "create-brief-20260409101112";
  published = codes "analytics" ∷ codes "email" ∷ [];
  occurred_at = codes "2026-04-09T10:11:12Z";
}

recorded_brief : (recorded (some stub_store) create_brief).0 ≡ ok response
unfolding recorded
recorded_brief = refl

normalize-IsNormal_example : IsNormal (normalize ambient create_brief)
normalize-IsNormal_example = normalize-IsNormal ambient create_brief

normalize-normalize_test :
    normalize later (normalize ambient create_brief) ≡ normalize ambient create_brief
normalize-normalize_test = normalize-normalize ambient later create_brief

normalize-Keeps_test : Keeps test_send (normalize ambient test_send)
normalize-Keeps_test = normalize-Keeps ambient test_send

derive-not_placeholder_example :
    (trim_space (derive_campaign_id create_brief april) ≢ [])
    × (trim_space (derive_campaign_id create_brief april) ≢ codes "new-brief")
    × (trim_space (derive_campaign_id create_brief april) ≢ codes "new-campaign")
unfolding trim_space
derive-not_placeholder_example = derive-not_placeholder create_brief april refl

record-refused_test :
    (e : Error) × (record_interaction
        (some stub_store)
        stub_sink
        ambient
        background
        blank_command
        nothing
      ≡ (err e, nothing))
unfolding trim_space
record-refused_test =
    record-refused (some stub_store) stub_sink ambient background blank_command nothing refl

record-store_failed_test :
    record_interaction (some broken_store) stub_sink ambient background create_brief nothing
    ≡ (err (message (codes "store is down")), nothing)
unfolding trim_space
record-store_failed_test =
    record-store_failed (some broken_store) stub_sink ambient background create_brief nothing refl
      refl

record-ok_example :
    (stored : Bool) × (w' : Seen) × (result : PublishResult) × (apply_store
        (some stub_store)
        background
        (normalize ambient create_brief)
        nothing
      ≡ (ok stored, w'))
    × (stub_sink.publish_interaction background (normalize ambient create_brief) w'
        ≡ (ok result, (recorded (some stub_store) create_brief).1))
    × Reports ambient background create_brief stored result response
unfolding recorded
record-ok_example =
    record-ok (some stub_store) stub_sink ambient background create_brief nothing {r = response}
      {w'' = (recorded (some stub_store) create_brief).1} refl

record-IsComplete_test : IsComplete (normalize ambient create_brief) response
unfolding recorded
record-IsComplete_test =
    record-IsComplete (some stub_store) stub_sink ambient background create_brief nothing
      {r = response} {w'' = (recorded (some stub_store) create_brief).1} refl
