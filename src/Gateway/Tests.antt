-- ===== src/Gateway/Tests.antt =====
-- Runs of the gateway over a client that remembers, and its theorems at them.
use flo_mimi.Prelude.{
  [], ◌∷◌, ◌++◌, List, some, ◌≡◌, ◌≢◌, refl, Text, codes, Error, Result, ok, err, message, wrap,
  Text-discrete, map, false,
}
use flo_mimi.Value.{Fields, done}
use flo_mimi.Text.{trim_space, has_prefix}
use flo_mimi.Clock.{decimal}
use flo_mimi.Gateway.{slugify, analytics_payload, email_payload}
use flo_mimi.Gateway.Requests.{Logs, logged, request_of, publish-Logs}
use flo_mimi.Gateway.Contract.{
  Tells, analytics_event, email_event, analytics_payload-event, email_payload-event,
}
use flo_mimi.Prelude.{is_blank}
use flo_mimi.Command.{Command, Context, PublishResult}
use flo_mimi.Gateway.{
  Client, answered, route_path, publish_interaction, publish_analytics, publish_email, post_json,
  should_publish_analytics, should_publish_email,
}
use flo_mimi.Gateway.Routes.{IsPagePath, route_path-IsPagePath, route_path-route_path}
use flo_mimi.Gateway.Channels.{
  channels, publish-channels, publish-analytics_failed, channels-ne-nil,
}

abbrev Sent : Type 0
Sent = List Text

-- A gateway that accepts every event, and one that refuses every event.
abbrev accepting : Client Sent
accepting = record {
  build = λ url. ok tt;
  send = λ request w. (answered 202 (codes "202 Accepted") [], w ++ (request.url ∷ []));
  observe = λ route status w. w;
}

abbrev refusing : Client Sent
refusing = record {
  build = λ url. ok tt;
  send = λ request w. (answered 503 (codes "503 Service Unavailable") (codes "busy "), w);
  observe = λ route status w. w;
}

abbrev opened : Command
opened = record {
  session_id = codes "s";
  user_id = codes "u";
  route = codes "campaigns";
  surface = codes "row";
  action = codes "open";
  subject_type = codes "campaign";
  subject_id = codes "c1";
  campaign_id = codes "c1";
  recipient_id = [];
  event_kind = codes "auto";
  metadata = some done;
}

abbrev base : Text
base = codes "http://gw"

abbrev context : Context
context = record { correlation_id = codes "corr-1" }

published : Client Sent → Result PublishResult × Sent
unfolding publish_interaction publish_analytics publish_email post_json should_publish_analytics
    should_publish_email Text-discrete decimal trim_space
published client = publish_interaction client base context opened []

both_channels : published accepting ≡ (
  ok (record { published = codes "analytics" ∷ codes "email" ∷ [] }),
  codes "http://gw/events/analytics" ∷ codes "http://gw/events/email" ∷ [],
)
unfolding published
both_channels = refl

abbrev busy : Error
busy = message (codes "unexpected status 503 Service Unavailable: busy")

refused : published refusing ≡ (err (wrap (codes "publish analytics event") busy), [])
unfolding published
refused = refl

page :
    map route_path (codes " audience" ∷ codes "/" ∷ codes "/a b " ∷ [])
    ≡ codes "/audience" ∷ codes "/dashboard" ∷ codes "/a b" ∷ []
unfolding route_path trim_space has_prefix Text-discrete
page = refl

route_path-IsPagePath_test : IsPagePath (route_path (codes " audience"))
route_path-IsPagePath_test = route_path-IsPagePath (codes " audience")

route_path-route_path_test :
    route_path (route_path (codes " audience")) ≡ route_path (codes " audience")
route_path-route_path_test = route_path-route_path (codes " audience")

publish-channels_example : codes "analytics" ∷ codes "email" ∷ [] ≡ channels opened
unfolding published
publish-channels_example =
    publish-channels accepting base context opened []
      {r = record { published = codes "analytics" ∷ codes "email" ∷ [] }}
      {w' = (published accepting).1} refl

channels-ne-nil_example : channels opened ≢ []
channels-ne-nil_example = channels-ne-nil opened

publish-analytics_failed_test :
    publish_interaction refusing base context opened []
    ≡ (err (wrap (codes "publish analytics event") busy), [])
unfolding published
publish-analytics_failed_test = publish-analytics_failed refusing base context opened [] refl refl

analytics_payload-event_test :
    (m : Fields) × (analytics_event (analytics_payload opened)
      ≡ some (record {
        session_id = some (codes "s");
        user_id = some (codes "u");
        event_name = slugify (codes "row") ++ (b'.' ∷ slugify (codes "open"));
        page_url = some (route_path (codes "campaigns"));
        payload = m;
      }))
    × Tells opened m
analytics_payload-event_test = analytics_payload-event opened

email_payload-event_example :
    (id : _) × (m : Fields) × (email_event (email_payload opened)
      ≡ some (record {
        campaign_id = id;
        recipient_id = some [];
        event_type = codes "ui_" ++ slugify (codes "open");
        payload = m;
      }))
    × (is_blank id ≡ false)
    × (is_blank (trim_space (codes "c1")) ≡ false → id ≡ codes "c1")
    × Tells opened m
email_payload-event_example = email_payload-event opened

publish-Logs_test :
    Logs []
      (map (request_of base (codes "corr-1") opened) (channels opened))
      (publish_interaction (logged refusing) base context opened ([], []))
publish-Logs_test = publish-Logs refusing base context opened refl [] []
