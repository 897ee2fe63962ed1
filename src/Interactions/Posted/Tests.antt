-- ===== src/Interactions/Posted/Tests.antt =====
-- A new brief is sent on both channels; one without a surface is not sent.
use flo_mimi.Prelude.{◌+◌, ◌*◌, true, ℕ, [], ◌∷◌, refl, some, codes, ok, map, ◌==◌}
use flo_mimi.Text.{trim_right}
use flo_mimi.Value.{done}
use flo_mimi.Clock.{Time, bytes}
use flo_mimi.Command.{Command, Context, MutationStore}
use flo_mimi.Gateway.{Client, answered, new_http_event_gateway}
use flo_mimi.Gateway.Channels.{channels}
use flo_mimi.Gateway.Requests.{Logs, logged, request_of}
use flo_mimi.Interactions.{Ambient, normalize, record_interaction}
use flo_mimi.Interactions.Posted.{beside, record-Logs}

-- A gateway that counts the posts and refuses all but the first one.
abbrev once : Client ℕ
once = record {
  build = λ url. ok tt;
  send = λ request n. (answered (202 + n * 300) (codes "status") [], n + 1);
  observe = λ route status n. n;
}

abbrev storing : MutationStore ℕ
storing = record { apply = λ ctx c n. (ok true, n) }

abbrev ambient : Ambient
ambient =
    let noon : Time = record {
      year = 2026;
      month = 4;
      day = 9;
      hour = 12;
      minute = 0;
      second = 0;
    } in
    record {
      session_entropy = bytes (1 ∷ []);
      derived_at = noon;
      trace_entropy = bytes (2 ∷ []);
      occurred_at = noon;
    }

abbrev brief : Command
brief = record {
  session_id = [];
  user_id = [];
  route = [];
  surface = codes "header";
  action = codes "create-brief";
  subject_type = codes "campaign";
  subject_id = codes "spring";
  campaign_id = codes "spring";
  recipient_id = [];
  event_kind = [];
  metadata = some done;
}

abbrev context : Context
context = record { correlation_id = codes "corr-9" }

record-Logs_example :
    Logs []
      (map
        (request_of
          (trim_right (λ c. c == b'/') (codes "http://gw/"))
          (codes "corr-9")
          (normalize ambient brief))
        (channels (normalize ambient brief)))
      (record_interaction
        (some (beside storing))
        (new_http_event_gateway (logged once) (codes "http://gw/"))
        ambient
        context
        brief
        (0, []))
record-Logs_example = record-Logs storing once (codes "http://gw/") ambient context brief refl [] 0
