-- ===== src/Server.antt =====
-- platform/internal/http/server.go: the requests of the browser, and their answers.
pub mod Answers
pub mod Assets
mod Tests
use flo_mimi.Prelude.{
  ℕ, zero, suc, Bool, true, false, ◌&&◌, not, [], ◌∷◌, List, Option, none, some, Text, codes, same,
  Error, Result, ok, err, message, Action, if◌then◌else◌,
}
use flo_mimi.Text.{has_prefix}
use flo_mimi.Path.{clean, trim_slash}
use flo_mimi.Command.{Command, Response, Context, EventSink, MutationStore}
use flo_mimi.Interactions.{Ambient, record_interaction}
use flo_mimi.Bootstrap.{AppBootstrap, Analytics}
use flo_mimi.Bootstrap.Service.{Service, load_view, load_analytics_view}

-- `path` is request.URL.Path. `matched` is the path as http.ServeMux reads it: unescaped element by
-- element, so that an escaped slash stays one character of its element.
pub record Request : Type 0 where
  pub method : Text
  pub path : Text
  pub matched : Text
  pub context : Context
  pub body : List ℕ

-- What is written as a body. An error stands for its text.
pub data Body : Type 0 where
  error : Error → Body
  healthy : Body
  view : AppBootstrap → Body
  analytics : Analytics → Body
  recorded : Response → Body
  page : List ℕ → Body
  nothing : Body

pub record Answer : Type 0 where
  pub status : ℕ
  pub content_type : Text
  pub body : Body

-- The bytes that http.MaxBytesReader lets through, and whether it cut the body off.
pub record Limited : Type 0 where
  pub bytes : List ℕ
  pub is_cut : Bool

unfoldable pub limit : ℕ → List ℕ → Limited
limit zero [] = record { bytes = []; is_cut = false }
limit zero (b ∷ bs) = record { bytes = []; is_cut = true }
limit (suc n) [] = record { bytes = []; is_cut = false }
limit (suc n) (b ∷ bs) =
    let rest = limit n bs in record { bytes = b ∷ rest.bytes; is_cut = rest.is_cut }

-- 1 << 20
unfoldable pub body_limit : ℕ
body_limit = 1048576

-- What the handler is made of, with what it calls of the standard library: encoding/json on a command
-- without unknown fields, fs.Stat on the assets, and their http.FileServer. `ambient` is
-- what a request reads of the clock and of the random source.
pub record Handler (W : Type 0) : Type 0 where
  pub bootstrap_service : Service W
  pub store : Option (MutationStore W)
  pub sink : EventSink W
  pub index : List ℕ
  pub decode_command : Limited → Option Command
  pub is_asset : Text → Bool
  pub file_server : Request → W → Answer × W
  pub ambient : W → Ambient

abbrev pub write_json : ℕ → Body → Answer
write_json status body = record {
  status = status;
  content_type = codes "application/json";
  body = body;
}

abbrev pub method_not_allowed : Answer
method_not_allowed = write_json 405 (error (message (codes "method not allowed")))

abbrev pub index_if_empty : Text → Text
index_if_empty path = if same path [] then codes "index.html" else path

-- `cleanPath`
unfoldable pub asset_path : Text → Text
unfolding trim_slash clean
asset_path path = index_if_empty (trim_slash (clean path))

module _ {W : Type 0} where
  -- `if err != nil { writeJSON(…, failed, err) }`, and the answer to a success otherwise.
  abbrev pub answer : {A : Type 0} → ℕ → ℕ → (A → Body) → Result A × W → Answer × W
  answer success failed body (ok a, w) = (write_json success (body a), w)
  answer success failed body (err e, w) = (write_json failed (error e), w)

  unfoldable pub handle_health : Request → W → Answer × W
  handle_health request w =
      if same request.method (codes "GET")
      then (write_json 200 healthy, w)
      else (method_not_allowed, w)

module _ {W : Type 0} (h : Handler W) where
  unfoldable pub handle_bootstrap : Request → W → Answer × W
  unfolding load_view
  handle_bootstrap request w =
      if same request.method (codes "GET")
      then answer 200 500 view (load_view h.bootstrap_service w)
      else (method_not_allowed, w)

  unfoldable pub handle_analytics : Request → W → Answer × W
  unfolding load_analytics_view
  handle_analytics request w =
      if same request.method (codes "GET")
      then answer 200 500 analytics (load_analytics_view h.bootstrap_service w)
      else (method_not_allowed, w)

  abbrev pub record_decoded : Context → Option Command → W → Answer × W
  record_decoded ctx none w = (write_json 400 (error (message (codes "invalid request body"))), w)
  record_decoded ctx (some command) w =
      answer 202 502 recorded (record_interaction h.store h.sink (h.ambient w) ctx command w)

  unfoldable pub handle_interactions : Request → W → Answer × W
  handle_interactions request w =
      if same request.method (codes "POST")
      then record_decoded request.context (h.decode_command (limit body_limit request.body)) w
      else (method_not_allowed, w)

  unfoldable pub handle_spa : Request → W → Answer × W
  unfolding asset_path
  handle_spa request w =
      if not (same request.method (codes "GET")) && not (same request.method (codes "HEAD"))
      then (method_not_allowed, w)
      else if h.is_asset (asset_path request.path)
      then h.file_server request w
      else (
        record {
          status = 200;
          content_type = codes "text/html; charset=utf-8";
          body = if same request.method (codes "HEAD") then nothing else page h.index;
        },
        w,
      )

  -- The routes of NewHandler, as http.ServeMux matches them on a path that path.Clean leaves alone.
  unfoldable pub serve : Request → W → Answer × W
  unfolding handle_health handle_bootstrap handle_analytics handle_interactions handle_spa
  serve request w =
      if same request.matched (codes "/health")
      then handle_health request w
      else if same request.matched (codes "/api/bootstrap")
      then handle_bootstrap request w
      else if same request.matched (codes "/api/analytics")
      then handle_analytics request w
      else if same request.matched (codes "/api/interactions")
      then handle_interactions request w
      else handle_spa request w
