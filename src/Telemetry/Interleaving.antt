-- ===== src/Telemetry/Interleaving.antt =====
-- Requests that overlap, as steps of the monitor: each starts and finishes on its own.
use flo_mimi.Prelude.{
  is_utf8, ◌≤◌, ◌⊎◌, ◌≢◌, ℕ, suc, true, [], ◌∷◌, List, Option, none, some, ◌≡◌, refl, arith, Text,
  same, leb, if◌then◌else◌,
}
use flo_mimi.Telemetry.{Monitor, enter, leave, normalize_route, observe_outbound_http}

abbrev pub idle : Monitor
idle = record { inflight = 0; requests = []; outbound = []; last_status = []; log = [] }

-- `Reaches n history m`: `n` requests are open, and `history` has the route and the status of those
-- that have finished, the latest first.
pub data Reaches : ℕ → List (Text × ℕ) → Monitor → Type 0 where
  initially : Reaches 0 [] idle
  starts :
      {n : ℕ} {history : List (Text × ℕ)} {m : Monitor}
      → Reaches n history m
      → Reaches (suc n) history (enter m)
  finishes :
      {n : ℕ} {history : List (Text × ℕ)} {m : Monitor} (method path correlation_id : Text)
      (status : ℕ)
      → is_utf8 (normalize_route path) ≡ true
      → Reaches (suc n) history m
      → Reaches n
          ((normalize_route path, status) ∷ history)
          (leave method path correlation_id status m)
  observes :
      {n : ℕ} {history : List (Text × ℕ)} {m : Monitor} (service target method route status : Text)
      → Reaches n history m
      → Reaches n history (observe_outbound_http service target method route status m)

-- The latest status below 500 that a route had.
unfoldable pub latest : Text → List (Text × ℕ) → Option ℕ
latest route [] = none
latest route ((r, status) ∷ history) =
    let rest = latest route history in
    if same r route then (if leb 500 status then rest else some status) else rest

-- The gauge counts the requests that are open.
pub inflight-Reaches :
    {n : ℕ} {history : List (Text × ℕ)} {m : Monitor} → Reaches n history m → m.inflight ≡ n
unfolding enter leave observe_outbound_http
inflight-Reaches initially = refl
inflight-Reaches (starts r) = omega (arith, inflight-Reaches r)
inflight-Reaches (finishes method path correlation_id status valid r) =
    rw valid (omega (arith, inflight-Reaches r))
inflight-Reaches (observes service target method route status r) = inflight-Reaches r

-- A request is to be logged: its status is a server error, or its route had a status below 500 before,
-- and the latest such one was another.
abbrev pub IsDue : Text → ℕ → List (Text × ℕ) → Type 0
IsDue route status history =
    (500 ≤ status) ⊎ ((previous : ℕ) × (latest route history ≡ some previous) × (previous ≢ status))
