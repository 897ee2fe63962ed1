-- ===== src/Platform/Runs.antt =====
-- Requests one after the other.
use flo_mimi.Prelude.{
  ◌⊎◌, none, true, false, [], ◌∷◌, List, ◌≡◌, inl, inr, refl, sym, ◌∙◌, Text, codes, same, All,
}
use mathlib.Core.Path.{subst}
use flo_mimi.Content.Invariant.{IsConsistent}
use flo_mimi.Content.Invariant.Commands.{apply-IsConsistent}
use flo_mimi.Content.Schema.{Tables}
use flo_mimi.Interactions.{normalize}
use flo_mimi.Server.{Request}
use flo_mimi.Platform.{Environment, World, Outside, environment_of, serve_root}
use flo_mimi.Platform.Effects.{IsPosted, IsApplied, serve_root-Outcome}

module _ {N : Type 0} (getenv : Environment) (out : Outside N getenv) where
  -- The world after requests, each with its correlation header.
  unfoldable pub run : List (Text × Request) → World N → World N
  run [] w = w
  run ((header, request) ∷ requests) w = run requests (serve_root getenv out header request w).1

  -- What a request leaves, as far as a run goes.
  abbrev Outcome : Request → World N → Tables → Type 0
  Outcome request w t' =
      ((out.redirect request ≡ none → ¬ IsPosted getenv out request) × (t' ≡ w.db.tables))
      ⊎ IsApplied getenv out request w t'

  Outcome-IsConsistent :
      (request : Request) (w : World N) (t' : Tables)
      → Outcome request w t'
      → IsConsistent w.db.tables
      → IsConsistent t'
  Outcome-IsConsistent request w t' (inl (_, same_tables)) k =
      subst IsConsistent (sym same_tables) k
  Outcome-IsConsistent request w t' (inr a) k = subst IsConsistent (sym a.applied) (
      apply-IsConsistent out.driver (environment_of getenv) (out.clock w.net) a.context
        (normalize (out.ambient w.net) a.command) w.db k)

  -- Whatever is requested one after the other, and whatever fails, the tables stay consistent:
  -- the keys and the display orders of campaigns, subscribers and filters stay unique within each
  -- environment, and audiences in the range of their column.
  pub run-IsConsistent :
      (requests : List (Text × Request)) (w : World N)
      → IsConsistent w.db.tables
      → IsConsistent (run requests w).db.tables
  unfolding run
  run-IsConsistent [] w k = k
  run-IsConsistent ((header, request) ∷ requests) w k =
      run-IsConsistent requests (serve_root getenv out header request w).1
        (Outcome-IsConsistent request w _ (serve_root-Outcome getenv out header request w) k)

  -- A request that cannot post a command.
  abbrev pub IsReading : Text × Request → Type 0
  IsReading r =
      (same r.1.method (codes "POST") ≡ true → same r.1.matched (codes "/api/interactions") ≡ false)

  Outcome-reading :
      (header : Text) (request : Request) (w : World N) (t' : Tables)
      → IsReading (header, request)
      → Outcome request w t'
      → t' ≡ w.db.tables
  Outcome-reading header request w t' reading (inl (_, same_tables)) = same_tables
  Outcome-reading header request w t' reading (inr a) = cc (a.routed, reading a.posted)

  -- Requests other than posts of a command leave the tables as they were.
  pub run-reading :
      (requests : List (Text × Request)) (w : World N)
      → All IsReading requests
      → (run requests w).db.tables ≡ w.db.tables
  unfolding run
  run-reading [] w h = refl
  run-reading ((header, request) ∷ requests) w (h, hs) =
      run-reading requests (serve_root getenv out header request w).1 hs
      ∙ Outcome-reading header request w _ h (serve_root-Outcome getenv out header request w)
