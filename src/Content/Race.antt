-- ===== src/Content/Race.antt =====
-- Commands on campaigns that are handled at once. `createCampaign` makes its calls one by one, outside
-- a transaction, so the calls of several commands interleave: a machine that makes one call at a time.
pub mod Solo
pub mod Keys
pub mod Present
pub mod Backed
pub mod Calls
pub mod Clash
mod Tests
use flo_mimi.Prelude.{
  ℕ, zero, suc, ◌+◌, Bool, true, false, [], ◌∷◌, ◌++◌, List, Option, none, some, ◌≡◌, Text, codes,
  same, ◌==◌, if◌then◌else◌, Error, Result, ok, err, message, quoted, wrapped,
}
use flo_mimi.Command.{Command}
use flo_mimi.Content.Schema.{
  Tables, Statement, select_campaign_order, select_next_campaign_order, upsert_campaign,
  seed_campaign_analytics, schedule_campaign_rows,
}
use flo_mimi.Content.Campaigns.{campaign_id_of, campaign_row, order_or_zero}

-- The call that a command makes next, or its end.
pub data Stage : Type 0 where
  looking : Stage
  choosing : Stage
  writing : ℕ → Stage
  seeding : Stage
  scheduling : Stage
  stored : Stage
  failed : Error → Stage

-- One call on the tables, which an error leaves as they were.
abbrev pub settled : {A : Type 0} → Result (A × Tables) → Tables → Result A × Tables
settled (ok (a, t')) t = (ok a, t')
settled (err e) t = (err e, t)

abbrev pub call : {A : Type 0} → Option Error → ℕ → (ℕ → Statement A) → Tables → Result A × Tables
call none now statement t = settled (statement now t) t
call (some e) now statement t = (err e, t)

abbrev pub go_on : {A : Type 0} → (A → Stage) → Result A × Tables → Stage × Tables
go_on next (ok a, t) = (next a, t)
go_on next (err e, t) = (failed e, t)

module _ (env : Text) where
  -- The start of `createCampaign` and of `scheduleCampaign`.
  unfoldable pub creates : Command → Stage
  creates c =
      if same (campaign_id_of c) []
      then failed (message (codes "campaign ID is required"))
      else looking

  unfoldable pub schedules : Command → Stage
  schedules c =
      if same (campaign_id_of c) []
      then failed (message (codes "campaign ID is required"))
      else scheduling

  -- The next call of a command, which the server reports as failed, or answers at a time.
  unfoldable pub advance : Command → Stage → Option Error → ℕ → Tables → Stage × Tables
  advance c looking fault now t =
      go_on (λ found. if order_or_zero found == 0 then choosing else writing (order_or_zero found))
        (wrapped (codes "lookup display order")
          (call fault now (λ _. select_campaign_order env (campaign_id_of c)) t))
  advance c choosing fault now t = go_on writing (
      wrapped (codes "select next display order")
        (call fault now (λ _. select_next_campaign_order env) t))
  advance c (writing display_order) fault now t =
      go_on (λ _. seeding)
        (wrapped (codes "upsert campaign")
          (call fault now (λ _. upsert_campaign (campaign_row env c display_order)) t))
  advance c seeding fault now t =
      go_on (λ _. stored)
        (wrapped (codes "seed campaign analytics")
          (call fault now (λ n. seed_campaign_analytics n env (campaign_id_of c)) t))
  advance c scheduling fault now t =
      go_on
        (λ rows.
          if rows == 0
          then failed (quoted (codes "campaign ") (campaign_id_of c) (codes " was not found"))
          else stored)
        (wrapped (codes "update campaign")
          (call fault now (λ _. schedule_campaign_rows env (campaign_id_of c)) t))
  advance c stored fault now t = (stored, t)
  advance c (failed e) fault now t = (failed e, t)

abbrev pub is_finished : Stage → Bool
is_finished stored = true
is_finished (failed e) = true
is_finished _ = false

-- The tables, and the commands in flight.
pub record Task : Type 0 where
  pub command : Command
  pub stage : Stage

pub record System : Type 0 where
  pub tables : Tables
  pub tasks : List Task

-- One command makes its next call, while the others wait.
pub data Step (env : Text) (s s' : System) : Type 0 where
  moves :
      (before : List Task) (task : Task) (after : List Task) (fault : Option Error) (now : ℕ)
      → s.tasks ≡ before ++ (task ∷ after)
      → is_finished task.stage ≡ false
      → s'.tables ≡ (advance env task.command task.stage fault now s.tables).1
      → s'.tasks
        ≡ before
          ++ (record task { stage = (advance env task.command task.stage fault now s.tables).0 }
              ∷ after)
      → Step env s s'

-- A run of as many steps.
pub data Steps (env : Text) : ℕ → System → System → Type 0 where
  here : {s : System} → Steps env zero s s
  next : {n : ℕ} {s s' s'' : System} → Step env s s' → Steps env n s' s'' → Steps env (suc n) s s''
