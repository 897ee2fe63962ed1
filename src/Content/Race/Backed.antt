-- ===== src/Content/Race/Backed.antt =====
-- What a command that has ended well can rely on, whatever the others do: its campaign is there.
use flo_mimi.Prelude.{
  ℕ, [], ◌∷◌, ◌++◌, List, Option, none, some, ◌≡◌, ◌≢◌, refl, sym, ◌∙◌, inl, inr, arith, Text, ◌==◌,
  if◌then◌else◌, Error, Result, ok, err, wrapped, All, All-mono, Bool-cases,
}
use mathlib.Core.Path.{subst}
use flo_mimi.Command.{Command}
use flo_mimi.Content.Table.{count_where}
use flo_mimi.Content.Table.Keys.{count_where-find}
use flo_mimi.Content.Schema
use flo_mimi.Content.Schema.{Tables, Campaign, Statement, is_campaign}
use flo_mimi.Content.Campaigns.{campaign_id_of, campaign_row, order_or_zero}
use flo_mimi.Content.Campaigns.Stored.{seed-ok}
use flo_mimi.Content.Invariant.{with_campaign, upsert_campaign-ok, schedule-ok}
use flo_mimi.Content.Race.{
  Stage, looking, choosing, writing, seeding, scheduling, stored, failed, settled, call, go_on,
  advance, Task, System, Step, moves, Steps, here, next,
}
use flo_mimi.Content.Race.Present.{
  IsPresent, update_where-present, with_campaign-present, advance-IsPresent,
}

-- A call leads to its result, or to its error, in the tables that it leaves.
module _ {A : Type 0} (Q : Tables → Stage → Type 0)
    (fails : (t : Tables) (e : Error) → Q t (failed e)) (f : A → Stage) (what : Text) where
  settled-leads :
      (r : Result (A × Tables)) (t : Tables)
      → ((a : A) (t' : Tables) → r ≡ ok (a, t') → Q t' (f a))
      → Q (go_on f (wrapped what (settled r t))).1 (go_on f (wrapped what (settled r t))).0
  settled-leads (ok (a, t')) t h = h a t' refl
  settled-leads (err e) t h = fails t _

  call-leads :
      (fault : Option Error) (now : ℕ) (statement : ℕ → Statement A) (t : Tables)
      → ((a : A) (t' : Tables) → statement now t ≡ ok (a, t') → Q t' (f a))
      → Q
          (go_on f (wrapped what (call fault now statement t))).1
          (go_on f (wrapped what (call fault now statement t))).0
  call-leads none now statement t h = settled-leads (statement now t) t h
  call-leads (some e) now statement t h = fails t _

module _ (env : Text) where
  -- A command that has written its campaign, or has ended well, finds it.
  abbrev pub IsBacked : Tables → Command → Stage → Type 0
  IsBacked t c seeding = IsPresent env c t
  IsBacked t c stored = IsPresent env c t
  IsBacked t c _ = Unit

  module _ (c : Command) where
    found_leads : (n : ℕ) (t : Tables) → IsBacked t c (if n == 0 then choosing else writing n)
    found_leads n t = elim (Bool-cases (n == 0)) [ inl z ↦ rw z tt | inr z ↦ rw z tt ]

    written-IsPresent :
        (n : ℕ) (t : Tables) → IsPresent env c (with_campaign (campaign_row env c n) t)
    unfolding campaign_row
    written-IsPresent n t = with_campaign-present (campaign_row env c n) t

    schedule_rows :
        (t : Tables) (rows : ℕ) (t' : Tables)
        → Schema.schedule_campaign_rows env (campaign_id_of c) t ≡ ok (rows, t')
        → rows ≡ count_where (is_campaign env (campaign_id_of c)) t.campaigns
    unfolding Schema.schedule_campaign_rows
    schedule_rows t rows t' e = ground arith

    scheduled-IsPresent :
        (t : Tables) (rows : ℕ) (t' : Tables)
        → Schema.schedule_campaign_rows env (campaign_id_of c) t ≡ ok (rows, t')
        → rows ≢ 0
        → IsPresent env c t'
    scheduled-IsPresent t rows t' e h =
        subst (IsPresent env c) (sym (schedule-ok env (campaign_id_of c) t rows t' e)) (
          update_where-present (is_campaign env (campaign_id_of c))
            (is_campaign env (campaign_id_of c)) Schema.scheduled (λ r. refl) t.campaigns
            (elim (count_where-find (is_campaign env (campaign_id_of c)) t.campaigns) [
              | inl absent ↦ absurd (h (schedule_rows t rows t' e ∙ absent.0))
              | inr there ↦ there.1
            ]))

    rows_lead :
        (t : Tables) (rows : ℕ) (t' : Tables) (why : Error)
        → Schema.schedule_campaign_rows env (campaign_id_of c) t ≡ ok (rows, t')
        → IsBacked t' c (if rows == 0 then failed why else stored)
    rows_lead t rows t' why e = elim (Bool-cases (rows == 0)) [
      | inl z ↦ rw z tt
      | inr z ↦ rw z (scheduled-IsPresent t rows t' e (ground arith))
    ]

    advance-IsBacked :
        (stage : Stage) (fault : Option Error) (now : ℕ) (t : Tables)
        → IsBacked t c stage
        → IsBacked (advance env c stage fault now t).1 c (advance env c stage fault now t).0
    unfolding advance
    advance-IsBacked looking fault now t h =
        call-leads (λ t' s. IsBacked t' c s) (λ _ _. tt) _ _ fault now _ t
          (λ found t' e. found_leads (order_or_zero found) t')
    advance-IsBacked choosing fault now t h =
        call-leads (λ t' s. IsBacked t' c s) (λ _ _. tt) writing _ fault now _ t (λ n t' e. tt)
    advance-IsBacked (writing n) fault now t h =
        call-leads (λ t' s. IsBacked t' c s) (λ _ _. tt) _ _ fault now _ t
          (λ a t' e.
            subst (IsPresent env c) (sym (upsert_campaign-ok (campaign_row env c n) t a t' e))
              (written-IsPresent n t))
    advance-IsBacked seeding fault now t h =
        call-leads (λ t' s. IsBacked t' c s) (λ _ _. tt) _ _ fault now _ t
          (λ a t' e. subst (IsPresent env c) (sym (seed-ok env c now t a t' e)) h)
    advance-IsBacked scheduling fault now t h =
        call-leads (λ t' s. IsBacked t' c s) (λ _ _. tt) _ _ fault now _ t
          (λ rows t' e. rows_lead t rows t' _ e)
    advance-IsBacked stored fault now t h = h
    advance-IsBacked (failed e) fault now t h = tt

  abbrev pub AllBacked : Tables → List Task → Type 0
  AllBacked t tasks = All (λ (task : Task). IsBacked t task.command task.stage) tasks

  others-IsBacked :
      (c : Command) (stage : Stage) (fault : Option Error) (now : ℕ) (t : Tables) (other : Task)
      → IsBacked t other.command other.stage
      → IsBacked (advance env c stage fault now t).1 other.command other.stage
  others-IsBacked c stage fault now t other h = by_stage other.stage h
    where
      by_stage :
          (s : Stage)
          → IsBacked t other.command s
          → IsBacked (advance env c stage fault now t).1 other.command s
      by_stage looking h = tt
      by_stage choosing h = tt
      by_stage (writing n) h = tt
      by_stage seeding h = advance-IsPresent env c other.command stage fault now t h
      by_stage scheduling h = tt
      by_stage stored h = advance-IsPresent env c other.command stage fault now t h
      by_stage (failed e) h = tt

  -- One task moves, and the tables with it.
  moved-AllBacked :
      (before : List Task) (task : Task) (after : List Task) (fault : Option Error) (now : ℕ)
      (t : Tables)
      → AllBacked t (before ++ (task ∷ after))
      → AllBacked (advance env task.command task.stage fault now t).1 (
          before
          ++ (record task { stage = (advance env task.command task.stage fault now t).0 } ∷ after))
  moved-AllBacked [] task after fault now t (h, hs) = (
    advance-IsBacked task.command task.stage fault now t h,
    All-mono (λ other. others-IsBacked task.command task.stage fault now t other) after hs,
  )
  moved-AllBacked (other ∷ before) task after fault now t (h, hs) = (
    others-IsBacked task.command task.stage fault now t other h,
    moved-AllBacked before task after fault now t hs,
  )

  Step-AllBacked :
      (s s' : System) → Step env s s' → AllBacked s.tables s.tasks → AllBacked s'.tables s'.tasks
  Step-AllBacked s s' (moves before task after fault now t b e u) h =
      subst (λ tables. AllBacked tables s'.tasks) (sym e)
        (subst (AllBacked (advance env task.command task.stage fault now s.tables).1) (sym u)
          (moved-AllBacked before task after fault now s.tables (subst (AllBacked s.tables) t h)))

-- However the calls interleave, and whatever fails, a command that has ended well, or has written its
-- row, has its campaign in the tables, if that was so for those that had ended before.
pub Steps-AllBacked :
    {env : Text} {n : ℕ} {s s' : System}
    → Steps env n s s'
    → AllBacked env s.tables s.tasks
    → AllBacked env s'.tables s'.tasks
Steps-AllBacked here h = h
Steps-AllBacked {env} (next {s = s} {s' = s'} step steps) h =
    Steps-AllBacked steps (Step-AllBacked env s s' step h)
