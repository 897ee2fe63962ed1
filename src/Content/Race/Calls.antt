-- ===== src/Content/Race/Calls.antt =====
-- What each call of a command on a new campaign does, and what it leaves under the keys.
use flo_mimi.Prelude.{
  ℕ, true, false, [], ◌∷◌, ◌++◌, List, none, some, ◌≡◌, ◌≢◌, refl, sym, ap, ◌∙◌, arith, Text, ok,
}
use flo_mimi.Prelude.Int.{fits_int32}
use flo_mimi.Command.{Command}
use flo_mimi.Content.Table.{find, upsert}
use flo_mimi.Content.Table.Keys.{merged, find-upsert, find-upsert_other}
use flo_mimi.Content.Schema
use flo_mimi.Content.Schema.{Tables, Campaign, contains, is_campaign, is_analytics, merge_campaign}
use flo_mimi.Content.Campaigns.{audience_of, campaign_id_of, campaign_row}
use flo_mimi.Content.Invariant.{with_campaign, next_campaign_order, next_campaign_order-reads}
use flo_mimi.Content.Race.{
  Stage, looking, choosing, writing, seeding, stored, creates, advance, is_finished, Task, Step,
  moves,
}

-- What an upsert of a new campaign leaves under its key, and under any other.
module _ (r : Campaign) (u : Tables) where
  added_by_key :
      find (is_campaign r.environment r.campaign_id) u.campaigns ≡ none
      → find (is_campaign r.environment r.campaign_id) (with_campaign r u).campaigns ≡ some r
  added_by_key h =
      find-upsert (is_campaign r.environment r.campaign_id) (merge_campaign r) (λ q. refl) r
        u.campaigns (ground arith)
      ∙ ap (λ q. some (merged (merge_campaign r) r q)) h

  others_stay_by_key :
      (id : Text)
      → r.campaign_id ≢ id
      → find (is_campaign r.environment id) (with_campaign r u).campaigns
        ≡ find (is_campaign r.environment id) u.campaigns
  others_stay_by_key id h =
      find-upsert_other (is_campaign r.environment r.campaign_id) (is_campaign r.environment id)
        (merge_campaign r) (λ q k. (ground (arith, h, k), ground (arith, h, k))) r u.campaigns
        (ground arith)

  pub added :
      (env id : Text)
      → r.environment ≡ env
      → r.campaign_id ≡ id
      → find (is_campaign env id) u.campaigns ≡ none
      → find (is_campaign env id) (with_campaign r u).campaigns ≡ some r
  added env id e f h = rw (sym e, sym f) (added_by_key (rw (e, f) h))

  pub others_stay :
      (env id other : Text)
      → r.environment ≡ env
      → r.campaign_id ≡ id
      → id ≢ other
      → find (is_campaign env other) (with_campaign r u).campaigns
        ≡ find (is_campaign env other) u.campaigns
  others_stay env id other e f h = rw (sym e) (others_stay_by_key other (λ q. h (sym f ∙ q)))

module _ (env : Text) where
  -- The tables with the statistics of a campaign.
  unfoldable pub with_statistics : ℕ → Command → Tables → Tables
  with_statistics now c t = record t {
    analytics =
        upsert (is_analytics env (campaign_id_of c)) (λ r. r)
          (Schema.unsent now env (campaign_id_of c)) t.analytics;
  }

  module _ (c : Command) where
    pub creates-looking : campaign_id_of c ≢ [] → creates env c ≡ looking
    unfolding creates
    creates-looking h = ground arith

    -- A campaign that is not there has no order yet.
    pub advance-looking :
        (t : Tables)
        → find (is_campaign env (campaign_id_of c)) t.campaigns ≡ none
        → advance env c looking none 0 t ≡ (choosing, t)
    unfolding advance Schema.select_campaign_order
    advance-looking t h = rw h refl

    pub advance-choosing :
        (t : Tables) → advance env c choosing none 0 t ≡ (writing (next_campaign_order env t), t)
    unfolding advance
    advance-choosing t = rw (next_campaign_order-reads env t) refl

    row-audience : (n : ℕ) → (campaign_row env c n).audience_count ≡ audience_of c
    unfolding campaign_row
    row-audience n = refl

    row-environment : (n : ℕ) → (campaign_row env c n).environment ≡ env
    unfolding campaign_row
    row-environment n = refl

    upsert-known :
        (n : ℕ) (t : Tables)
        → contains env t.environments ≡ true
        → fits_int32 (audience_of c) ≡ true
        → Schema.upsert_campaign (campaign_row env c n) t
          ≡ ok (tt, with_campaign (campaign_row env c n) t)
    unfolding Schema.upsert_campaign
    upsert-known n t h fits =
        rw (Schema.upsert_campaign, ap fits_int32 (row-audience n), fits, row-environment n, h) refl

    pub advance-writing :
        (n : ℕ) (t : Tables)
        → contains env t.environments ≡ true
        → fits_int32 (audience_of c) ≡ true
        → advance env c (writing n) none 0 t ≡ (seeding, with_campaign (campaign_row env c n) t)
    unfolding advance
    advance-writing n t h fits = rw (upsert-known n t h fits) refl

    seed-known :
        (now : ℕ) (t : Tables) {r : Campaign}
        → contains env t.environments ≡ true
        → find (is_campaign env (campaign_id_of c)) t.campaigns ≡ some r
        → Schema.seed_campaign_analytics now env (campaign_id_of c) t
          ≡ ok (tt, with_statistics now c t)
    unfolding Schema.seed_campaign_analytics with_statistics
    seed-known now t h k = rw (Schema.seed_campaign_analytics, k, h) refl

    pub advance-seeding :
        (t : Tables) {r : Campaign}
        → contains env t.environments ≡ true
        → find (is_campaign env (campaign_id_of c)) t.campaigns ≡ some r
        → advance env c seeding none 0 t ≡ (stored, with_statistics 0 c t)
    unfolding advance
    advance-seeding t h k = rw (seed-known 0 t h k) refl

  pub tasks-Step :
      (before : List Task) (task : Task) (after : List Task) (t : Tables) {stage : Stage}
      {t' : Tables}
      → is_finished task.stage ≡ false
      → advance env task.command task.stage none 0 t ≡ (stage, t')
      → Step env
          (record { tables = t; tasks = before ++ (task ∷ after) })
          (record { tables = t'; tasks = before ++ (record task { stage = stage } ∷ after) })
  tasks-Step before task after t b e =
      moves before task after none 0 refl b (sym (ap (λ r. r.1) e))
        (ap (λ q. before ++ (record task { stage = q } ∷ after)) (sym (ap (λ r. r.0) e)))
