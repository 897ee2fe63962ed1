-- ===== src/Content/Race/Present.antt =====
-- No interleaving takes a campaign away.
use flo_mimi.Prelude.{
  ℕ, Bool, true, [], ◌∷◌, List, Option, none, ◌≡◌, ◌≢◌, refl, sym, inl, inr, arith, Text, Error,
  Bool-cases,
}
use mathlib.Core.Path.{subst}
use flo_mimi.Command.{Command}
use flo_mimi.Content.Table.{find, upsert, update_where}
use flo_mimi.Content.Schema
use flo_mimi.Content.Schema.{Tables, Campaign, Statement, is_campaign}
use flo_mimi.Content.Campaigns.{campaign_id_of, campaign_row}
use flo_mimi.Content.Campaigns.Stored.{seed-ok}
use flo_mimi.Content.Invariant.{with_campaign, upsert_campaign-ok, schedule-ok}
use flo_mimi.Content.Race.{
  Stage, looking, choosing, writing, seeding, scheduling, stored, failed, advance,
}
use flo_mimi.Content.Race.Keys.{call-keeps, go_on-keeps, unchanged}

module _ {R : Type 0} (is_key other : R → Bool) (merge : R → R)
    (keeps : (r : R) → other (merge r) ≡ other r) where
  upsert-present :
      (row : R) (rows : List R)
      → find other rows ≢ none
      → find other (upsert is_key merge row rows) ≢ none
  unfolding find upsert
  upsert-present row [] h = absurd (h refl)
  upsert-present row (r ∷ rows) h = elim (Bool-cases (other r)) [
    | inl e ↦ elim (Bool-cases (is_key r)) [
      | inl k ↦ rw (k, keeps r, e) (λ q. cc)
      | inr k ↦ rw (k, e) (λ q. cc)
    ]
    | inr e ↦ elim (Bool-cases (is_key r)) [
      | inl k ↦ rw (k, keeps r, e) (rw e at h)
      | inr k ↦ rw (k, e) (upsert-present row rows (rw e at h))
    ]
  ]

  pub update_where-present :
      (rows : List R) → find other rows ≢ none → find other (update_where is_key merge rows) ≢ none
  unfolding find update_where
  update_where-present [] h = absurd (h refl)
  update_where-present (r ∷ rows) h = elim (Bool-cases (other r)) [
    | inl e ↦ elim (Bool-cases (is_key r)) [
      | inl k ↦ rw (k, keeps r, e) (λ q. cc)
      | inr k ↦ rw (k, e) (λ q. cc)
    ]
    | inr e ↦ elim (Bool-cases (is_key r)) [
      | inl k ↦ rw (k, keeps r, e) (update_where-present rows (rw e at h))
      | inr k ↦ rw (k, e) (update_where-present rows (rw e at h))
    ]
  ]

module _ {R : Type 0} (is_key : R → Bool) (merge : R → R) where
  upsert_row-present :
      (row : R) (rows : List R)
      → is_key row ≡ true
      → ((r : R) → is_key (merge r) ≡ is_key r)
      → find is_key (upsert is_key merge row rows) ≢ none
  unfolding find upsert
  upsert_row-present row [] h keeps = rw h (λ q. cc)
  upsert_row-present row (r ∷ rows) h keeps = elim (Bool-cases (is_key r)) [
    | inl e ↦ rw (e, keeps r, e) (λ q. cc)
    | inr e ↦ rw (e, e) (upsert_row-present row rows h keeps)
  ]

pub with_campaign-present :
    (r : Campaign) (t : Tables)
    → find (is_campaign r.environment r.campaign_id) (with_campaign r t).campaigns ≢ none
with_campaign-present r t =
    upsert_row-present (is_campaign r.environment r.campaign_id) (Schema.merge_campaign r) r
      t.campaigns (ground arith) (λ q. refl)

module _ (env : Text) where
  -- The campaign of a command is in the tables.
  abbrev pub IsPresent : Command → Tables → Type 0
  IsPresent c t = find (is_campaign env (campaign_id_of c)) t.campaigns ≢ none

  -- No call of a command takes a campaign away.
  module _ (c d : Command) where
    pub advance-IsPresent :
        (stage : Stage) (fault : Option Error) (now : ℕ) (t : Tables)
        → IsPresent d t
        → IsPresent d (advance env c stage fault now t).1
    unfolding advance Schema.select_campaign_order Schema.select_next_campaign_order
    advance-IsPresent looking fault now t h =
        go_on-keeps (IsPresent d) _ _ _ (
          call-keeps (IsPresent d) fault now _ t h (λ a t' e. unchanged (IsPresent d) _ t a t' h e))
    advance-IsPresent choosing fault now t h =
        go_on-keeps (IsPresent d) _ _ _ (
          call-keeps (IsPresent d) fault now _ t h (λ a t' e. unchanged (IsPresent d) _ t a t' h e))
    advance-IsPresent (writing n) fault now t h = go_on-keeps (IsPresent d) _ _ _ (
        call-keeps (IsPresent d) fault now _ t h (λ a t' e.
          subst (IsPresent d) (sym (upsert_campaign-ok (campaign_row env c n) t a t' e)) (
            upsert-present _ (is_campaign env (campaign_id_of d))
              (Schema.merge_campaign (campaign_row env c n)) (λ r. refl) (campaign_row env c n)
              t.campaigns h)))
    advance-IsPresent seeding fault now t h = go_on-keeps (IsPresent d) _ _ _ (
        call-keeps (IsPresent d) fault now _ t h
          (λ a t' e. subst (IsPresent d) (sym (seed-ok env c now t a t' e)) h))
    advance-IsPresent scheduling fault now t h = go_on-keeps (IsPresent d) _ _ _ (
        call-keeps (IsPresent d) fault now _ t h (λ a t' e.
          subst (IsPresent d) (sym (schedule-ok env (campaign_id_of c) t a t' e)) (
            update_where-present _ (is_campaign env (campaign_id_of d)) Schema.scheduled (λ r. refl)
              t.campaigns h)))
    advance-IsPresent stored fault now t h = h
    advance-IsPresent (failed e) fault now t h = h
