-- ===== src/Content/Campaigns/Scheduled.antt =====
-- What `scheduleCampaign` leaves in the tables.
use flo_mimi.Prelude.{
  codes, Option, some, ℕ, true, false, [], none, ◌≡◌, ◌≢◌, inl, inr, refl, sym, ap, ◌∙◌, arith,
  Text, same, ◌==◌, Error, ok, err,
}
use mathlib.Core.Path.{subst}
use mathlib.Core.Option
use flo_mimi.Command.{Command}
use flo_mimi.Content.Table.{find, update_where, count_where}
use flo_mimi.Content.Table.Keys.{
  find-update_where, find-update_where_other, count_where-find, update_where-absent,
}
use flo_mimi.Content.Schema
use flo_mimi.Content.Schema.{Tables, Campaign, is_campaign, scheduled}
use flo_mimi.Content.Driver.{Driver, Session, exec}
use flo_mimi.Content.Driver.Rules.{
  Meets, Post, Meets-bind, Meets-raise, Meets-pure, Meets-wrapped, Meets-if, Meets-exec,
}
use flo_mimi.Content.Campaigns.{campaign_id_of, schedule_campaign}

module _ (env id : Text) where
  abbrev pub with_scheduled : Tables → Tables
  with_scheduled t = record t {
    campaigns = update_where (is_campaign env id) scheduled t.campaigns;
  }

  -- The campaign was there, and it alone is scheduled.
  pub record CampaignScheduled (t t' : Tables) : Type 0 where
    pub found : find (is_campaign env id) t.campaigns ≢ none
    pub row :
        find (is_campaign env id) t'.campaigns
        ≡ Option.map scheduled (find (is_campaign env id) t.campaigns)
    pub marked :
        (old : Campaign) × (find (is_campaign env id) t.campaigns ≡ some old)
        × (find (is_campaign env id) t'.campaigns
            ≡ some (record old {
              status = codes "Scheduled";
              summary = codes "Test send queued just now";
              action_label = codes "Inspect performance";
              tone = codes "primary";
            }))
    pub other_rows :
        (e i : Text)
        → (env ≡ e → id ≢ i)
        → find (is_campaign e i) t'.campaigns ≡ find (is_campaign e i) t.campaigns
    pub other_tables : t' ≡ record t { campaigns = t'.campaigns }

  campaigns-apart :
      (e i : Text) (r : Campaign)
      → (env ≡ e → id ≢ i)
      → is_campaign env id r ≡ true
      → is_campaign e i r ≡ false
  campaigns-apart e i r h k = ground (arith, h)

  with_scheduled-CampaignScheduled :
      (t : Tables)
      → count_where (is_campaign env id) t.campaigns ≢ 0
      → CampaignScheduled t (with_scheduled t)
  with_scheduled-CampaignScheduled t n = record {
    marked = by_row (find (is_campaign env id) t.campaigns) refl;
    found = elim (count_where-find (is_campaign env id) t.campaigns) [
      | inl z ↦ absurd (n z.0)
      | inr z ↦ z.1
    ];
    row = find-update_where _ scheduled (λ r. refl) t.campaigns;
    other_rows = λ e i apart.
        find-update_where_other _ _ scheduled
          (λ r k. (campaigns-apart e i r apart k, campaigns-apart e i r apart k)) t.campaigns;
    other_tables = refl;
  }
    where
      by_row :
          (o : Option Campaign)
          → find (is_campaign env id) t.campaigns ≡ o
          → (old : Campaign) × (find (is_campaign env id) t.campaigns ≡ some old)
            × (find (is_campaign env id) (with_scheduled t).campaigns
                ≡ some (record old {
                  status = codes "Scheduled";
                  summary = codes "Test send queued just now";
                  action_label = codes "Inspect performance";
                  tone = codes "primary";
                }))
      by_row none h = elim (count_where-find (is_campaign env id) t.campaigns) [
        | inl z ↦ absurd (n z.0)
        | inr z ↦ absurd (z.1 h)
      ]
      by_row (some old) h = (
        old,
        h,
        find-update_where _ scheduled (λ r. refl) t.campaigns ∙ ap (Option.map scheduled) h,
      )

  with_scheduled-absent :
      (t : Tables) → count_where (is_campaign env id) t.campaigns ≡ 0 → with_scheduled t ≡ t
  with_scheduled-absent t z =
      ap (λ rows. record t { campaigns = rows }) (update_where-absent _ scheduled t.campaigns z)

  rows-ok :
      (t : Tables) (a : ℕ) (t' : Tables)
      → Schema.schedule_campaign_rows env id t ≡ ok (a, t')
      → (a ≡ count_where (is_campaign env id) t.campaigns) × (t' ≡ with_scheduled t)
  unfolding Schema.schedule_campaign_rows
  rows-ok t a t' h = ground arith

module _ (driver : Driver) (env : Text) (c : Command) (t₀ : Tables) where
  -- The update was carried out, and tells how many rows it changed.
  Updated : ℕ → Tables → Type 0
  Updated n t =
      (n ≡ count_where (is_campaign env (campaign_id_of c)) t₀.campaigns)
      × (t ≡ with_scheduled env (campaign_id_of c) t₀)

  update-Meets :
      Meets
        (λ t. t ≡ t₀)
        (λ t. t ≡ t₀)
        Updated
        (exec driver (λ _. Schema.schedule_campaign_rows env (campaign_id_of c)))
  unfolding Updated
  update-Meets =
      Meets-exec driver _ (λ t h. h)
        (λ _ t a t' h e.
          rows-ok env (campaign_id_of c) t₀ a t'
            (subst (λ u. Schema.schedule_campaign_rows env (campaign_id_of c) u ≡ ok (a, t')) h e))

  schedule_campaign-Meets :
      Meets
        (λ t. t ≡ t₀)
        (λ t. t ≡ t₀)
        (λ _. CampaignScheduled env (campaign_id_of c) t₀)
        (schedule_campaign driver env c)
  unfolding schedule_campaign Updated
  schedule_campaign-Meets =
      Meets-if (same (campaign_id_of c) []) _ _ (λ _. Meets-raise _ (λ t k. k))
        (λ _. Meets-bind _ _ (Meets-wrapped _ _ update-Meets) (λ n.
          Meets-if (n == 0) _ _
            (λ z. Meets-raise _ (λ t u.
              u.1 ∙ with_scheduled-absent env (campaign_id_of c) t₀ (sym u.0 ∙ ground arith)))
            (λ z. Meets-pure tt (λ t u.
              subst (CampaignScheduled env (campaign_id_of c) t₀) (sym u.1) (
                with_scheduled-CampaignScheduled env (campaign_id_of c) t₀
                  (λ k. absurd (ground arith)))))))

-- A scheduleCampaign without an error found the row of its campaign, which now has the status
-- "Scheduled" with the summary, the action and the tone of a queued test send, its other columns as
-- they were; no other row and no other table changed.
pub schedule_campaign-CampaignScheduled :
    (driver : Driver) (env : Text) (c : Command) (s : Session) {s' : Session}
    → schedule_campaign driver env c s ≡ (ok tt, s')
    → CampaignScheduled env (campaign_id_of c) s.tables s'.tables
schedule_campaign-CampaignScheduled driver env c s h =
    subst (Post (λ t. t ≡ s.tables) (λ _. CampaignScheduled env (campaign_id_of c) s.tables)) h
      ((schedule_campaign-Meets driver env c s.tables).run s refl)

-- A scheduling that fails changes no table, also when the campaign is not there.
pub schedule_campaign-failed :
    (driver : Driver) (env : Text) (c : Command) (s : Session) {e : Error} {s' : Session}
    → schedule_campaign driver env c s ≡ (err e, s')
    → s'.tables ≡ s.tables
schedule_campaign-failed driver env c s h =
    subst (Post (λ t. t ≡ s.tables) (λ _. CampaignScheduled env (campaign_id_of c) s.tables)) h
      ((schedule_campaign-Meets driver env c s.tables).run s refl)
