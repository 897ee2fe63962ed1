-- ===== src/Content/Campaigns/Stored.antt =====
-- What `createCampaign` leaves in the tables, on success and on failure.
use flo_mimi.Prelude.Int.{pos}
use flo_mimi.Content.Metadata.{metadata_string, metadata_int, default_campaign_title}
use flo_mimi.Content.Campaigns.{audience_of}
use flo_mimi.Prelude.{
  Bool, Bool-cases, some-same, List, ◌∷◌, codes, ℕ, true, false, ◌&&◌, [], Option, none, some, ◌≡◌,
  ◌≢◌, ◌⊎◌, inl, inr, refl, sym, ap, ◌∙◌, arith, Text, same, Error, ok, err,
}
use mathlib.Core.Path.{subst}
use mathlib.Core.Option
use flo_mimi.Command.{Command}
use flo_mimi.Content.Table.{find, upsert}
use flo_mimi.Content.Table.Unique.{order_from}
use flo_mimi.Content.Table.Keys.{merged, find-upsert, find-upsert_other}
use flo_mimi.Content.Schema
use flo_mimi.Content.Schema.{
  Tables, Campaign, CampaignAnalytics, is_campaign, is_analytics, merge_campaign,
}
use flo_mimi.Content.Driver.{Driver, Session, exec}
use flo_mimi.Content.Driver.Rules.{
  Meets, Post, Meets-bind, Meets-raise, Meets-wrapped, Meets-if, Meets-exec, Meets-weaken,
}
use flo_mimi.Content.Campaigns.{campaign_row, campaign_id_of, create_campaign, display_order_of}
use flo_mimi.Content.Orders.{display_order_of-Meets}
use flo_mimi.Content.Invariant.{
  with_campaign, campaign_order, next_campaign_order, campaign_order-reads,
  next_campaign_order-reads, upsert_campaign-ok,
}

same_self : (env id : Text) → same env env && same id id ≡ true
same_self env id = ground arith

-- The row of a key after a row was inserted that does not replace one.
kept_some :
    (row r : CampaignAnalytics) (o : Option CampaignAnalytics)
    → o ≡ some r
    → some (merged (λ q. q) row o) ≡ some r
kept_some row r o h = rw h

-- The place of a campaign in the display order.
abbrev pub place_of : ℕ → Option Campaign → ℕ
place_of next none = next
place_of next (some old) = old.display_order

find-key :
    (is_key : Campaign → Bool) (rows : List Campaign) {r : Campaign}
    → find is_key rows ≡ some r
    → is_key r ≡ true
unfolding find
find-key is_key [] h = cc
find-key is_key (q ∷ rows) h = elim (Bool-cases (is_key q)) [
  | inl k ↦ let first : q ≡ _ = some-same (rw k at h) in subst (λ x. is_key x ≡ true) first k
  | inr k ↦ find-key is_key rows (rw k at h)
]

module _ (env : Text) (c : Command) where
  -- The row that the command leads to: behind the others, unless it has a place.
  abbrev pub wanted : Tables → Campaign
  wanted t =
      campaign_row env c
        (order_from (campaign_order env (campaign_id_of c) t) (next_campaign_order env t))

  -- A row with the columns that the command asks for, the keys of its metadata and what stands in for
  -- them, in the place that the campaign has, or behind the others if it has no row.
  pub record IsAsked (t : Tables) (r : Campaign) : Type 0 where
    pub environment : r.environment ≡ env
    pub campaign_id : r.campaign_id ≡ campaign_id_of c
    pub title :
        r.title ≡ metadata_string c.metadata (codes "title") (default_campaign_title c.action)
    pub summary :
        r.summary
        ≡ metadata_string c.metadata
            (codes "summary")
            (codes "Created from the operator console just now")
    pub status : r.status ≡ metadata_string c.metadata (codes "status") (codes "Draft")
    pub audience_count :
        r.audience_count ≡ metadata_int c.metadata (codes "audienceCount") (pos 6400)
    pub audience_label :
        r.audience_label
        ≡ metadata_string c.metadata
            (codes "audienceLabel")
            (codes "Curated audience pending review")
    pub action_label :
        r.action_label ≡ metadata_string c.metadata (codes "actionLabel") (codes "Launch test send")
    pub tone : r.tone ≡ metadata_string c.metadata (codes "tone") (codes "tertiary")
    pub place :
        (old : Option Campaign)
        → find (is_campaign env (campaign_id_of c)) t.campaigns ≡ old
        → r.display_order ≡ place_of (next_campaign_order env t) old

  merged-IsAsked :
      (t : Tables) (o : Option Campaign)
      → find (is_campaign env (campaign_id_of c)) t.campaigns ≡ o
      → IsAsked t (merged (merge_campaign (wanted t)) (wanted t) o)
  unfolding campaign_row audience_of campaign_order
  merged-IsAsked t none h = record {
    environment = refl;
    campaign_id = refl;
    title = refl;
    summary = refl;
    status = refl;
    audience_count = refl;
    audience_label = refl;
    action_label = refl;
    tone = refl;
    place = λ old k.
        ap
          (λ o.
            order_from (Option.map (λ (r : Campaign). r.display_order) o)
              (next_campaign_order env t))
          h
        ∙ ap (place_of (next_campaign_order env t)) (sym h ∙ k);
  }
  merged-IsAsked t (some r) h =
      let key = find-key (is_campaign env (campaign_id_of c)) t.campaigns h in
      record {
        environment = ground (arith, key);
        campaign_id = ground (arith, key);
        title = refl;
        summary = refl;
        status = refl;
        audience_count = refl;
        audience_label = refl;
        action_label = refl;
        tone = refl;
        place = λ old k. ap (place_of (next_campaign_order env t)) (sym h ∙ k);
      }

  -- The tables after the command, from those before it.
  pub record CampaignStored (t t' : Tables) : Type 0 where
    pub row :
        find (is_campaign env (campaign_id_of c)) t'.campaigns
        ≡ some (
            merged
              (merge_campaign (wanted t))
              (wanted t)
              (find (is_campaign env (campaign_id_of c)) t.campaigns))
    pub asked :
        (r : Campaign) × (find (is_campaign env (campaign_id_of c)) t'.campaigns ≡ some r)
        × IsAsked t r
    pub other_rows :
        (e id : Text)
        → (env ≡ e → campaign_id_of c ≢ id)
        → find (is_campaign e id) t'.campaigns ≡ find (is_campaign e id) t.campaigns
    pub seeded : find (is_analytics env (campaign_id_of c)) t'.analytics ≢ none
    pub counted :
        (r : CampaignAnalytics)
        → find (is_analytics env (campaign_id_of c)) t.analytics ≡ some r
        → find (is_analytics env (campaign_id_of c)) t'.analytics ≡ some r
    pub other_counts :
        (e id : Text)
        → (env ≡ e → campaign_id_of c ≢ id)
        → find (is_analytics e id) t'.analytics ≡ find (is_analytics e id) t.analytics
    pub environments : t'.environments ≡ t.environments
    pub subscribers : t'.subscribers ≡ t.subscribers
    pub segments : t'.segments ≡ t.segments
    pub filters : t'.filters ≡ t.filters
    pub assignments : t'.assignments ≡ t.assignments

  analytics_apart :
      (e id : Text) (r : CampaignAnalytics)
      → (env ≡ e → campaign_id_of c ≢ id)
      → is_analytics env (campaign_id_of c) r ≡ true
      → is_analytics e id r ≡ false
  analytics_apart e id r h k = ground (arith, h)

  campaigns-apart :
      (e id : Text) (r : Campaign)
      → (env ≡ e → campaign_id_of c ≢ id)
      → is_campaign env (campaign_id_of c) r ≡ true
      → is_campaign e id r ≡ false
  campaigns-apart e id r h k = ground (arith, h)

  pub seed-ok :
      (now : ℕ) (t : Tables) (a : Unit {0}) (t' : Tables)
      → Schema.seed_campaign_analytics now env (campaign_id_of c) t ≡ ok (a, t')
      → t' ≡ record t {
        analytics =
            upsert
              (is_analytics env (campaign_id_of c))
              (λ r. r)
              (Schema.unsent now env (campaign_id_of c))
              t.analytics;
      }
  unfolding Schema.seed_campaign_analytics
  seed-ok now t a t' h = ground arith

  stored-CampaignStored :
      (now : ℕ) (t t' : Tables)
      → t' ≡ record (with_campaign (wanted t) t) {
        analytics =
            upsert
              (is_analytics env (campaign_id_of c))
              (λ r. r)
              (Schema.unsent now env (campaign_id_of c))
              t.analytics;
      }
      → CampaignStored t t'
  unfolding campaign_row
  stored-CampaignStored now t t' h = subst (CampaignStored t) (sym h) (record {
    row =
        find-upsert _ (merge_campaign (wanted t)) (λ r. refl) (wanted t) t.campaigns
          (same_self env (campaign_id_of c));
    asked = (
      _,
      find-upsert _ (merge_campaign (wanted t)) (λ r. refl) (wanted t) t.campaigns
          (same_self env (campaign_id_of c)),
      merged-IsAsked t _ refl,
    );
    other_rows = λ e id apart.
        find-upsert_other (is_campaign env (campaign_id_of c)) (is_campaign e id)
          (merge_campaign (wanted t))
          (λ r k. (campaigns-apart e id r apart k, campaigns-apart e id r apart k)) (wanted t)
          t.campaigns (same_self env (campaign_id_of c));
    seeded = λ absent. cc (
        sym (
          find-upsert _ (λ r. r) (λ r. refl) (Schema.unsent now env (campaign_id_of c)) t.analytics
            (same_self env (campaign_id_of c)))
        ∙ absent);
    counted = λ r there.
        find-upsert _ (λ r. r) (λ r. refl) (Schema.unsent now env (campaign_id_of c)) t.analytics
          (same_self env (campaign_id_of c))
        ∙ kept_some (Schema.unsent now env (campaign_id_of c)) r _ there;
    other_counts = λ e id apart.
        find-upsert_other (is_analytics env (campaign_id_of c)) (is_analytics e id) (λ r. r)
          (λ r k. (analytics_apart e id r apart k, analytics_apart e id r apart k))
          (Schema.unsent now env (campaign_id_of c)) t.analytics (same_self env (campaign_id_of c));
    environments = refl;
    subscribers = refl;
    segments = refl;
    filters = refl;
    assignments = refl;
  })

module _ (driver : Driver) (env : Text) (c : Command) (t₀ : Tables) where
  Failed : Tables → Type 0
  Failed t = (t ≡ t₀) ⊎ (t ≡ with_campaign (wanted env c t₀) t₀)

  display-Meets :
      Meets
        (λ t. t ≡ t₀)
        Failed
        (λ n t. (t ≡ t₀) × (n ≡ (wanted env c t₀).display_order))
        (display_order_of driver
          (Schema.select_campaign_order env (campaign_id_of c))
          (Schema.select_next_campaign_order env))
  unfolding Failed campaign_row
  display-Meets =
      Meets-weaken _ (λ t h. inl h)
        (λ n t h. (
          h.0,
          h.1
              ∙ ap
                  (λ u.
                    order_from (campaign_order env (campaign_id_of c) u)
                      (next_campaign_order env u))
                  h.0,
        ))
        (display_order_of-Meets driver (λ t. t ≡ t₀) (campaign_order env (campaign_id_of c))
          (next_campaign_order env) _ _ (campaign_order-reads env (campaign_id_of c))
          (next_campaign_order-reads env))

  upsert-Meets :
      (n : ℕ)
      → Meets
          (λ t. (t ≡ t₀) × (n ≡ (wanted env c t₀).display_order))
          Failed
          (λ _ t. t ≡ with_campaign (wanted env c t₀) t₀)
          (exec driver (λ _. Schema.upsert_campaign (campaign_row env c n)))
  unfolding Failed campaign_row
  upsert-Meets n =
      Meets-exec driver _ (λ t h. inl h.0)
        (λ _ t a t' h e.
          upsert_campaign-ok (campaign_row env c n) t a t' e
          ∙ ap (λ u. with_campaign (campaign_row env c n) u) h.0
          ∙ ap (λ k. with_campaign (campaign_row env c k) t₀) h.1)

  seed-Meets :
      Meets
        (λ t. t ≡ with_campaign (wanted env c t₀) t₀)
        Failed
        (λ _. CampaignStored env c t₀)
        (exec driver (λ now. Schema.seed_campaign_analytics now env (campaign_id_of c)))
  unfolding Failed
  seed-Meets =
      Meets-exec driver _ (λ t h. inr h)
        (λ now t a t' h e. stored-CampaignStored env c now t₀ t' (
          seed-ok env c now (with_campaign (wanted env c t₀) t₀) a t' (
            subst (λ u. Schema.seed_campaign_analytics now env (campaign_id_of c) u ≡ ok (a, t')) h
              e)))

  create_campaign-Meets :
      Meets (λ t. t ≡ t₀) Failed (λ _. CampaignStored env c t₀) (create_campaign driver env c)
  unfolding create_campaign Failed
  create_campaign-Meets =
      Meets-if (same (campaign_id_of c) []) _ _ (λ _. Meets-raise _ (λ t k. inl k))
        (λ _. Meets-bind (display_order_of driver _ _) _ display-Meets (λ n.
          Meets-bind _ _ (Meets-wrapped _ _ (upsert-Meets n)) (λ _. Meets-wrapped _ _ seed-Meets)))

-- A createCampaign without an error leaves one row under the campaign's key, with the columns that the
-- metadata names or what stands in for them, in the place that the campaign had, or behind the others
-- if it is new, and statistics beside it, those that were there unchanged; no other row changes.
pub create_campaign-CampaignStored :
    (driver : Driver) (env : Text) (c : Command) (s : Session) {s' : Session}
    → create_campaign driver env c s ≡ (ok tt, s')
    → CampaignStored env c s.tables s'.tables
create_campaign-CampaignStored driver env c s h =
    subst (Post (Failed driver env c s.tables) (λ _. CampaignStored env c s.tables)) h
      ((create_campaign-Meets driver env c s.tables).run s refl)

-- A command that failed left the tables as they were, or with its row stored
-- and nothing else changed.
pub create_campaign-failed :
    (driver : Driver) (env : Text) (c : Command) (s : Session) {e : Error} {s' : Session}
    → create_campaign driver env c s ≡ (err e, s')
    → (s'.tables ≡ s.tables) ⊎ (s'.tables ≡ with_campaign (wanted env c s.tables) s.tables)
unfolding Failed
create_campaign-failed driver env c s h =
    subst (Post (Failed driver env c s.tables) (λ _. CampaignStored env c s.tables)) h
      ((create_campaign-Meets driver env c s.tables).run s refl)
