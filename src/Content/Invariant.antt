-- ===== src/Content/Invariant.antt =====
-- What every command keeps of the tables: the keys, and one place for each row in the display order.
pub mod Filters
pub mod Subscribers
pub mod Commands
use flo_mimi.Prelude.{
  ℕ, ◌+◌, Bool, true, false, ◌&&◌, [], ◌∷◌, List, Option, none, some, ◌≡◌, ◌≢◌, refl, sym, ap, ◌∙◌,
  arith, Text, codes, same, ◌==◌, Error, Result, ok, err, Action, wrapped, continue, pure, raise,
  ◌>>=◌, if◌then◌else◌, Bool-cases, inl, inr, All, ok-not-err,
}
use mathlib.Core.Path.{subst}
use mathlib.Core.Option
use flo_mimi.Prelude.Int.{ℤ, fits_int32}
use flo_mimi.Text.{trim_space}
use flo_mimi.Clock.{Time}
use flo_mimi.Command.{Command, Context}
use flo_mimi.Content.Table.{find, upsert, update_where, max_order}
use flo_mimi.Content.Table.Unique.{
  IsUnique, order_from, upsert-All, update_where-All, upsert-keys, upsert-orders,
  update_where-IsUnique,
}
use flo_mimi.Content.Schema
use flo_mimi.Content.Schema.{Tables, Campaign, Subscriber, Filter, Statement}
use flo_mimi.Content.Driver.{Driver, Session, exec}
use flo_mimi.Content.Driver.Rules.{
  Meets, Post, Meets-bind, Meets-pure, Meets-raise, Meets-wrapped, Meets-if, Meets-exec,
  Meets-transact, Meets-weaken,
}
use flo_mimi.Content.Campaigns.{
  display_order_of, campaign_row, campaign_id_of, create_campaign, schedule_campaign,
}
use flo_mimi.Content.Orders.{query-Meets, display_order_of-Meets}

-- The audience of a campaign is in the range of its column.
abbrev pub HasAudience : Campaign → Type 0
HasAudience r = fits_int32 r.audience_count ≡ true

pub record IsConsistent (t : Tables) : Type 0 where
  pub campaign_keys : IsUnique (λ (r : Campaign). r.environment) (λ r. r.campaign_id) t.campaigns
  pub campaign_orders :
      IsUnique (λ (r : Campaign). r.environment) (λ r. r.display_order) t.campaigns
  pub subscriber_keys :
      IsUnique (λ (r : Subscriber). r.environment) (λ r. r.subscriber_id) t.subscribers
  pub subscriber_orders :
      IsUnique (λ (r : Subscriber). r.environment) (λ r. r.display_order) t.subscribers
  pub filter_keys : IsUnique (λ (r : Filter). r.environment) (λ r. r.filter_label) t.filters
  pub filter_orders : IsUnique (λ (r : Filter). r.environment) (λ r. r.display_order) t.filters
  pub audiences : All HasAudience t.campaigns

-- A statement that has passed the check of its environment.
pub known-ok :
    {A : Type 0} (env : Text) (t : Tables) (a a' : A)
    → Schema.in_known_environment env t a ≡ ok a'
    → a' ≡ a
known-ok env t a a' h = ground arith

pub as_integer-ok :
    {A : Type 0} (n : ℤ) (r : Result A) {a : A}
    → Schema.as_integer n r ≡ ok a
    → (fits_int32 n ≡ true) × (r ≡ ok a)
as_integer-ok n r h = elim (Bool-cases (fits_int32 n)) [
  | inl e ↦ (e, rw e at h)
  | inr e ↦ absurd (ok-not-err (sym (rw e at h)))
]

unfoldable pub campaign_order : Text → Text → Tables → Option ℕ
campaign_order env id t =
    Option.map (λ (r : Campaign). r.display_order) (find (Schema.is_campaign env id) t.campaigns)

pub next_campaign_order : Text → Tables → ℕ
next_campaign_order env t =
    max_order (λ (r : Campaign). same r.environment env) (λ r. r.display_order) t.campaigns + 1

pub campaign_order-reads :
    (env id : Text) (t : Tables)
    → Schema.select_campaign_order env id t ≡ ok (campaign_order env id t, t)
unfolding Schema.select_campaign_order campaign_order
campaign_order-reads env id t = refl

pub next_campaign_order-reads :
    (env : Text) (t : Tables)
    → Schema.select_next_campaign_order env t ≡ ok (next_campaign_order env t, t)
unfolding Schema.select_next_campaign_order next_campaign_order
next_campaign_order-reads env t = refl

-- The tables after a campaign was upserted.
abbrev pub with_campaign : Campaign → Tables → Tables
with_campaign row t = record t {
  campaigns =
      upsert (Schema.is_campaign row.environment row.campaign_id) (Schema.merge_campaign row) row
        t.campaigns;
}

upsert_campaign-IsConsistent :
    (row : Campaign) (t : Tables)
    → IsConsistent t
    → row.display_order
      ≡ order_from
          (campaign_order row.environment row.campaign_id t)
          (next_campaign_order row.environment t)
    → HasAudience row
    → IsConsistent (with_campaign row t)
unfolding campaign_order next_campaign_order
upsert_campaign-IsConsistent row t k e fits = record {
  campaign_keys =
      upsert-keys _ _ (λ r. r.display_order) (Schema.merge_campaign row) (λ r. (refl, refl, refl))
        row t.campaigns k.campaign_keys;
  campaign_orders =
      upsert-orders _ (λ r. r.campaign_id) _ (Schema.merge_campaign row) (λ r. (refl, refl, refl))
        row t.campaigns e k.campaign_orders;
  subscriber_keys = k.subscriber_keys;
  subscriber_orders = k.subscriber_orders;
  filter_keys = k.filter_keys;
  filter_orders = k.filter_orders;
  audiences =
      upsert-All HasAudience _ (Schema.merge_campaign row) row t.campaigns (λ r h. fits) (λ h. fits)
        k.audiences;
}

-- The tables of the invariant.
pub record SameRows (t t' : Tables) : Type 0 where
  pub campaigns : t'.campaigns ≡ t.campaigns
  pub subscribers : t'.subscribers ≡ t.subscribers
  pub filters : t'.filters ≡ t.filters

pub SameRows-IsConsistent : (t t' : Tables) → SameRows t t' → IsConsistent t → IsConsistent t'
SameRows-IsConsistent t t' r k = record {
  campaign_keys = subst (IsUnique _ _) (sym r.campaigns) k.campaign_keys;
  campaign_orders = subst (IsUnique _ _) (sym r.campaigns) k.campaign_orders;
  subscriber_keys = subst (IsUnique _ _) (sym r.subscribers) k.subscriber_keys;
  subscriber_orders = subst (IsUnique _ _) (sym r.subscribers) k.subscriber_orders;
  filter_keys = subst (IsUnique _ _) (sym r.filters) k.filter_keys;
  filter_orders = subst (IsUnique _ _) (sym r.filters) k.filter_orders;
  audiences = subst (All HasAudience) (sym r.campaigns) k.audiences;
}

pub upsert_campaign-ok :
    (row : Campaign) (t : Tables) (a : Unit {0}) (t' : Tables)
    → Schema.upsert_campaign row t ≡ ok (a, t')
    → t' ≡ with_campaign row t
unfolding Schema.upsert_campaign
upsert_campaign-ok row t a t' h =
    ap (λ r. r.1)
      (known-ok _ t (tt, with_campaign row t) (a, t') (as_integer-ok row.audience_count _ h).1)

pub upsert_campaign-fits :
    (row : Campaign) (t : Tables) (a : Unit {0}) (t' : Tables)
    → Schema.upsert_campaign row t ≡ ok (a, t')
    → HasAudience row
unfolding Schema.upsert_campaign
upsert_campaign-fits row t a t' h = (as_integer-ok row.audience_count _ h).0

pub seed-SameRows :
    (now : ℕ) (env id : Text) (t : Tables) (a : Unit {0}) (t' : Tables)
    → Schema.seed_campaign_analytics now env id t ≡ ok (a, t')
    → SameRows t t'
unfolding Schema.seed_campaign_analytics
seed-SameRows now env id t a t' h = ground arith

pub schedule-ok :
    (env id : Text) (t : Tables) (a : ℕ) (t' : Tables)
    → Schema.schedule_campaign_rows env id t ≡ ok (a, t')
    → t' ≡ record t {
      campaigns = update_where (Schema.is_campaign env id) Schema.scheduled t.campaigns;
    }
unfolding Schema.schedule_campaign_rows
schedule-ok env id t a t' h = ground arith

scheduled-IsConsistent :
    (env id : Text) (t : Tables)
    → IsConsistent t
    → IsConsistent (record t {
      campaigns = update_where (Schema.is_campaign env id) Schema.scheduled t.campaigns;
    })
scheduled-IsConsistent env id t k = record {
  campaign_keys =
      update_where-IsUnique _ _ _ Schema.scheduled (λ r. (refl, refl)) t.campaigns k.campaign_keys;
  campaign_orders =
      update_where-IsUnique _ _ _ Schema.scheduled (λ r. (refl, refl)) t.campaigns
        k.campaign_orders;
  subscriber_keys = k.subscriber_keys;
  subscriber_orders = k.subscriber_orders;
  filter_keys = k.filter_keys;
  filter_orders = k.filter_orders;
  audiences = update_where-All HasAudience _ Schema.scheduled t.campaigns (λ r h. h) k.audiences;
}

module _ (driver : Driver) (env : Text) where
  -- What the display-order queries have found when the row is written.
  abbrev Ordered : Text → ℕ → Tables → Type 0
  Ordered id n t =
      IsConsistent t × (n ≡ order_from (campaign_order env id t) (next_campaign_order env t))

  upsert-Meets :
      (c : Command) (n : ℕ)
      → Meets
          (Ordered (campaign_id_of c) n)
          IsConsistent
          (λ _. IsConsistent)
          (exec driver (λ _. Schema.upsert_campaign (campaign_row env c n)))
  unfolding campaign_row
  upsert-Meets c n =
      Meets-exec driver _ (λ t h. h.0)
        (λ _ t a t' h e.
          subst IsConsistent (sym (upsert_campaign-ok (campaign_row env c n) t a t' e)) (
            upsert_campaign-IsConsistent (campaign_row env c n) t h.0 h.1
              (upsert_campaign-fits (campaign_row env c n) t a t' e)))

  seed-Meets :
      (id : Text)
      → Meets IsConsistent IsConsistent
          (λ _. IsConsistent)
          (exec driver (λ now. Schema.seed_campaign_analytics now env id))
  seed-Meets id =
      Meets-exec driver _ (λ t h. h)
        (λ now t a t' h e. SameRows-IsConsistent t t' (seed-SameRows now env id t a t' e) h)

  pub create_campaign-Meets :
      (c : Command)
      → Meets IsConsistent IsConsistent (λ _. IsConsistent) (create_campaign driver env c)
  unfolding create_campaign
  create_campaign-Meets c =
      Meets-if (same (campaign_id_of c) []) _ _ (λ _. Meets-raise _ (λ t k. k))
        (λ _.
          Meets-bind (display_order_of driver _ _) _
            (display_order_of-Meets driver IsConsistent (campaign_order env (campaign_id_of c))
              (next_campaign_order env) _ _ (campaign_order-reads env (campaign_id_of c))
              (next_campaign_order-reads env))
            (λ n.
              Meets-bind _ _ (Meets-wrapped _ _ (upsert-Meets c n))
                (λ _. Meets-wrapped _ _ (seed-Meets (campaign_id_of c)))))

  pub schedule_campaign-Meets :
      (c : Command)
      → Meets IsConsistent IsConsistent (λ _. IsConsistent) (schedule_campaign driver env c)
  unfolding schedule_campaign
  schedule_campaign-Meets c =
      Meets-if (same (campaign_id_of c) []) _ _ (λ _. Meets-raise _ (λ t k. k))
        (λ _.
          Meets-bind _ _
            (Meets-wrapped _ _ (
              Meets-exec driver _ (λ t k. k)
                (λ _ t a t' k e.
                  subst IsConsistent (sym (schedule-ok env (campaign_id_of c) t a t' e))
                    (scheduled-IsConsistent env (campaign_id_of c) t k))))
            (λ n.
              Meets-if (n == 0) _ _ (λ _. Meets-raise _ (λ t k. k))
                (λ _. Meets-pure tt (λ t k. k))))
