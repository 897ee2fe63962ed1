-- ===== src/Bootstrap/Load.antt =====
-- AppDBRepository.Load: one row of the view analytics.platform_bootstrap, decoded column by column.
use flo_mimi.Prelude.{
  ℕ, List, [], ◌∷◌, ◌≡◌, ◌≢◌, refl, sym, ap, Text, codes, Result, ok, err, message, Action, wrapped,
  continue, pure, ◌>>=◌, continue-eq-ok, ok-same, ◌∙◌,
}
use mathlib.Core.Path.{subst}
use flo_mimi.Bootstrap.{AppBootstrap, Brand, Session, Dashboard, Campaigns, Subscribers, Analytics}

-- The bytes of the six columns.
pub record Row : Type 0 where
  pub raw_brand : List ℕ
  pub raw_session : List ℕ
  pub raw_dashboard : List ℕ
  pub raw_campaigns : List ℕ
  pub raw_subscribers : List ℕ
  pub raw_analytics : List ℕ

-- encoding/json on the bytes of each column.
pub record Decoders : Type 0 where
  pub unmarshal_brand : List ℕ → Result Brand
  pub unmarshal_session : List ℕ → Result Session
  pub unmarshal_dashboard : List ℕ → Result Dashboard
  pub unmarshal_campaigns : List ℕ → Result Campaigns
  pub unmarshal_subscribers : List ℕ → Result Subscribers
  pub unmarshal_analytics : List ℕ → Result Analytics

-- `QueryRowContext(…).Scan(…)` for an environment, with the decoders.
pub record Source (W : Type 0) : Type 0 where
  pub select_bootstrap : Text → Action W Row
  pub decoders : Decoders

unfoldable pub unmarshal_section : {A : Type 0} → (List ℕ → Result A) → List ℕ → Result A
unmarshal_section unmarshal [] = err (message (codes "empty section"))
unmarshal_section unmarshal (b ∷ bs) = unmarshal (b ∷ bs)

module _ {W : Type 0} (source : Source W) (env : Text) where
  abbrev pub decode : {A : Type 0} → Text → (List ℕ → Result A) → List ℕ → Action W A
  decode what unmarshal raw w = wrapped what (unmarshal_section unmarshal raw, w)

  unfoldable pub load : Action W AppBootstrap
  unfolding unmarshal_section
  load = do
    row ← λ w. wrapped (codes "load platform bootstrap") (source.select_bootstrap env w)
    brand ← decode (codes "decode brand") source.decoders.unmarshal_brand row.raw_brand
    session ← decode (codes "decode session") source.decoders.unmarshal_session row.raw_session
    dashboard ←
        decode (codes "decode dashboard") source.decoders.unmarshal_dashboard row.raw_dashboard
    campaigns ←
        decode (codes "decode campaigns") source.decoders.unmarshal_campaigns row.raw_campaigns
    subscribers ←
        decode (codes "decode subscribers") source.decoders.unmarshal_subscribers
          row.raw_subscribers
    analytics ←
        decode (codes "decode analytics") source.decoders.unmarshal_analytics row.raw_analytics
    pure (record {
      brand = brand;
      session = session;
      dashboard = dashboard;
      campaigns = campaigns;
      subscribers = subscribers;
      analytics = analytics;
    })

  -- The row that was found holds the sections of the model.
  pub record IsDecoded (row : Row) (model : AppBootstrap) : Type 0 where
    pub brand_ok :
        (row.raw_brand ≢ []) × (source.decoders.unmarshal_brand row.raw_brand ≡ ok model.brand)
    pub session_ok :
        (row.raw_session ≢ [])
        × (source.decoders.unmarshal_session row.raw_session ≡ ok model.session)
    pub dashboard_ok :
        (row.raw_dashboard ≢ [])
        × (source.decoders.unmarshal_dashboard row.raw_dashboard ≡ ok model.dashboard)
    pub campaigns_ok :
        (row.raw_campaigns ≢ [])
        × (source.decoders.unmarshal_campaigns row.raw_campaigns ≡ ok model.campaigns)
    pub subscribers_ok :
        (row.raw_subscribers ≢ [])
        × (source.decoders.unmarshal_subscribers row.raw_subscribers ≡ ok model.subscribers)
    pub analytics_ok :
        (row.raw_analytics ≢ [])
        × (source.decoders.unmarshal_analytics row.raw_analytics ≡ ok model.analytics)

section-ok :
    {A : Type 0} (unmarshal : List ℕ → Result A) (raw : List ℕ) {a : A}
    → unmarshal_section unmarshal raw ≡ ok a
    → (raw ≢ []) × (unmarshal raw ≡ ok a)
unfolding unmarshal_section
section-ok unmarshal [] h = cc
section-ok unmarshal (b ∷ bs) h = (λ e. cc, h)

section-back :
    {A : Type 0} (unmarshal : List ℕ → Result A) (raw : List ℕ) {a : A}
    → (raw ≢ []) × (unmarshal raw ≡ ok a)
    → unmarshal_section unmarshal raw ≡ ok a
unfolding unmarshal_section
section-back unmarshal [] h = absurd (h.0 refl)
section-back unmarshal (b ∷ bs) h = h.1

module _ {W : Type 0} where
  wrapped-ok :
      {A : Type 0} (what : Text) (r : Result A × W) {a : A} {w : W}
      → wrapped what r ≡ (ok a, w)
      → r ≡ (ok a, w)
  wrapped-ok what (ok b, v) h = h
  wrapped-ok what (err e, v) h = cc

  decoded-ok :
      {A : Type 0} (what : Text) (unmarshal : List ℕ → Result A) (raw : List ℕ) {a : A} {w w' : W}
      → wrapped what (unmarshal_section unmarshal raw, w) ≡ (ok a, w')
      → (raw ≢ []) × (unmarshal raw ≡ ok a) × (w' ≡ w)
  decoded-ok what unmarshal raw {a} {w} {w'} h =
      let e : (unmarshal_section unmarshal raw, w) ≡ (ok a, w') =
        wrapped-ok what (unmarshal_section unmarshal raw, w) h in
      let s = section-ok unmarshal raw (ap (λ r. r.0) e) in (s.0, s.1, sym (ap (λ r. r.1) e))

  decode-step :
      {A B : Type 0} (what : Text) (unmarshal : List ℕ → Result A) (raw : List ℕ)
      (f : A → Action W B) {b : B} {w w' : W}
      → continue f (wrapped what (unmarshal_section unmarshal raw, w)) ≡ (ok b, w')
      → (a : A) × ((raw ≢ []) × (unmarshal raw ≡ ok a)) × (f a w ≡ (ok b, w'))
  decode-step what unmarshal raw f {b} {w} {w'} h =
      let (a, v, r, k) = continue-eq-ok f _ h in
      let (there, decoded, same_world) = decoded-ok what unmarshal raw r in
      (a, (there, decoded), subst (λ u. f a u ≡ (ok b, w')) same_world k)

module _ {W : Type 0} (source : Source W) (env : Text) where
  -- The view that is loaded is the row of the environment, each of its columns decoded.
  pub load-IsDecoded :
      (w : W) {model : AppBootstrap} {w' : W}
      → load source env w ≡ (ok model, w')
      → (row : Row) × (source.select_bootstrap env w ≡ (ok row, w'))
        × IsDecoded source env row model
  unfolding load
  load-IsDecoded w h =
      let (row, v, selected, h1) = continue-eq-ok _ (wrapped _ (source.select_bootstrap env w)) h in
      let (brand, brand_ok, h2) =
        decode-step (codes "decode brand") source.decoders.unmarshal_brand row.raw_brand _ h1 in
      let (session, session_ok, h3) =
        decode-step (codes "decode session") source.decoders.unmarshal_session row.raw_session _
          h2 in
      let (dashboard, dashboard_ok, h4) =
        decode-step (codes "decode dashboard") source.decoders.unmarshal_dashboard row.raw_dashboard
          _ h3 in
      let (campaigns, campaigns_ok, h5) =
        decode-step (codes "decode campaigns") source.decoders.unmarshal_campaigns row.raw_campaigns
          _ h4 in
      let (subscribers, subscribers_ok, h6) =
        decode-step (codes "decode subscribers") source.decoders.unmarshal_subscribers
          row.raw_subscribers _ h5 in
      let (analytics, analytics_ok, h7) =
        decode-step (codes "decode analytics") source.decoders.unmarshal_analytics row.raw_analytics
          _ h6 in
      (
        row,
        wrapped-ok _ (source.select_bootstrap env w) selected
            ∙ ap (λ u. (ok row, u)) (ap (λ r. r.1) h7),
        subst (IsDecoded source env row) (ok-same (ap (λ r. r.0) h7)) (record {
          brand_ok = brand_ok;
          session_ok = session_ok;
          dashboard_ok = dashboard_ok;
          campaigns_ok = campaigns_ok;
          subscribers_ok = subscribers_ok;
          analytics_ok = analytics_ok;
        }),
      )
