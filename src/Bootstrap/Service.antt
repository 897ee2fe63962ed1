-- ===== src/Bootstrap/Service.antt =====
-- platform/internal/application/bootstrap/service.go: the model of the repository with the analytics
-- of the serving store, where there are any. The model that Go returns beside an error is never read,
-- and the warning for analytics that could not be loaded is left out.
use flo_mimi.Prelude.{
  [], Option, none, some, ◌≡◌, refl, sym, ◌∙◌, ap, Error, Result, ok, err, ok-same, ok-not-err,
  Action, continue,
}
use flo_mimi.Bootstrap.{AppBootstrap, Analytics}

-- The ports BootstrapRepository and AnalyticsRepository; a service may have no analytics.
pub record Service (W : Type 0) : Type 0 where
  pub repository : Action W AppBootstrap
  pub analytics_repo : Option (Action W Analytics)

abbrev pub no_analytics : Analytics
no_analytics = record { headline = []; description = []; pipelines = []; signals = [] }

module _ {W : Type 0} where
  abbrev pub with_analytics : AppBootstrap → Result Analytics × W → Result AppBootstrap × W
  with_analytics model (ok analytics, w) = (ok (record model { analytics = analytics }), w)
  with_analytics model (err e, w) = (ok model, w)

  abbrev pub refresh : Option (Action W Analytics) → AppBootstrap → Action W AppBootstrap
  refresh none model w = (ok model, w)
  refresh (some load_analytics) model w = with_analytics model (load_analytics w)

  unfoldable pub load_view : Service W → Action W AppBootstrap
  load_view s w = continue (refresh s.analytics_repo) (s.repository w)

  abbrev pub analytics_or_none : Option (Action W Analytics) → Action W Analytics
  analytics_or_none none w = (ok no_analytics, w)
  analytics_or_none (some load) w = load w

  unfoldable pub load_analytics_view : Service W → Action W Analytics
  load_analytics_view s w = analytics_or_none s.analytics_repo w

module _ {W : Type 0} (s : Service W) where
  -- What a view shows as its analytics: those that were loaded, or those that the model had.
  pub record IsShown (model : AppBootstrap) (w : W) (analytics : Analytics) (w' : W) : Type 0 where
    pub loaded :
        (load : Action W Analytics)
        → s.analytics_repo ≡ some load
        → {a : Analytics} → (load w).0 ≡ ok a
        → analytics ≡ a
    pub not_loaded :
        (load : Action W Analytics)
        → s.analytics_repo ≡ some load
        → {e : Error} → (load w).0 ≡ err e
        → analytics ≡ model.analytics
    pub absent : s.analytics_repo ≡ none → (analytics ≡ model.analytics) × (w' ≡ w)

  same_load :
      (load load' : Action W Analytics)
      → s.analytics_repo ≡ some load
      → s.analytics_repo ≡ some load'
      → load ≡ load'
  same_load load load' h k = cc

  shown :
      (model : AppBootstrap) (w : W) (repo : Option (Action W Analytics))
      → s.analytics_repo ≡ repo
      → (a : Analytics) × (w' : W) × (refresh repo model w
          ≡ (ok (record model { analytics = a }), w'))
        × IsShown model w a w'
  shown model w none h = (
    model.analytics,
    w,
    refl,
    record { loaded = λ load k r. cc; not_loaded = λ load k r. cc; absent = λ k. (refl, refl) },
  )
  shown model w (some load) h = by_result (load w) refl
    where
      answers :
          (load' : Action W Analytics) {r : Result Analytics × W}
          → load w ≡ r
          → s.analytics_repo ≡ some load'
          → (load' w).0 ≡ r.0
      answers load' e k = ap (λ f. (f w).0) (same_load load' load k h) ∙ ap (λ r. r.0) e

      by_result :
          (r : Result Analytics × W)
          → load w ≡ r
          → (a : Analytics) × (w' : W) × (with_analytics model r
              ≡ (ok (record model { analytics = a }), w'))
            × IsShown model w a w'
      by_result (ok a, w') e = (
        a,
        w',
        refl,
        record {
          loaded = λ load' k r. ok-same (sym (answers load' e k) ∙ r);
          not_loaded = λ load' k r. absurd (ok-not-err (sym (answers load' e k) ∙ r));
          absent = λ k. cc;
        },
      )
      by_result (err x, w') e = (
        model.analytics,
        w',
        refl,
        record {
          loaded = λ load' k r. absurd (ok-not-err (sym r ∙ answers load' e k));
          not_loaded = λ load' k r. refl;
          absent = λ k. cc;
        },
      )

  -- A model that the repository gives is shown whatever becomes of the analytics, with nothing of it
  -- changed but them.
  pub load_view-IsShown :
      (w : W) {model : AppBootstrap} {w' : W}
      → s.repository w ≡ (ok model, w')
      → (a : Analytics) × (w'' : W) × (load_view s w ≡ (ok (record model { analytics = a }), w''))
        × IsShown model w' a w''
  unfolding load_view
  load_view-IsShown w {model} {w'} h =
      let (a, w'', shows, is_shown) = shown model w' s.analytics_repo refl in
      (a, w'', ap (λ r. continue (refresh s.analytics_repo) r) h ∙ shows, is_shown)
