-- ===== src/Bootstrap/Effects.antt =====
-- What the loading of a view leaves alone.
use flo_mimi.Prelude.{ℕ, List, Option, none, some, Text, codes, Result, ok, err, Action}
use flo_mimi.Prelude.Effects.{Keeps, Keeps-pure, Keeps-bind, Keeps-wrapped}
use flo_mimi.Bootstrap.{AppBootstrap, Analytics}
use flo_mimi.Bootstrap.Load.{Source, decode, load, unmarshal_section}
use flo_mimi.Bootstrap.Service.{
  Service, refresh, with_analytics, analytics_or_none, load_view, load_analytics_view,
}

module _ {W : Type 0} (P : W → Type 0) where
  decode-Keeps :
      {A : Type 0} (source : Source W) (env what : Text) (unmarshal : List ℕ → Result A)
      (raw : List ℕ)
      → Keeps P (decode source env what unmarshal raw)
  decode-Keeps source env what unmarshal raw =
      Keeps-wrapped what (λ w. (unmarshal_section unmarshal raw, w)) (record { run = λ w h. h })

  -- Loading a row does what its query does.
  pub load-Keeps :
      (source : Source W) (env : Text)
      → Keeps P (source.select_bootstrap env)
      → Keeps P (load source env)
  unfolding load
  load-Keeps source env k = Keeps-bind _ _ (Keeps-wrapped _ (source.select_bootstrap env) k) (λ row.
      Keeps-bind
        (decode source env (codes "decode brand") source.decoders.unmarshal_brand row.raw_brand) _
        (decode-Keeps source env (codes "decode brand") source.decoders.unmarshal_brand
          row.raw_brand)
        (λ brand.
          Keeps-bind
            (decode source env (codes "decode session") source.decoders.unmarshal_session
              row.raw_session)
            _
            (decode-Keeps source env (codes "decode session") source.decoders.unmarshal_session
              row.raw_session)
            (λ session.
              Keeps-bind
                (decode source env (codes "decode dashboard") source.decoders.unmarshal_dashboard
                  row.raw_dashboard)
                _
                (decode-Keeps source env (codes "decode dashboard")
                  source.decoders.unmarshal_dashboard row.raw_dashboard)
                (λ dashboard.
                  Keeps-bind
                    (decode source env (codes "decode campaigns")
                      source.decoders.unmarshal_campaigns row.raw_campaigns)
                    _
                    (decode-Keeps source env (codes "decode campaigns")
                      source.decoders.unmarshal_campaigns row.raw_campaigns)
                    (λ campaigns.
                      Keeps-bind
                        (decode source env (codes "decode subscribers")
                          source.decoders.unmarshal_subscribers row.raw_subscribers)
                        _
                        (decode-Keeps source env (codes "decode subscribers")
                          source.decoders.unmarshal_subscribers row.raw_subscribers)
                        (λ subscribers.
                          Keeps-bind
                            (decode source env (codes "decode analytics")
                              source.decoders.unmarshal_analytics row.raw_analytics)
                            _
                            (decode-Keeps source env (codes "decode analytics")
                              source.decoders.unmarshal_analytics row.raw_analytics)
                            (λ analytics. Keeps-pure _)))))))

  with_analytics-keeps :
      (model : AppBootstrap) (r : Result Analytics × W) → P r.1 → P (with_analytics model r).1
  with_analytics-keeps model (ok a, w) h = h
  with_analytics-keeps model (err e, w) h = h

  abbrev pub KeepsIfAny : {A : Type 0} → Option (Action W A) → Type 0
  KeepsIfAny none = Unit
  KeepsIfAny (some m) = Keeps P m

  refresh-Keeps :
      (repo : Option (Action W Analytics)) (model : AppBootstrap)
      → KeepsIfAny repo
      → Keeps P (refresh repo model)
  refresh-Keeps none model k = record { run = λ w h. h }
  refresh-Keeps (some m) model k = record {
    run = λ w h. with_analytics-keeps model (m w) (k.run w h);
  }

  -- The service does what its ports do.
  pub load_view-Keeps :
      (s : Service W) → Keeps P s.repository → KeepsIfAny s.analytics_repo → Keeps P (load_view s)
  unfolding load_view
  load_view-Keeps s k l =
      Keeps-bind s.repository (refresh s.analytics_repo) k
        (λ model. refresh-Keeps s.analytics_repo model l)

  analytics_or_none-Keeps :
      (repo : Option (Action W Analytics)) → KeepsIfAny repo → Keeps P (analytics_or_none repo)
  analytics_or_none-Keeps none k = record { run = λ w h. h }
  analytics_or_none-Keeps (some m) k = k

  pub load_analytics_view-Keeps :
      (s : Service W) → KeepsIfAny s.analytics_repo → Keeps P (load_analytics_view s)
  unfolding load_analytics_view
  load_analytics_view-Keeps s k = analytics_or_none-Keeps s.analytics_repo k
