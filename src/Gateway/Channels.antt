-- ===== src/Gateway/Channels.antt =====
-- Which channels an interaction goes out on, by its kind, and what a failed post leaves undone.
use flo_mimi.Prelude.{
  true, [], ◌∷◌, ◌++◌, List, ◌≡◌, ◌≢◌, inl, inr, arith, Text, codes, same, is_blank, if◌then◌else◌,
  Error, Result, ok, err, wrap, continue, continue-eq-ok, pure, wrapped, Bool-cases,
}
use flo_mimi.Command.{Command, Context, PublishResult}
use flo_mimi.Gateway.{
  Client, should_publish_analytics, should_publish_email, publish_interaction, publish_analytics,
  publish_email, post_json, analytics_payload,
}

-- The channels of each kind. A kind that the gateway does not know counts as `auto`.
unfoldable pub channels : Command → List Text
channels c =
    if same c.event_kind (codes "email")
    then codes "email" ∷ []
    else if same c.event_kind (codes "both")
    then codes "analytics" ∷ codes "email" ∷ []
    else if same c.event_kind (codes "analytics")
    then codes "analytics" ∷ []
    else if same c.subject_type (codes "campaign")
    then codes "analytics" ∷ codes "email" ∷ []
    else if is_blank c.campaign_id
    then codes "analytics" ∷ []
    else codes "analytics" ∷ codes "email" ∷ []

module _ {W : Type 0} (client : Client W) (base_url : Text) (ctx : Context) (c : Command) where
  announced-ok :
      (what channel : Text) (published : List Text) (p : Result (Unit {0}) × W) {r : List Text}
      {w' : W}
      → continue (λ _. pure (published ++ (channel ∷ []))) (wrapped what p) ≡ (ok r, w')
      → r ≡ published ++ (channel ∷ [])
  announced-ok what channel published (ok _, w) h = ground arith
  announced-ok what channel published (err e, w) h = cc

  publish_analytics-ok :
      (w : W) {r : List Text} {w' : W}
      → publish_analytics client base_url ctx c [] w ≡ (ok r, w')
      → r ≡ (if should_publish_analytics c then codes "analytics" ∷ [] else [])
  unfolding publish_analytics
  publish_analytics-ok w h = elim (Bool-cases (should_publish_analytics c)) [
    | inl e ↦ rw e (announced-ok _ (codes "analytics") [] _ (rw e at h))
    | inr e ↦ rw e (ground arith)
  ]

  publish_email-ok :
      (published : List Text) (w : W) {r : List Text} {w' : W}
      → publish_email client base_url ctx c published w ≡ (ok r, w')
      → r ≡ (if should_publish_email c then published ++ (codes "email" ∷ []) else published)
  unfolding publish_email
  publish_email-ok published w h = elim (Bool-cases (should_publish_email c)) [
    | inl e ↦ rw e (announced-ok _ (codes "email") published _ (rw e at h))
    | inr e ↦ rw e (ground arith)
  ]

  pub channels-by_tests : channels c ≡ (
      let announced = if should_publish_analytics c then codes "analytics" ∷ [] else [] in
      if should_publish_email c then announced ++ (codes "email" ∷ []) else announced)
  unfolding channels should_publish_analytics should_publish_email
  channels-by_tests = ground arith

  -- A successful publication names exactly the channels of the interaction's kind, in order.
  pub publish-channels :
      (w : W) {r : PublishResult} {w' : W}
      → publish_interaction client base_url ctx c w ≡ (ok r, w')
      → r.published ≡ channels c
  unfolding publish_interaction
  publish-channels w h =
      let (announced, w₁, first, rest) =
        continue-eq-ok _ (publish_analytics client base_url ctx c [] w) h in
      let (published, w₂, second, done) =
        continue-eq-ok (λ published. pure (record { published = published }))
          (publish_email client base_url ctx c announced w₁) rest in
      rw channels-by_tests
        (ground (arith, publish_analytics-ok w first, publish_email-ok announced w₁ second))

  -- A failed analytics event ends the publication: the campaign event is not posted.
  pub publish-analytics_failed :
      (w : W) {e : Error} {w' : W}
      → should_publish_analytics c ≡ true
      → post_json client base_url ctx (codes "/events/analytics") (analytics_payload c) w
        ≡ (err e, w')
      → publish_interaction client base_url ctx c w
        ≡ (err (wrap (codes "publish analytics event") e), w')
  unfolding publish_interaction publish_analytics
  publish-analytics_failed w s h = ground arith

-- No interaction is silent.
pub channels-ne-nil : (c : Command) → channels c ≢ []
unfolding channels
channels-ne-nil c = ground arith
