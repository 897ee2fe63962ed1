-- ===== src/Gateway/Effects.antt =====
-- What a publication leaves alone: whatever the requests and the metrics leave alone.
use flo_mimi.Prelude.{
  [], ◌∷◌, ◌++◌, List, Text, codes, Result, ok, err, pure, Action, leb, Bool-cases, inl, inr,
  wrapped,
}
use flo_mimi.Prelude.Effects.{Keeps, Keeps-pure, Keeps-bind, Keeps-wrapped, Keeps-if}
use flo_mimi.Value.{Value}
use flo_mimi.Command.{Command, Context}
use flo_mimi.Gateway.{
  Client, Request, Reply, failed, answered, receive, dispatch, post_json, announce,
  publish_analytics, publish_email, publish_interaction, should_publish_analytics,
  should_publish_email, analytics_payload, email_payload,
}

module _ {W : Type 0} (client : Client W) (P : W → Type 0)
    (sends : (request : Request) (w : W) → P w → P (client.send request w).1)
    (observes : (route status : Text) (w : W) → P w → P (client.observe route status w)) where
  receive-keeps : (path : Text) (r : Reply × W) → P r.1 → P (receive client path r).1
  unfolding receive
  receive-keeps path (failed e, w) h = observes _ _ w h
  receive-keeps path (answered code status body, w) h = elim (Bool-cases (leb 400 code)) [
    | inl e ↦ rw e (observes _ _ w h)
    | inr e ↦ rw e (observes _ _ w h)
  ]

  dispatch-Keeps :
      (path : Text) (request : Request) (r : Result (Unit {0}))
      → Keeps P (dispatch client path request r)
  unfolding dispatch
  dispatch-Keeps path request (err e) = record { run = λ w h. h }
  dispatch-Keeps path request (ok u) = record {
    run = λ w h. receive-keeps path (client.send request w) (sends request w h);
  }

  post_json-Keeps :
      (base_url : Text) (ctx : Context) (path : Text) (body : Value)
      → Keeps P (post_json client base_url ctx path body)
  unfolding post_json
  post_json-Keeps base_url ctx path body = dispatch-Keeps path _ _

  announce-Keeps :
      (what channel : Text) (published : List Text) (post : Action W (Unit {0}))
      → Keeps P post
      → Keeps P (announce client what channel published post)
  unfolding announce
  announce-Keeps what channel published post k =
      Keeps-bind (λ w. wrapped what (post w)) (λ _. pure (published ++ (channel ∷ [])))
        (Keeps-wrapped what post k) (λ _. Keeps-pure (published ++ (channel ∷ [])))

  publish_analytics-Keeps :
      (base_url : Text) (ctx : Context) (c : Command) (published : List Text)
      → Keeps P (publish_analytics client base_url ctx c published)
  unfolding publish_analytics
  publish_analytics-Keeps base_url ctx c published =
      let post = post_json client base_url ctx (codes "/events/analytics") (analytics_payload c) in
      Keeps-if (should_publish_analytics c)
        (announce client (codes "publish analytics event") (codes "analytics") published post)
        (pure published)
        (announce-Keeps (codes "publish analytics event") (codes "analytics") published post
          (post_json-Keeps base_url ctx (codes "/events/analytics") (analytics_payload c)))
        (Keeps-pure published)

  publish_email-Keeps :
      (base_url : Text) (ctx : Context) (c : Command) (published : List Text)
      → Keeps P (publish_email client base_url ctx c published)
  unfolding publish_email
  publish_email-Keeps base_url ctx c published =
      let post = post_json client base_url ctx (codes "/events/email") (email_payload c) in
      Keeps-if (should_publish_email c)
        (announce client (codes "publish campaign event") (codes "email") published post)
        (pure published)
        (announce-Keeps (codes "publish campaign event") (codes "email") published post
          (post_json-Keeps base_url ctx (codes "/events/email") (email_payload c)))
        (Keeps-pure published)

  -- So does a whole publication.
  pub publish_interaction-Keeps :
      (base_url : Text) (ctx : Context) (c : Command)
      → Keeps P (publish_interaction client base_url ctx c)
  unfolding publish_interaction
  publish_interaction-Keeps base_url ctx c =
      Keeps-bind _ _ (publish_analytics-Keeps base_url ctx c []) (λ announced.
        Keeps-bind _ _ (publish_email-Keeps base_url ctx c announced)
          (λ published. Keeps-pure (record { published = published })))
