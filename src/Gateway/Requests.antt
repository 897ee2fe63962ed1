-- ===== src/Gateway/Requests.antt =====
-- What the event gateway is sent for an interaction, request by request.
use flo_mimi.Prelude.{
  false, [], ◌∷◌, ◌++◌, List, ◌≡◌, refl, sym, ap, ◌∙◌, inl, inr, Text, codes, same, is_blank,
  if◌then◌else◌, Result, ok, err, continue, pure, wrapped, Action, leb, Bool-cases, Text-discrete,
  map, append_assoc, append-nil,
}
use mathlib.Core.Path.{subst}
use flo_mimi.Value.{Value}
use flo_mimi.Command.{Command, Context}
use flo_mimi.Gateway.{
  Request, Reply, failed, answered, Client, should_publish_analytics, should_publish_email,
  publish_interaction, publish_analytics, publish_email, post_json, dispatch, receive, announce,
  inject_headers, analytics_payload, email_payload,
}
use flo_mimi.Gateway.Channels.{channels, channels-by_tests}

-- The client, with a log of the requests that it sends.
unfoldable pub logged : {W : Type 0} → Client W → Client (W × List Request)
logged client = record {
  build = client.build;
  send = λ request s. let r = client.send request s.0 in (r.0, (r.1, s.1 ++ (request ∷ [])));
  observe = λ route status s. (client.observe route status s.0, s.1);
}

-- The request of a channel, under a correlation ID.
abbrev pub request_of : Text → Text → Command → Text → Request
request_of base_url correlation_id c channel = record {
  method = codes "POST";
  url =
      base_url
      ++ (if same channel (codes "email")
          then codes "/events/email"
          else codes "/events/analytics");
  headers =
      (codes "Content-Type", codes "application/json")
      ∷ (codes "X-Correlation-ID", correlation_id)
      ∷ [];
  body = if same channel (codes "email") then email_payload c else analytics_payload c;
}

-- After a success the log has gained all requests that are wanted, after an error the first of them.
abbrev pub Logs :
    {A W : Type 0} → List Request → List Request → Result A × (W × List Request) → Type 0
Logs log wanted (ok a, (w, l)) = l ≡ log ++ wanted
Logs log wanted (err e, (w, l)) =
    (sent rest : List Request) × (wanted ≡ sent ++ rest) × (l ≡ log ++ sent)

module _ {A W : Type 0} (log first next : List Request) where
  Logs-append :
      (r : Result A × (W × List Request)) → Logs (log ++ first) next r → Logs log (first ++ next) r
  Logs-append (ok a, (w, l)) h = h ∙ append_assoc log first next
  Logs-append (err e, (w, l)) (sent, rest, part, h) = (
    first ++ sent,
    rest,
    ap (λ part. first ++ part) part ∙ sym (append_assoc first sent rest),
    h ∙ append_assoc log first sent,
  )

module _ {A B W : Type 0} (log first next : List Request) where
  -- What a call logs, and then the call that follows a success of it.
  Logs-continue :
      (r : Result B × (W × List Request)) (f : B → Action (W × List Request) A)
      → Logs log first r
      → ((b : B) (w : W) → Logs (log ++ first) next (f b (w, log ++ first)))
      → Logs log (first ++ next) (continue f r)
  Logs-continue (ok b, (w, l)) f h k =
      subst (λ l. Logs log (first ++ next) (f b (w, l))) (sym h)
        (Logs-append log first next (f b (w, log ++ first)) (k b w))
  Logs-continue (err e, (w, l)) f (sent, rest, part, h) k =
      (sent, rest ++ next, ap (λ first. first ++ next) part ∙ append_assoc sent rest next, h)

-- A result that is computed without a call.
pub continued-Logs :
    {A B W : Type 0} (log sent : List Request) (f : A → B) (r : Result A × (W × List Request))
    → Logs log sent r
    → Logs log sent (continue (λ a. pure (f a)) r)
continued-Logs log sent f (ok a, s) h = h
continued-Logs log sent f (err e, s) h = h

module _ {W : Type 0} (client : Client W) (log : List Request) where
  wrapped-Logs :
      {A : Type 0} (what : Text) (sent : List Request) (r : Result A × (W × List Request))
      → Logs log sent r
      → Logs log sent (wrapped what r)
  wrapped-Logs what sent (ok a, s) h = h
  wrapped-Logs what sent (err e, s) h = h

  receive-Logs :
      (path : Text) (request : Request) (reply : Reply) (w : W)
      → Logs log (request ∷ []) (receive (logged client) path (reply, (w, log ++ (request ∷ []))))
  unfolding receive logged
  receive-Logs path request (failed e) w = (request ∷ [], [], refl, refl)
  receive-Logs path request (answered code status body) w = elim (Bool-cases (leb 400 code)) [
    | inl refused ↦ rw refused (request ∷ [], [], refl, refl)
    | inr accepted ↦ rw accepted refl
  ]

  dispatch-Logs :
      (path : Text) (request : Request) (r : Result (Unit {0})) (w : W)
      → Logs log (request ∷ []) (dispatch (logged client) path request r (w, log))
  unfolding dispatch logged
  dispatch-Logs path request (ok _) w =
      receive-Logs path request (client.send request w).0 (client.send request w).1
  dispatch-Logs path request (err e) w = ([], request ∷ [], refl, sym (append-nil log))

module _ {W : Type 0} (client : Client W) (base_url : Text) (ctx : Context) (c : Command)
    (has_id : is_blank ctx.correlation_id ≡ false) where
  abbrev wanted : Text → Request
  wanted = request_of base_url ctx.correlation_id c

  announce-Logs :
      (what channel path : Text) (body : Value) (published : List Text) (log : List Request) (w : W)
      → wanted channel ≡ record {
        method = codes "POST";
        url = base_url ++ path;
        headers =
            (codes "Content-Type", codes "application/json")
            ∷ (codes "X-Correlation-ID", ctx.correlation_id)
            ∷ [];
        body = body;
      }
      → Logs log (wanted channel ∷ []) (
          announce
            (logged client)
            what
            channel
            published
            (post_json (logged client) base_url ctx path body)
            (w, log))
  unfolding announce post_json inject_headers
  announce-Logs what channel path body published log w e =
      rw (has_id, e)
        (Logs-continue log _ [] _ (λ _. pure (published ++ (channel ∷ [])))
          (wrapped-Logs client log what _ _ (dispatch-Logs client log path _ _ w))
          (λ _ v. sym (append-nil _)))

  analytics-Logs :
      (log : List Request) (w : W)
      → Logs log
          (if should_publish_analytics c then wanted (codes "analytics") ∷ [] else [])
          (publish_analytics (logged client) base_url ctx c [] (w, log))
  unfolding publish_analytics Text-discrete
  analytics-Logs log w = elim (Bool-cases (should_publish_analytics c)) [
    | inl e ↦ rw e (announce-Logs _ (codes "analytics") (codes "/events/analytics") _ [] log w refl)
    | inr e ↦ rw e (sym (append-nil log))
  ]

  email-Logs :
      (published : List Text) (log : List Request) (w : W)
      → Logs log
          (if should_publish_email c then wanted (codes "email") ∷ [] else [])
          (publish_email (logged client) base_url ctx c published (w, log))
  unfolding publish_email Text-discrete
  email-Logs published log w = elim (Bool-cases (should_publish_email c)) [
    | inl e ↦ rw e (announce-Logs _ (codes "email") (codes "/events/email") _ published log w refl)
    | inr e ↦ rw e (sym (append-nil log))
  ]

  wanted-channels :
      map wanted (channels c)
      ≡ (if should_publish_analytics c then wanted (codes "analytics") ∷ [] else [])
        ++ (if should_publish_email c then wanted (codes "email") ∷ [] else [])
  wanted-channels = elim (Bool-cases (should_publish_analytics c)) [
    | inl a ↦ elim (Bool-cases (should_publish_email c)) [
      | inl e ↦ rw (channels-by_tests client base_url ctx c, a, e) refl
      | inr e ↦ rw (channels-by_tests client base_url ctx c, a, e) refl
    ]
    | inr a ↦ elim (Bool-cases (should_publish_email c)) [
      | inl e ↦ rw (channels-by_tests client base_url ctx c, a, e) refl
      | inr e ↦ rw (channels-by_tests client base_url ctx c, a, e) refl
    ]
  ]

  -- Under a correlation ID that is not empty, the requests sent for an interaction are those of the
  -- channels of its kind, in order, each a JSON post of the channel's event with the ID in a header: all
  -- of them if the publication succeeds, and the first of them, none or all included, if it fails.
  pub publish-Logs :
      (log : List Request) (w : W)
      → Logs log
          (map wanted (channels c))
          (publish_interaction (logged client) base_url ctx c (w, log))
  unfolding publish_interaction
  publish-Logs log w = rw wanted-channels (
      Logs-continue log _ _ _ _ (analytics-Logs log w)
        (λ announced v. continued-Logs (log ++ _) _ _ _ (email-Logs announced (log ++ _) v)))
