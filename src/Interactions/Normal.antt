-- ===== src/Interactions/Normal.antt =====
-- What the service completes in a command: the invariant of the commands that it stores and
-- publishes, and that such a command is left alone.
use flo_mimi.Prelude.{ℕ, true, false, [], ◌∷◌, ◌++◌, none, ◌≡◌, ◌≢◌, refl, arith, Text, codes, same}
use flo_mimi.Clock.{new_id, bytes, failed}
use flo_mimi.Command.{Command}
use flo_mimi.Slug
use flo_mimi.Clock
use flo_mimi.Interactions

pub record IsNormal (c : Command) : Type 0 where
  pub session : c.session_id ≢ []
  pub user : c.user_id ≢ []
  pub route : c.route ≢ []
  pub kind : c.event_kind ≢ []
  pub metadata : c.metadata ≢ none
  pub campaign : Interactions.requires_campaign_identity c ≡ true → c.campaign_id ≢ []
  pub subject :
      same c.action (codes "create-brief") ≡ true
      → Interactions.is_campaign_placeholder c.subject_id ≡ true
      → c.subject_id ≡ c.campaign_id

append-cons-ne-nil : (s : Text) (c : ℕ) (t : Text) → s ++ (c ∷ t) ≢ []
append-cons-ne-nil [] c t = λ h. cc
append-cons-ne-nil (d ∷ s) c t = λ h. cc

new_id-ne-nil : (prefix : Text) (e : _) → new_id prefix e ≢ []
unfolding new_id
new_id-ne-nil prefix (bytes b) = append-cons-ne-nil prefix _ _
new_id-ne-nil prefix (failed n) = append-cons-ne-nil prefix _ _

-- The campaign that a command is given when it has none.
derive_campaign_id-ne-nil : (c : Command) (now : _) → Interactions.derive_campaign_id c now ≢ []
unfolding Interactions.derive_campaign_id
derive_campaign_id-ne-nil c now =
    ground (arith, append-cons-ne-nil (Slug.slugify c.action) b'-' (Clock.compact now))

-- Neither the campaign nor the subject ID decides whether a campaign is needed.
requires-with_subject :
    (c : Command)
    → Interactions.requires_campaign_identity (Interactions.with_subject c)
      ≡ Interactions.requires_campaign_identity c
unfolding Interactions.requires_campaign_identity Interactions.with_subject
requires-with_subject c = ground arith

requires-with_campaign_id :
    (a : Interactions.Ambient) (c : Command)
    → Interactions.requires_campaign_identity (Interactions.with_campaign_id a c)
      ≡ Interactions.requires_campaign_identity c
unfolding Interactions.with_campaign_id
requires-with_campaign_id a c = ground (arith, requires-set_campaign_id c)
  where
    requires-set_campaign_id :
        (d : Command)
        → Interactions.requires_campaign_identity
            (record d { campaign_id = Interactions.derive_campaign_id d a.derived_at })
          ≡ Interactions.requires_campaign_identity d
    requires-set_campaign_id d = unfold Interactions.requires_campaign_identity in refl

with_subject-campaign_id : (c : Command) → (Interactions.with_subject c).campaign_id ≡ c.campaign_id
unfolding Interactions.with_subject
with_subject-campaign_id c = ground arith

with_campaign_id-ne-nil :
    (a : Interactions.Ambient) (c : Command)
    → Interactions.requires_campaign_identity c ≡ true
    → (Interactions.with_campaign_id a c).campaign_id ≢ []
unfolding Interactions.with_campaign_id
with_campaign_id-ne-nil a c h = ground (arith, derive_campaign_id-ne-nil c a.derived_at)

normalize-campaign :
    (a : Interactions.Ambient) (c : Command)
    → Interactions.requires_campaign_identity (Interactions.normalize a c) ≡ true
    → (Interactions.normalize a c).campaign_id ≢ []
unfolding Interactions.normalize
normalize-campaign a c h = rw with_subject-campaign_id (
    with_campaign_id-ne-nil a (Interactions.with_defaults a c)
      (rw (requires-with_subject, requires-with_campaign_id) at h))

-- Every command that the service passes on is normal.
pub normalize-IsNormal :
    (a : Interactions.Ambient) (c : Command) → IsNormal (Interactions.normalize a c)
unfolding Interactions.normalize Interactions.with_defaults Interactions.with_campaign_id
    Interactions.with_subject
normalize-IsNormal a c = record {
  session = ground (arith, new_id-ne-nil (codes "session") a.session_entropy);
  user = ground arith;
  route = ground arith;
  kind = ground arith;
  metadata = ground arith;
  campaign = normalize-campaign a c;
  subject = ground arith;
}

with_defaults_id :
    (a : Interactions.Ambient) (c : Command) → IsNormal c → Interactions.with_defaults a c ≡ c
unfolding Interactions.with_defaults
with_defaults_id a c n = ground arith

with_campaign_id_id :
    (a : Interactions.Ambient) (c : Command) → IsNormal c → Interactions.with_campaign_id a c ≡ c
unfolding Interactions.with_campaign_id
with_campaign_id_id a c n = ground (arith, n.campaign)

with_subject_id : (c : Command) → IsNormal c → Interactions.with_subject c ≡ c
unfolding Interactions.with_subject
with_subject_id c n = ground (arith, n.subject)

-- A normal command passes through unchanged, whatever the clock and the random source give.
pub normalize_id :
    (a : Interactions.Ambient) (c : Command) → IsNormal c → Interactions.normalize a c ≡ c
unfolding Interactions.normalize
normalize_id a c n = rw (with_defaults_id a c n, with_campaign_id_id a c n, with_subject_id c n)

-- Completing a command twice, at any two moments, is completing it once.
pub normalize-normalize :
    (a b : Interactions.Ambient) (c : Command)
    → Interactions.normalize b (Interactions.normalize a c) ≡ Interactions.normalize a c
normalize-normalize a b c = normalize_id b (Interactions.normalize a c) (normalize-IsNormal a c)

-- What the caller gave is kept: the checked fields always, and the others when they are not blank.
pub record Keeps (c d : Command) : Type 0 where
  pub surface : d.surface ≡ c.surface
  pub action : d.action ≡ c.action
  pub subject_type : d.subject_type ≡ c.subject_type
  pub recipient_id : d.recipient_id ≡ c.recipient_id
  pub session_id : c.session_id ≢ [] → d.session_id ≡ c.session_id
  pub user_id : c.user_id ≢ [] → d.user_id ≡ c.user_id
  pub route : c.route ≢ [] → d.route ≡ c.route
  pub event_kind : c.event_kind ≢ [] → d.event_kind ≡ c.event_kind
  pub campaign_id : c.campaign_id ≢ [] → d.campaign_id ≡ c.campaign_id
  pub subject_id :
      Interactions.is_campaign_placeholder c.subject_id ≡ false → d.subject_id ≡ c.subject_id
  pub metadata : c.metadata ≢ none → d.metadata ≡ c.metadata

-- The completion keeps the surface, the action, the subject type and the recipient, and every other
-- field that the caller filled (the subject ID where it is no placeholder).
pub normalize-Keeps :
    (a : Interactions.Ambient) (c : Command) → Keeps c (Interactions.normalize a c)
unfolding Interactions.normalize Interactions.with_defaults Interactions.with_campaign_id
    Interactions.with_subject
normalize-Keeps a c = ground arith
