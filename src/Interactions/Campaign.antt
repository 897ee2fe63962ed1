-- ===== src/Interactions/Campaign.antt =====
-- The campaign that `deriveCampaignID` finds.
use flo_mimi.Prelude.{
  ℕ, ◌≤◌, ap, sym, Text-discrete, Bool, true, false, [], ◌∷◌, ◌≡◌, ◌≢◌, refl, arith, Text, codes,
  same, length, length-append, All, All-append, All-mono,
}
use mathlib.Core.Logic.{dite}
use flo_mimi.Text.{trim_space, is_space}
use flo_mimi.Text.Trim.{trim_space_id, trim_space-trim_space, All-IsTrimmed}
use flo_mimi.Slug.{slugify}
use flo_mimi.Slug.Shape.{slugify-IsSlug, is_space-SlugRune}
use flo_mimi.Clock.{Time, compact, digit}
use flo_mimi.Command.{Command}
use flo_mimi.Interactions.{is_campaign_placeholder, build_campaign_id, derive_campaign_id}

abbrev NoSpace : ℕ → Type 0
NoSpace c = is_space c ≡ false

digit-NoSpace : (n : ℕ) → NoSpace (digit n)
unfolding is_space
digit-NoSpace n = ground arith

hyphen-NoSpace : NoSpace b'-'
unfolding is_space
hyphen-NoSpace = refl

compact-NoSpace : (t : Time) → All NoSpace (compact t)
unfolding compact
compact-NoSpace t = search digit-NoSpace

build_campaign_id-NoSpace :
    (action : Text) (now : Time) → All NoSpace (build_campaign_id action now)
unfolding build_campaign_id
build_campaign_id-NoSpace action now =
    All-append _ (slugify action) _ (All-mono is_space-SlugRune _ (slugify-IsSlug action).runes)
      (hyphen-NoSpace, compact-NoSpace now)

length-build_campaign_id : (action : Text) (now : Time) → 15 ≤ length (build_campaign_id action now)
unfolding build_campaign_id compact
length-build_campaign_id action now =
    omega (arith, length-append (slugify action) (b'-' ∷ compact now))

same_of_length : (s t : Text) → length t ≢ length s → same s t ≡ false
same_of_length s t h =
    elim (Text-discrete s t) as (λ d. (dite {C = Bool} d (λ x. true) (λ x. false)) ≡ false) [
      | yes p ↦ absurd (h (ap length (sym p)))
      | no n ↦ refl
    ]

build-not_placeholder :
    (action : Text) (now : Time) → is_campaign_placeholder (build_campaign_id action now) ≡ false
unfolding is_campaign_placeholder
build-not_placeholder action now =
    let built = build_campaign_id action now in
    rw (trim_space_id built (All-IsTrimmed is_space built (build_campaign_id-NoSpace action now))) (
      ground (
        arith,
        same_of_length built [] (omega (arith, length-build_campaign_id action now)),
        same_of_length built (codes "new-brief")
            (omega (arith, length-build_campaign_id action now)),
        same_of_length built (codes "new-campaign")
            (omega (arith, length-build_campaign_id action now)),
      ))

trimmed-is_campaign_placeholder :
    (s : Text) → is_campaign_placeholder (trim_space s) ≡ is_campaign_placeholder s
unfolding is_campaign_placeholder
trimmed-is_campaign_placeholder s = rw trim_space-trim_space

derive-is_campaign_placeholder :
    (c : Command) (now : Time)
    → trim_space c.campaign_id ≡ []
    → is_campaign_placeholder (derive_campaign_id c now) ≡ false
unfolding derive_campaign_id
derive-is_campaign_placeholder c now h =
    ground (arith, build-not_placeholder c.action now, trimmed-is_campaign_placeholder c.subject_id)

placeholder-apart :
    (id : Text)
    → is_campaign_placeholder id ≡ false
    → (trim_space id ≢ [])
      × (trim_space id ≢ codes "new-brief")
      × (trim_space id ≢ codes "new-campaign")
unfolding is_campaign_placeholder
placeholder-apart id h =
    (λ e. ground (arith, e, h), (λ e. ground (arith, e, h)), (λ e. ground (arith, e, h)))

-- A campaign derived for a command that has none is not empty and, spaces around it aside, neither
-- "new-brief" nor "new-campaign".
pub derive-not_placeholder :
    (c : Command) (now : Time)
    → trim_space c.campaign_id ≡ []
    → (trim_space (derive_campaign_id c now) ≢ [])
      × (trim_space (derive_campaign_id c now) ≢ codes "new-brief")
      × (trim_space (derive_campaign_id c now) ≢ codes "new-campaign")
derive-not_placeholder c now h =
    placeholder-apart (derive_campaign_id c now) (derive-is_campaign_placeholder c now h)
