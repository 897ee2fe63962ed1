-- ===== src/Content/View/Tests.antt =====
-- The view on small tables, and a command that the tables cannot hold.
use native.Mathlib.Decide.{dec_le}
use mathlib.Core.Path.{subst}
use flo_mimi.Prelude.{sym, arith, ◌≢◌, [], ◌∷◌, ◌≡◌, false, refl, codes, Error, err, Text-discrete}
use flo_mimi.Prelude.Int.{pos, fits_int32}
use flo_mimi.Value.{float64, done, field}
use flo_mimi.Command.{Command}
use flo_mimi.Content.Schema.{Tables, Campaign}
use flo_mimi.Content.Driver.{Session}
use flo_mimi.Content.Campaigns.{audience_of, create_campaign}
use flo_mimi.Content.Campaigns.Refused.{create_campaign-unfit}
use flo_mimi.Content.Invariant.{IsConsistent}
use flo_mimi.Content.View.{IsListed, listed}
use flo_mimi.Content.View.Campaigns.{listed-IsListed, IsListed-unique}
use flo_mimi.Content.Tests.{calm, local, command, old_campaign, start}

abbrev new_campaign : Campaign
new_campaign = record old_campaign { campaign_id = codes "autumn"; display_order = 2 }

abbrev elsewhere : Campaign
elsewhere = record old_campaign { environment = codes "staging" }

abbrev tables : Tables
tables = record start.tables {
  campaigns = old_campaign ∷ elsewhere ∷ new_campaign ∷ [];
  environments = local ∷ codes "staging" ∷ [];
}

shown_first : listed local tables ≡ new_campaign ∷ old_campaign ∷ []
unfolding listed Text-discrete dec_le
shown_first = refl

local-ne : local ≢ codes "staging"
local-ne = λ e. ground (arith, e)

spring-ne : codes "spring" ≢ codes "autumn"
spring-ne = λ e. ground (arith, e)

tables-IsConsistent : IsConsistent tables
tables-IsConsistent = record {
  campaign_keys =
      ((λ e f. local-ne e, (λ e f. spring-ne f, tt)), ((λ e f. local-ne (sym e), tt), (tt, tt)));
  campaign_orders = (
    (λ e f. local-ne e, (λ e f. ground (arith, f), tt)),
    ((λ e f. local-ne (sym e), tt), (tt, tt)),
  );
  subscriber_keys = tt;
  subscriber_orders = tt;
  filter_keys = tt;
  filter_orders = tt;
  audiences = (refl, (refl, (refl, tt)));
}

IsListed-unique_example : new_campaign ∷ old_campaign ∷ [] ≡ listed local tables
IsListed-unique_example =
    IsListed-unique local tables tables-IsConsistent (new_campaign ∷ old_campaign ∷ [])
      (subst (IsListed local tables) shown_first (listed-IsListed local tables))

-- An audience of 3 · 10 ^ 9.
abbrev crowd : Command
crowd = command (codes "create-brief") (
    field (codes "audienceCount")
      (float64 (record { negative = false; mantissa = 3000000000; exponent = pos 0 })) done)

crowd-unfit : fits_int32 (audience_of crowd) ≡ false
unfolding audience_of Text-discrete
crowd-unfit = refl

create_campaign-unfit_example :
    (e : Error) × (s' : Session) × (create_campaign calm local crowd start ≡ (err e, s'))
    × (s'.tables ≡ start.tables)
create_campaign-unfit_example = create_campaign-unfit calm local crowd start crowd-unfit
