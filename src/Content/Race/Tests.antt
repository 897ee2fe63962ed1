-- ===== src/Content/Race/Tests.antt =====
-- Commands on campaigns that are handled at once, on small tables.
use flo_mimi.Prelude.{[], ◌∷◌, none, some, ◌≡◌, refl, arith, Text, codes, Text-discrete}
use flo_mimi.Text.{trim_space}
use flo_mimi.Command.{Command}
use flo_mimi.Content.Table.{find}
use flo_mimi.Content.Table.Unique.{IsUnique}
use flo_mimi.Content.Schema
use flo_mimi.Content.Schema.{Tables, Campaign, is_campaign}
use flo_mimi.Content.Campaigns.{audience_of, campaign_id_of, create_campaign}
use flo_mimi.Content.Tests.{calm, local, start, brief, broken}
use flo_mimi.Content.Race.{stored, creates, advance, System, Steps, here, next, moves}
use flo_mimi.Content.Race.Solo.{solo, ended, solo-create_campaign}
use flo_mimi.Content.Race.Present.{IsPresent}
use flo_mimi.Content.Race.Backed.{Steps-AllBacked}
use flo_mimi.Content.Race.Clash.{pair, orders_may_clash}

abbrev winter : Command
winter = record brief { campaign_id = codes "winter" }

brief-id : campaign_id_of brief ≡ codes "autumn"
unfolding campaign_id_of trim_space
brief-id = refl

winter-id : campaign_id_of winter ≡ codes "winter"
unfolding campaign_id_of trim_space
winter-id = refl

not_there :
    (c : Command) (id : Text)
    → campaign_id_of c ≡ id
    → find (is_campaign local id) start.tables.campaigns ≡ none
    → find (is_campaign local (campaign_id_of c)) start.tables.campaigns ≡ none
not_there c id e h = rw e h

orders_may_clash_example :
    (t' : Tables) × Steps local 8
      (pair brief winter (creates local brief) (creates local winter) start.tables)
      (pair brief winter stored stored t')
    × ¬ IsUnique (λ (r : Campaign). r.environment) (λ r. r.display_order) t'.campaigns
unfolding campaign_id_of trim_space Schema.contains find Text-discrete audience_of
orders_may_clash_example =
    orders_may_clash local brief winter start.tables refl refl refl (ground arith) (ground arith)
      (ground arith) refl refl

solo-create_campaign_example :
    solo calm local brief 4 (creates local brief) start
    ≡ ended calm local brief (create_campaign calm local brief start)
solo-create_campaign_example = solo-create_campaign calm local brief start

-- Two briefs, of which the first looks its campaign up, or finds the connection broken.
abbrev meeting : System
meeting = pair brief winter (creates local brief) (creates local winter) start.tables

abbrev looked_up : System
looked_up =
    pair brief winter (advance local brief (creates local brief) (some broken) 0 start.tables).0
      (creates local winter) start.tables

lookup : Steps local 1 meeting looked_up
unfolding advance creates campaign_id_of trim_space Text-discrete
lookup =
    next
      (moves [] (record { command = brief; stage = creates local brief })
        (record { command = winter; stage = creates local winter } ∷ []) (some broken) 0 refl refl
        refl refl)
      here

-- Both briefs end well.
both_stored :
    (t' : Tables) × Steps local 8 meeting (pair brief winter stored stored t')
    × ¬ IsUnique (λ (r : Campaign). r.environment) (λ r. r.display_order) t'.campaigns
unfolding campaign_id_of trim_space Schema.contains find Text-discrete audience_of
both_stored =
    orders_may_clash local brief winter start.tables refl refl refl (ground arith) (ground arith)
      (ground arith) refl refl

Steps-AllBacked_example :
    IsPresent local brief both_stored.0 × (IsPresent local winter both_stored.0 × Unit {0})
unfolding creates campaign_id_of trim_space Text-discrete
Steps-AllBacked_example = Steps-AllBacked both_stored.1 (tt, (tt, tt))
