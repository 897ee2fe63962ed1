-- ===== src/Content.antt =====
-- platform/internal/adapters/content/repository.go: the appdb repository, which applies the
-- commands that change the platform tables.
pub mod Metadata
pub mod Table
pub mod Schema
pub mod Driver
pub mod Campaigns
pub mod Subscribers
pub mod Atomic
pub mod Orders
pub mod Invariant
pub mod Race
pub mod Connection
pub mod View
pub mod Tests
use flo_mimi.Prelude.{
  Bool, true, false, Text, codes, same, if◌then◌else◌, Result, Action, wrapped, continue, pure,
}
use flo_mimi.Text.{trim_space}
use flo_mimi.Clock.{Time}
use flo_mimi.Command.{Command, Context, MutationStore}
use Driver
use Campaigns.{create_campaign, schedule_campaign}
use Subscribers.{create_subscriber}

-- A stored command, with its error in context.
unfoldable pub stored_as : Text → Action Driver.Session (Unit {0}) → Action Driver.Session Bool
stored_as what m s = continue (λ _. pure true) (wrapped what (m s))

-- The switch on the action. `now` is what `time.Now` gives, should a subscriber need an ID.
unfoldable pub apply : Driver.Driver → Text → Time → Context → Command → Action Driver.Session Bool
apply driver env now ctx c =
    let action = trim_space c.action in
    if same action (codes "create-brief")
    then stored_as (codes "store campaign brief") (create_campaign driver env c)
    else if same action (codes "launch-test-send")
    then stored_as (codes "update campaign draft") (schedule_campaign driver env c)
    else if same action (codes "add-subscriber")
    then stored_as (codes "store subscriber") (create_subscriber driver env now c)
    else pure false

-- AppDBRepository as the port of the service.
unfoldable pub app_db_repository : Driver.Driver → Text → Time → MutationStore Driver.Session
app_db_repository driver env now = record { apply = apply driver env now }
