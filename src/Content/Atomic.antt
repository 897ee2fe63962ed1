-- ===== src/Content/Atomic.antt =====
-- Which commands change the tables, and that a failed one leaves no subscriber half written.
use flo_mimi.Prelude.{
  Bool, true, false, ◌||◌, ◌≡◌, refl, arith, Text, codes, same, Error, Result, ok, err, Action,
  wrapped, continue, pure,
}
use mathlib.Core.Path.{subst}
use flo_mimi.Text.{trim_space}
use flo_mimi.Clock.{Time}
use flo_mimi.Command.{Command, Context}
use flo_mimi.Content.Driver.{Driver, Session, transact}
use flo_mimi.Content.Driver.Rules.{Post, Meets-transact}
use flo_mimi.Content.Campaigns.{create_campaign, schedule_campaign}
use flo_mimi.Content.Subscribers.{create_subscriber}
use flo_mimi.Content.{apply, stored_as}

Post-any : {A : Type 0} (r : Result A × Session) → Post (λ _. Unit {0}) (λ _ _. Unit {0}) r
Post-any (ok a, s) = tt
Post-any (err e, s) = tt

transact-atomic :
    {A : Type 0} (driver : Driver) (body : Action Session A) (s : Session) {e : Error}
    {s' : Session}
    → transact driver body s ≡ (err e, s')
    → s'.tables ≡ s.tables
transact-atomic {A} driver body s {e} {s'} h =
    subst (Post (λ t. t ≡ s.tables) (λ _ _. Unit {0})) h (
      (Meets-transact {P = λ t. t ≡ s.tables} {Q = λ _ _. Unit {0}} driver body
          (record { run = λ s₁ p. Post-any (body s₁) })).run
        s refl)

-- A subscriber is stored whole or not at all: whatever call fails, and whatever constraint breaks,
-- an error leaves every table as it was.
pub create_subscriber-atomic :
    (driver : Driver) (env : Text) (now : Time) (c : Command) (s : Session) {e : Error}
    {s' : Session}
    → create_subscriber driver env now c s ≡ (err e, s')
    → s'.tables ≡ s.tables
unfolding create_subscriber
create_subscriber-atomic driver env now c s h = transact-atomic driver _ s h

-- The actions that change the tables.
abbrev pub is_mutation : Command → Bool
is_mutation c =
    same (trim_space c.action) (codes "create-brief")
    || same (trim_space c.action) (codes "launch-test-send")
    || same (trim_space c.action) (codes "add-subscriber")

stored_as-ok :
    (what : Text) (m : Action Session (Unit {0})) (s : Session) (b : Bool) (s' : Session)
    → stored_as what m s ≡ (ok b, s')
    → b ≡ true
unfolding stored_as
stored_as-ok what m s b s' h = answered (m s) h
  where
    answered :
        (r : Result (Unit {0}) × Session) {b : Bool} {s' : Session}
        → continue (λ _. pure true) (wrapped what r) ≡ (ok b, s')
        → b ≡ true
    answered (ok u, s₁) h = ground arith
    answered (err e, s₁) h = cc

-- The answer says exactly whether the action is one of the three, and on any other the repository
-- makes no call at all.
pub apply-is_mutation :
    (driver : Driver) (env : Text) (now : Time) (ctx : Context) (c : Command) (s : Session)
    {b : Bool} {s' : Session}
    → apply driver env now ctx c s ≡ (ok b, s')
    → (b ≡ is_mutation c) × (is_mutation c ≡ false → s' ≡ s)
unfolding apply
apply-is_mutation driver env now ctx c s {b} {s'} h = ground (
  arith,
  stored_as-ok (codes "store campaign brief") (create_campaign driver env c) s b s',
  stored_as-ok (codes "update campaign draft") (schedule_campaign driver env c) s b s',
  stored_as-ok (codes "store subscriber") (create_subscriber driver env now c) s b s',
)
