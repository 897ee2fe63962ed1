-- ===== src/Content/Invariant/Commands.antt =====
-- Every command of the repository keeps the tables consistent.
use flo_mimi.Prelude.{true, false, Text, codes, same, Result, ok, err, Action}
use flo_mimi.Text.{trim_space}
use flo_mimi.Clock.{Time}
use flo_mimi.Command.{Command, Context}
use flo_mimi.Content.Schema.{Tables}
use flo_mimi.Content.Driver.{Driver, Session}
use flo_mimi.Content.Driver.Rules.{Meets, Post, Meets-bind, Meets-pure, Meets-wrapped, Meets-if}
use flo_mimi.Content.{apply, stored_as}
use package.flo_mimi.Content.Invariant.{
  IsConsistent, create_campaign-Meets, schedule_campaign-Meets,
}
use package.flo_mimi.Content.Invariant.Subscribers.{create_subscriber-Meets}

module _ (driver : Driver) (env : Text) where
  stored_as-Meets :
      (what : Text) (m : Action Session (Unit {0}))
      → Meets IsConsistent IsConsistent (λ _. IsConsistent) m
      → Meets IsConsistent IsConsistent (λ _. IsConsistent) (stored_as what m)
  unfolding stored_as
  stored_as-Meets what m h =
      Meets-bind _ _ (Meets-wrapped what m h) (λ _. Meets-pure true (λ t k. k))

  apply-Meets :
      (now : Time) (ctx : Context) (c : Command)
      → Meets IsConsistent IsConsistent (λ _. IsConsistent) (apply driver env now ctx c)
  unfolding apply
  apply-Meets now ctx c =
      let action = trim_space c.action in
      Meets-if (same action (codes "create-brief")) _ _
        (λ _. stored_as-Meets _ _ (create_campaign-Meets driver env c))
        (λ _.
          Meets-if (same action (codes "launch-test-send")) _ _
            (λ _. stored_as-Meets _ _ (schedule_campaign-Meets driver env c))
            (λ _.
              Meets-if (same action (codes "add-subscriber")) _ _
                (λ _. stored_as-Meets _ _ (create_subscriber-Meets driver env now c))
                (λ _. Meets-pure false (λ t k. k))))

Post-both :
    {A : Type 0} (P : Tables → Type 0) (r : Result A × Session) → Post P (λ _. P) r → P r.1.tables
Post-both P (ok a, s) h = h
Post-both P (err e, s) h = h

-- Whatever the command, whatever call fails and whatever constraint breaks, the tables stay
-- consistent: the keys and the display orders of campaigns, subscribers and filters stay unique within
-- each environment, and audiences in the range of their column.
pub apply-IsConsistent :
    (driver : Driver) (env : Text) (now : Time) (ctx : Context) (c : Command) (s : Session)
    → IsConsistent s.tables
    → IsConsistent (apply driver env now ctx c s).1.tables
apply-IsConsistent driver env now ctx c s k =
    Post-both IsConsistent _ ((apply-Meets driver env now ctx c).run s k)
