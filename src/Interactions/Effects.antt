-- ===== src/Interactions/Effects.antt =====
-- The state that `Service.Record` leaves: that of its ports.
use flo_mimi.Prelude.{
  Bool, false, some, ◌≡◌, arith, is_blank, ok, err, Error, Result, pure, continue, ◌>>=◌,
}
use flo_mimi.Prelude.Effects.{Keeps, Keeps-bind, Keeps-pure}
use flo_mimi.Text.{trim_space}
use flo_mimi.Command.{Command, Context, EventSink, MutationStore}
use flo_mimi.Interactions.{Ambient, normalize, respond, record_interaction}
use flo_mimi.Interactions.Recording.{is_refused}

module _ {W : Type 0} (P : W → Type 0) (store : MutationStore W) (sink : EventSink W) (a : Ambient)
    (ctx : Context) (c : Command) (w : W) where
  published-keeps :
      (r : Result Bool × W)
      → ((c' : Command) → Keeps P (sink.publish_interaction ctx c'))
      → P r.1
      → P
          (continue
            (λ stored.
              ◌>>=◌
                (sink.publish_interaction ctx (normalize a c))
                (λ result. pure (respond a ctx (normalize a c) stored result)))
            r).1
  published-keeps (ok stored, w') k h =
      (Keeps-bind (sink.publish_interaction ctx (normalize a c))
          (λ result. pure (respond a ctx (normalize a c) stored result)) (k (normalize a c))
          (λ result. Keeps-pure (respond a ctx (normalize a c) stored result))).run
        w' h
  published-keeps (err e, w') k h = h

  -- A command that is not refused leaves what the store leaves, as far as the sink keeps it.
  pub record_interaction-keeps :
      is_refused c ≡ false
      → ((c' : Command) → Keeps P (sink.publish_interaction ctx c'))
      → P (store.apply ctx (normalize a c) w).1
      → P (record_interaction (some store) sink a ctx c w).1
  unfolding record_interaction
  record_interaction-keeps accepted k h =
      let surface : is_blank (trim_space c.surface) ≡ false = ground arith in
      let action : is_blank (trim_space c.action) ≡ false = ground arith in
      rw (surface, action) (published-keeps (store.apply ctx (normalize a c) w) k h)

  -- A failing sink ends the call: its error is the answer, whatever was stored before.
  pub record_interaction-unpublished :
      {stored : Bool} {w' w'' : W} {e : Error}
      → is_refused c ≡ false
      → store.apply ctx (normalize a c) w ≡ (ok stored, w')
      → sink.publish_interaction ctx (normalize a c) w' ≡ (err e, w'')
      → record_interaction (some store) sink a ctx c w ≡ (err e, w'')
  unfolding record_interaction
  record_interaction-unpublished accepted applied failed = ground arith
