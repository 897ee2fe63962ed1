-- ===== src/Content/Campaigns/Refused.antt =====
-- A brief whose audience the column cannot hold.
use flo_mimi.Prelude.{ℕ, false, [], ◌≡◌, refl, arith, Text, same, Error, Result, ok, err}
use flo_mimi.Prelude.Int.{fits_int32}
use flo_mimi.Command.{Command}
use flo_mimi.Content.Schema.{Tables}
use flo_mimi.Content.Driver.{Driver, Session}
use flo_mimi.Content.Driver.Rules.{
  Meets, Post, Meets-bind, Meets-raise, Meets-wrapped, Meets-if, Meets-exec,
}
use flo_mimi.Content.Campaigns.{
  campaign_row, campaign_id_of, audience_of, create_campaign, display_order_of,
}
use flo_mimi.Content.Orders.{display_order_of-Meets}
use flo_mimi.Content.Invariant.{
  HasAudience, campaign_order, next_campaign_order, campaign_order-reads, next_campaign_order-reads,
  upsert_campaign-fits,
}

module _ (driver : Driver) (env : Text) (c : Command) (unfit : fits_int32 (audience_of c) ≡ false)
    (t₀ : Tables) where
  abbrev Same : Tables → Type 0
  Same t = t ≡ t₀

  row-unfit : (n : ℕ) → ¬ HasAudience (campaign_row env c n)
  unfolding campaign_row
  row-unfit n h = absurd (ground (arith, h, unfit))

  create_campaign-Meets : Meets Same Same (λ _ _. ⊥) (create_campaign driver env c)
  unfolding create_campaign
  create_campaign-Meets =
      Meets-if (same (campaign_id_of c) []) _ _ (λ _. Meets-raise _ (λ t k. k))
        (λ _.
          Meets-bind (display_order_of driver _ _) _
            (display_order_of-Meets driver Same (campaign_order env (campaign_id_of c))
              (next_campaign_order env) _ _ (campaign_order-reads env (campaign_id_of c))
              (next_campaign_order-reads env))
            (λ n.
              Meets-bind {Q = λ _ _. ⊥} _ _
                (Meets-wrapped _ _ (
                  Meets-exec driver _ (λ t h. h.0)
                    (λ _ t a t' h e.
                      row-unfit n (upsert_campaign-fits (campaign_row env c n) t a t' e))))
                (λ _.
                  Meets-wrapped _ _
                    (Meets-exec driver _ (λ t h. absurd h) (λ _ t a t' h e. absurd h)))))

-- If the audience of a command is out of the range of its column, createCampaign returns an error and
-- leaves the tables as they were.
pub create_campaign-unfit :
    (driver : Driver) (env : Text) (c : Command) (s : Session)
    → fits_int32 (audience_of c) ≡ false
    → (e : Error) × (s' : Session) × (create_campaign driver env c s ≡ (err e, s'))
      × (s'.tables ≡ s.tables)
create_campaign-unfit driver env c s unfit =
    by_result (create_campaign driver env c s)
      ((create_campaign-Meets driver env c unfit s.tables).run s refl) refl
  where
    by_result :
        (r : Result (Unit {0}) × Session)
        → Post (λ t. t ≡ s.tables) (λ _ _. ⊥) r
        → create_campaign driver env c s ≡ r
        → (e : Error) × (s' : Session) × (create_campaign driver env c s ≡ (err e, s'))
          × (s'.tables ≡ s.tables)
    by_result (ok u, s') h k = absurd h
    by_result (err e, s') h k = (e, s', k, h)
