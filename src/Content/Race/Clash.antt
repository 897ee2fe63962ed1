-- ===== src/Content/Race/Clash.antt =====
-- What interleaved commands can break: the places of the display order.
use flo_mimi.Prelude.{true, false, [], ◌∷◌, none, some, ◌≡◌, ◌≢◌, refl, sym, ap, ◌∙◌, Text}
use flo_mimi.Prelude.Int.{fits_int32}
use flo_mimi.Command.{Command}
use flo_mimi.Content.Table.{find}
use flo_mimi.Content.Table.Unique.{IsUnique, IsUnique-find}
use flo_mimi.Content.Schema.{Tables, Campaign, contains, is_campaign}
use flo_mimi.Content.Campaigns.{audience_of, campaign_id_of, campaign_row}
use flo_mimi.Content.Invariant.{with_campaign, next_campaign_order}
use flo_mimi.Content.Race.{
  Stage, looking, choosing, writing, seeding, stored, creates, advance, is_finished, System, Step,
  Steps, here, next,
}
use flo_mimi.Content.Race.Calls.{
  added, others_stay, creates-looking, advance-looking, advance-choosing, advance-writing,
  advance-seeding, tasks-Step, with_statistics,
}

-- Two commands in flight.
abbrev pub pair : Command → Command → Stage → Stage → Tables → System
pair c d p q u = record {
  tables = u;
  tasks = record { command = c; stage = p } ∷ record { command = d; stage = q } ∷ [];
}

module _ (env : Text) (c d : Command) (t : Tables) where
  left-Step :
      (q : Stage) {p p' : Stage} {u u' : Tables}
      → is_finished p ≡ false
      → advance env c p none 0 u ≡ (p', u')
      → Step env (pair c d p q u) (pair c d p' q u')
  left-Step q {p = p} {u = u} b e =
      tasks-Step env [] (record { command = c; stage = p }) (record { command = d; stage = q } ∷ [])
        u b e

  right-Step :
      (p : Stage) {q q' : Stage} {u u' : Tables}
      → is_finished q ≡ false
      → advance env d q none 0 u ≡ (q', u')
      → Step env (pair c d p q u) (pair c d p q' u')
  right-Step p {q = q} {u = u} b e =
      tasks-Step env (record { command = c; stage = p } ∷ []) (record { command = d; stage = q }) []
        u b e

  -- Both rows, with the order that both commands have read.
  row : Command → Campaign
  row x = campaign_row env x (next_campaign_order env t)

  after_left : Tables
  after_left = with_campaign (row c) t

  after_both : Tables
  after_both = with_campaign (row d) after_left

  at_end : Tables
  at_end = with_statistics env 0 d (with_statistics env 0 c after_both)

  row-key : (x : Command) → ((row x).environment ≡ env) × ((row x).campaign_id ≡ campaign_id_of x)
  unfolding row campaign_row
  row-key x = (refl, refl)

  row-order : (x : Command) → (row x).display_order ≡ next_campaign_order env t
  unfolding row campaign_row
  row-order x = refl

  module _ (known : contains env t.environments ≡ true)
      (different : campaign_id_of c ≢ campaign_id_of d)
      (no_left : find (is_campaign env (campaign_id_of c)) t.campaigns ≡ none)
      (no_right : find (is_campaign env (campaign_id_of d)) t.campaigns ≡ none) where
    left_row : find (is_campaign env (campaign_id_of c)) after_both.campaigns ≡ some (row c)
    unfolding after_left after_both
    left_row =
        others_stay (row d) after_left env (campaign_id_of d) (campaign_id_of c) (row-key d).0
          (row-key d).1 (λ q. different (sym q))
        ∙ added (row c) t env (campaign_id_of c) (row-key c).0 (row-key c).1 no_left

    right_row : find (is_campaign env (campaign_id_of d)) after_both.campaigns ≡ some (row d)
    unfolding after_left after_both
    right_row = added (row d) after_left env (campaign_id_of d) (row-key d).0 (row-key d).1 (
        others_stay (row c) t env (campaign_id_of c) (campaign_id_of d) (row-key c).0 (row-key c).1
          different
        ∙ no_right)

    orders_clash :
        ¬ IsUnique (λ (r : Campaign). r.environment) (λ r. r.display_order) at_end.campaigns
    unfolding at_end with_statistics
    orders_clash u =
        let one_row =
          IsUnique-find _ _ _ _ after_both.campaigns u left_row right_row
            ((row-key c).0 ∙ sym (row-key d).0) (row-order c ∙ sym (row-order d)) in
        different (sym (row-key c).1 ∙ ap (λ r. r.campaign_id) one_row ∙ (row-key d).1)

    schedule :
        fits_int32 (audience_of c) ≡ true
        → fits_int32 (audience_of d) ≡ true
        → Steps env 8 (pair c d looking looking t) (pair c d stored stored at_end)
    unfolding at_end with_statistics after_both after_left row
    schedule fits_left fits_right =
        next (left-Step looking refl (advance-looking env c t no_left)) (
          next (right-Step choosing refl (advance-looking env d t no_right)) (
            next (left-Step choosing refl (advance-choosing env c t)) (
              next
                (right-Step (writing (next_campaign_order env t)) refl (advance-choosing env d t))
                (next
                  (left-Step (writing (next_campaign_order env t)) refl
                    (advance-writing env c (next_campaign_order env t) t known fits_left))
                  (next
                    (right-Step seeding refl (
                      advance-writing env d (next_campaign_order env t) after_left known
                        fits_right))
                    (next (left-Step seeding refl (advance-seeding env c after_both known left_row))
                      (next
                        (right-Step stored refl (
                          advance-seeding env d (with_statistics env 0 c after_both) known
                            right_row))
                        here)))))))

-- In a known environment, two commands that create different campaigns, neither of them there yet and
-- both with an audience in the range of its column, can interleave so that both succeed and the two
-- campaigns share their place in the display order.
pub orders_may_clash :
    (env : Text) (c d : Command) (t : Tables)
    → contains env t.environments ≡ true
    → fits_int32 (audience_of c) ≡ true
    → fits_int32 (audience_of d) ≡ true
    → campaign_id_of c ≢ []
    → campaign_id_of d ≢ []
    → campaign_id_of c ≢ campaign_id_of d
    → find (is_campaign env (campaign_id_of c)) t.campaigns ≡ none
    → find (is_campaign env (campaign_id_of d)) t.campaigns ≡ none
    → (t' : Tables) × Steps env 8
        (pair c d (creates env c) (creates env d) t)
        (pair c d stored stored t')
      × ¬ IsUnique (λ (r : Campaign). r.environment) (λ r. r.display_order) t'.campaigns
orders_may_clash env c d t known fits_c fits_d has_c has_d different no_c no_d = (
  at_end env c d t,
  rw (creates-looking env c has_c, creates-looking env d has_d)
      (schedule env c d t known different no_c no_d fits_c fits_d),
  orders_clash env c d t known different no_c no_d,
)
