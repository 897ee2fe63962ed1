-- ===== src/Content/View/Campaigns.antt =====
-- Which campaigns are shown, and where.
use flo_mimi.Prelude.{
  ◌↔◌, Bool, true, [], ◌∷◌, ◌≡◌, sym, ap, ◌∙◌, inl, inr, arith, List, some, Text, Text-discrete,
  All, Bool-cases, some-same,
}
use flo_mimi.Prelude.Sorted.{IsAscending-eq_of_perm, sort_by-perm, sort_by-IsAscending}
use mathlib.Core.Path.{subst}
use mathlib.Core.Logic.Or
use mathlib.Core.List.{
  Mem, mem-filter, mem-cons_self, mem-cons_of_mem, eq-or-mem_of_mem-cons, mem-map_of_mem,
  not-mem-nil,
}
use mathlib.Core.List.Perm
use flo_mimi.Content.Table.{find}
use flo_mimi.Content.Table.Unique.{IsUnique, Apart}
use flo_mimi.Content.Schema.{Tables, Campaign, is_campaign}
use flo_mimi.Content.Invariant.{IsConsistent}
use flo_mimi.Bootstrap.{CampaignRecord}
use flo_mimi.Content.View.{Formats, campaigns_of, IsListed, listed, campaign_record, IsShown}

Campaign-set : IsSet Campaign
Campaign-set = hlevel

-- A list is one that the view may show.
pub listed-IsListed : (env : Text) (t : Tables) → IsListed env t (listed env t)
unfolding listed
listed-IsListed env t = record {
  same_rows = sort_by-perm (λ (r : Campaign). r.display_order) (campaigns_of env t);
  in_order = sort_by-IsAscending (λ (r : Campaign). r.display_order) (campaigns_of env t);
}

-- Rows with a label of their own in their environment, as members.
module _ {L : Type 0} (label : Campaign → L) where
  Apart-mem :
      (r : Campaign) (rows : List Campaign)
      → All (Apart (λ (q : Campaign). q.environment) label r) rows
      → (x : Campaign) → Mem x rows
      → Apart (λ (q : Campaign). q.environment) label r x
  Apart-mem r [] h x m = absurd (not-mem-nil m)
  Apart-mem r (q ∷ rows) (h, hs) x m =
      Or.elim (hlevel) (eq-or-mem_of_mem-cons m)
        (λ e. subst (Apart (λ (q : Campaign). q.environment) label r) (sym e) h)
        (λ n. Apart-mem r rows hs x n)

  IsUnique-mem :
      (rows : List Campaign)
      → IsUnique (λ (r : Campaign). r.environment) label rows
      → (x y : Campaign) → Mem x rows
      → Mem y rows
      → x.environment ≡ y.environment
      → label x ≡ label y
      → x ≡ y
  IsUnique-mem [] u x y m n e f = absurd (not-mem-nil m)
  IsUnique-mem (r ∷ rows) (apart, u) x y m n e f =
      Or.elim (Campaign-set x y) (eq-or-mem_of_mem-cons m)
        (λ here.
          Or.elim (Campaign-set x y) (eq-or-mem_of_mem-cons n) (λ there. here ∙ sym there)
            (λ below. absurd (
              Apart-mem r rows apart y below (ap (λ q. q.environment) (sym here) ∙ e)
                (ap label (sym here) ∙ f))))
        (λ below.
          Or.elim (Campaign-set x y) (eq-or-mem_of_mem-cons n)
            (λ there. absurd (
              Apart-mem r rows apart x below (ap (λ q. q.environment) (sym there) ∙ sym e)
                (ap label (sym there) ∙ sym f)))
            (λ under. IsUnique-mem rows u x y below under e f))

module _ (env : Text) (t : Tables) where
  -- The rows of an environment are those of the table that are in it.
  campaigns_of-mem :
      (r : Campaign) → Mem r (campaigns_of env t) ↔ (Mem r t.campaigns × (r.environment ≡ env))
  unfolding campaigns_of
  campaigns_of-mem r = mem-filter (λ (q : Campaign). Text-discrete q.environment env)

  -- In consistent tables, where each row has a place of its own, there is only one list that the view
  -- may show of an environment: its rows, sorted by their place.
  pub IsListed-unique :
      IsConsistent t → (rows : List Campaign) → IsListed env t rows → rows ≡ listed env t
  IsListed-unique k rows l =
      let whole = listed-IsListed env t in
      IsAscending-eq_of_perm (λ (r : Campaign). r.display_order)
        (λ x y m n e.
          let (mx, ex) = (campaigns_of-mem x).0 ((Perm.mem_iff l.same_rows).0 m) in
          let (my, ey) = (campaigns_of-mem y).0 ((Perm.mem_iff l.same_rows).0 n) in
          IsUnique-mem (λ r. r.display_order) t.campaigns k.campaign_orders x y mx my (ex ∙ sym ey)
            e)
        l.in_order whole.in_order (Perm.trans l.same_rows (Perm.symm whole.same_rows))

pub find-mem :
    (is_key : Campaign → Bool) (rows : List Campaign) {r : Campaign}
    → find is_key rows ≡ some r
    → Mem r rows × (is_key r ≡ true)
unfolding find
find-mem is_key [] h = cc
find-mem is_key (q ∷ rows) h = elim (Bool-cases (is_key q)) [
  | inl k ↦
      let first : q ≡ _ = some-same (rw k at h) in
      (subst (λ x. Mem x (q ∷ rows)) first mem-cons_self, subst (λ x. is_key x ≡ true) first k)
  | inr k ↦ let (m, e) = find-mem is_key rows (rw k at h) in (mem-cons_of_mem q m, e)
]

module _ (formats : Formats) (env : Text) (t : Tables) where
  -- Every row of the environment is shown, in a list that the view may show.
  pub found_shown :
      (id : Text) (items : List CampaignRecord) {r : Campaign}
      → IsShown formats env t items
      → find (is_campaign env id) t.campaigns ≡ some r
      → Mem (campaign_record formats env t r) items
  found_shown id items {r} (rows, l, e) h =
      let (m, k) = find-mem (is_campaign env id) t.campaigns h in
      let here : Mem r rows =
        (Perm.mem_iff l.same_rows).1 ((campaigns_of-mem env t r).1 (m, ground (arith, k))) in
      subst (Mem (campaign_record formats env t r)) (sym e)
        (mem-map_of_mem (campaign_record formats env t) here)
