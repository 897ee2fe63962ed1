-- ===== src/Trino/Termination.antt =====
-- When the loop over the pages of a query ends.
use flo_mimi.Prelude.{
  ℕ, zero, suc, ◌<◌, ◌++◌, false, [], Option, none, some, ◌≡◌, ◌≢◌, refl, sym, ◌∙◌, arith, Text,
  same, Result, ok, err, Bool-cases, inl, inr,
}
use flo_mimi.Trino.{
  TrinoResponse, Transport, TrinoRepository, next_page, first_page, follow, resume, query,
}
use flo_mimi.Trino.Pages.{Rows, on_page-refused, on_page-last, on_page-rest, some-not-none}

module _ {W : Type 0} (transport : Transport W) (r : TrinoRepository) where
  module _ (left : TrinoResponse → ℕ)
      (ends : (page page' : TrinoResponse) (w w' : W)
        → page.next_uri ≢ []
        → next_page transport r page.next_uri w ≡ (ok page', w')
        → left page' < left page) where
    Returns : ℕ → Type 0
    Returns fuel =
        (rows : Rows) (page : TrinoResponse) (w : W)
        → left page < fuel
        → follow transport r fuel rows page w ≢ none

    follow-terminates : (fuel : ℕ) → Returns fuel
    unfolding follow Returns
    follow-terminates zero rows page w h k = absurd (omega (arith, h))
    follow-terminates (suc fuel) rows page w h k = by_error (follow-terminates fuel) page.error refl
      where
        rest : Result TrinoResponse × W → Option (Result Rows × W)
        rest = resume transport r (follow transport r fuel (rows ++ page.rows))

        by_next :
            Returns fuel
            → page.error ≡ none
            → same page.next_uri [] ≡ false
            → (next : Result TrinoResponse × W) → next_page transport r page.next_uri w ≡ next
            → rest next ≡ none
            → ⊥
        by_next returns e u (err x, v) p z = cc
        by_next returns e u (ok page', v) p z =
            let fewer : left page' < left page =
              ends page page' w v (λ b. absurd (ground (arith, u, b))) p in
            returns (rows ++ page.rows) page' v (omega (arith, fewer, h)) z

        by_error : Returns fuel → (e : Option Text) → page.error ≡ e → ⊥
        by_error returns (some text) e = some-not-none (sym (on_page-refused _ _ _ _ _ e) ∙ k)
        by_error returns none e = elim (Bool-cases (same page.next_uri [])) [
          | inl u ↦ some-not-none (sym (on_page-last _ _ _ _ _ e u) ∙ k)
          | inr u ↦
              by_next returns e u (next_page transport r page.next_uri w) refl
                (sym (on_page-rest _ _ _ _ _ e u) ∙ k)
        ]

    -- Where each page leaves fewer pages to read than the one before it, a query returns, with fuel for
    -- the pages that the first one leaves.
    pub query-terminates :
        (fuel : ℕ) (sql : Text) (w : W)
        → ((page : TrinoResponse) (w₁ : W)
            → first_page transport r sql w ≡ (ok page, w₁)
            → left page < fuel)
        → query transport r fuel sql w ≢ none
    unfolding query Returns
    query-terminates fuel sql w enough = by_first (first_page transport r sql w) refl
      where
        by_first :
            (first : Result TrinoResponse × W)
            → first_page transport r sql w ≡ first
            → resume transport r (follow transport r fuel []) first ≢ none
        by_first (err e, v) p = some-not-none
        by_first (ok page, v) p = follow-terminates fuel [] page v (enough page v p)
