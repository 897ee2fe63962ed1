-- ===== src/Trino/Pages.antt =====
-- The pages of a query: what the loop returns is what the chain of the pages holds.
use flo_mimi.Prelude.{
  some-same, ℕ, zero, suc, ◌≤◌, Bool, true, false, [], ◌++◌, List, Option, none, some, ◌≡◌, ◌≢◌,
  refl, sym, ap, ◌∙◌, arith, Text, same, Error, Result, ok, err, append_assoc, Bool-cases, inl, inr,
}
use mathlib.Core.Path.{subst}
use flo_mimi.Value.{Value}
use flo_mimi.Trino.{
  TrinoResponse, Transport, TrinoRepository, next_page, first_page, query_failed, on_page, follow,
  resume, query,
}

abbrev pub Rows : Type 0
Rows = List (List Value)

abbrev pub prepend : Rows → Result Rows → Result Rows
prepend rows (ok more) = ok (rows ++ more)
prepend rows (err e) = err e

prepend-append :
    (rows more : Rows) (r : Result Rows) → prepend rows (prepend more r) ≡ prepend (rows ++ more) r
prepend-append rows more (ok last) = ap ok (sym (append_assoc rows more last))
prepend-append rows more (err e) = refl

pub some-not-none : {A : Type 0} {a : A} → some a ≢ none
some-not-none h = cc

module _ {X : Type 0} (refused : Text → X) (last rest : X) where
  pub on_page-refused :
      (e : Option Text) (u : Bool) {text : Text}
      → e ≡ some text
      → on_page e u refused last rest ≡ refused text
  on_page-refused e u h = ap (λ q. on_page q u refused last rest) h

  pub on_page-last :
      (e : Option Text) (u : Bool) → e ≡ none → u ≡ true → on_page e u refused last rest ≡ last
  on_page-last e u h k =
      ap (λ q. on_page q u refused last rest) h ∙ ap (λ q. on_page none q refused last rest) k

  pub on_page-rest :
      (e : Option Text) (u : Bool) → e ≡ none → u ≡ false → on_page e u refused last rest ≡ rest
  on_page-rest e u h k =
      ap (λ q. on_page q u refused last rest) h ∙ ap (λ q. on_page none q refused last rest) k

module _ {W : Type 0} (transport : Transport W) (r : TrinoRepository) where
  -- `Chain n page w result w'`: from this page on there are `n` pages, which lead to the result.
  pub data Chain : ℕ → TrinoResponse → W → Result Rows → W → Type 0 where
    refused :
        {page : TrinoResponse} {w : W} {text : Text}
        → page.error ≡ some text
        → Chain 1 page w (err (query_failed transport r text)) w
    last :
        {page : TrinoResponse} {w : W}
        → page.error ≡ none
        → same page.next_uri [] ≡ true
        → Chain 1 page w (ok page.rows) w
    broken :
        {page : TrinoResponse} {w w' : W} {e : Error}
        → page.error ≡ none
        → same page.next_uri [] ≡ false
        → next_page transport r page.next_uri w ≡ (err e, w')
        → Chain 1 page w (err e) w'
    more :
        {n : ℕ} {page page' : TrinoResponse} {w w' w'' : W} {result : Result Rows}
        → page.error ≡ none
        → same page.next_uri [] ≡ false
        → next_page transport r page.next_uri w ≡ (ok page', w')
        → Chain n page' w' result w''
        → Chain (suc n) page w (prepend page.rows result) w''

  -- The loop returns what the chain leads to, with fuel for each of its pages.
  follow_complete :
      (fuel : ℕ) (rows : Rows) {n : ℕ} {page : TrinoResponse} {w w' : W} {result : Result Rows}
      → Chain n page w result w'
      → n ≤ fuel
      → follow transport r fuel rows page w ≡ some (prepend rows result, w')
  unfolding follow
  follow_complete zero rows (refused e) h = absurd (omega (arith, h))
  follow_complete zero rows (last e u) h = absurd (omega (arith, h))
  follow_complete zero rows (broken e u p) h = absurd (omega (arith, h))
  follow_complete zero rows (more e u p c) h = absurd (omega (arith, h))
  follow_complete (suc fuel) rows (refused e) h = on_page-refused _ _ _ _ _ e
  follow_complete (suc fuel) rows (last e u) h = on_page-last _ _ _ _ _ e u
  follow_complete (suc fuel) rows (broken {page = page} e u p) h =
      on_page-rest _ _ _ _ _ e u
      ∙ ap (resume transport r (follow transport r fuel (rows ++ page.rows))) p
  follow_complete (suc fuel) rows (more {page = page} {w'' = w''} {result = result} e u p c) h =
      on_page-rest _ _ _ _ _ e u
      ∙ (ap (resume transport r (follow transport r fuel (rows ++ page.rows))) p
          ∙ (follow_complete fuel (rows ++ page.rows) c (omega (arith, h))
              ∙ ap (λ q. some (q, w'')) (sym (prepend-append rows page.rows result))))

  -- Where the loop returns, there is a chain of pages.
  abbrev Followed : ℕ → Rows → TrinoResponse → W → Result Rows → W → Type 0
  Followed fuel rows page w answer w' =
      (n : ℕ) × (result : Result Rows) × (n ≤ fuel)
      × (answer ≡ prepend rows result)
      × Chain n page w result w'

  abbrev FollowedSound : ℕ → Type 0
  FollowedSound fuel =
      (rows : Rows) (page : TrinoResponse) (w : W) (answer : Result Rows) (w' : W)
      → follow transport r fuel rows page w ≡ some (answer, w')
      → Followed fuel rows page w answer w'

  follow_sound : (fuel : ℕ) → FollowedSound fuel
  unfolding follow
  follow_sound zero rows page w answer w' h = cc
  follow_sound (suc fuel) rows page w answer w' h = by_error (follow_sound fuel) page.error refl
    where
      by_next :
          FollowedSound fuel
          → page.error ≡ none
          → same page.next_uri [] ≡ false
          → (next : Result TrinoResponse × W) → next_page transport r page.next_uri w ≡ next
          → resume transport r
              (follow transport r fuel (rows ++ page.rows))
              (next_page transport r page.next_uri w)
            ≡ some (answer, w')
          → Followed (suc fuel) rows page w answer w'
      by_next sound e u (err x, v) p k =
          let one : 1 ≤ suc fuel = omega arith in
          subst (λ q. Followed (suc fuel) rows page w q.0 q.1)
            (some-same
              (sym (ap (resume transport r (follow transport r fuel (rows ++ page.rows))) p) ∙ k))
            (1, err x, one, refl, broken e u p)
      by_next sound e u (ok page', v) p k =
          let (n, result, bound, same_answer, c) =
            sound (rows ++ page.rows) page' v answer w'
              (sym (ap (resume transport r (follow transport r fuel (rows ++ page.rows))) p) ∙ k) in
          (
            suc n,
            prepend page.rows result,
            omega (arith, bound),
            same_answer ∙ sym (prepend-append rows page.rows result),
            more e u p c,
          )

      by_error :
          FollowedSound fuel
          → (e : Option Text) → page.error ≡ e
          → Followed (suc fuel) rows page w answer w'
      by_error sound (some text) e =
          let one : 1 ≤ suc fuel = omega arith in
          let same_answer : some (err (query_failed transport r text), w) ≡ some (answer, w') =
            sym (on_page-refused _ _ _ _ _ e) ∙ h in
          subst (λ q. Followed (suc fuel) rows page w q.0 q.1) (some-same same_answer)
            (1, err (query_failed transport r text), one, refl, refused e)
      by_error sound none e =
          let one : 1 ≤ suc fuel = omega arith in
          elim (Bool-cases (same page.next_uri [])) [
            | inl u ↦
                let same_answer : some (ok (rows ++ page.rows), w) ≡ some (answer, w') =
                  sym (on_page-last _ _ _ _ _ e u) ∙ h in
                subst (λ q. Followed (suc fuel) rows page w q.0 q.1) (some-same same_answer)
                  (1, ok page.rows, one, refl, last e u)
            | inr u ↦
                by_next sound e u (next_page transport r page.next_uri w) refl
                  (sym (on_page-rest _ _ _ _ _ e u) ∙ h)
          ]

module _ {W : Type 0} (transport : Transport W) (r : TrinoRepository) where
  prepend-nil : (result : Result Rows) → prepend [] result ≡ result
  prepend-nil (ok rows) = refl
  prepend-nil (err e) = refl

  -- A query returns what the chain of its pages leads to, with fuel for each of them.
  pub query_complete :
      (fuel : ℕ) (sql : Text) (w : W) {n : ℕ} {page : TrinoResponse} {w₁ w' : W}
      {result : Result Rows}
      → first_page transport r sql w ≡ (ok page, w₁)
      → Chain transport r n page w₁ result w'
      → n ≤ fuel
      → query transport r fuel sql w ≡ some (result, w')
  unfolding query
  query_complete fuel sql w {w' = w'} {result = result} p c h =
      ap (resume transport r (follow transport r fuel [])) p
      ∙ (follow_complete transport r fuel [] c h ∙ ap (λ q. some (q, w')) (prepend-nil result))

  -- The rows that a query returns are those of all its pages, none of which reports an error.
  pub query_sound :
      (fuel : ℕ) (sql : Text) (w : W) {rows : Rows} {w' : W}
      → query transport r fuel sql w ≡ some (ok rows, w')
      → (page : TrinoResponse) × (w₁ : W) × (n : ℕ) × (first_page transport r sql w ≡ (ok page, w₁))
        × Chain transport r n page w₁ (ok rows) w'
  unfolding query
  query_sound fuel sql w {rows} {w'} h = by_first (first_page transport r sql w) refl
    where
      by_first :
          (first : Result TrinoResponse × W)
          → first_page transport r sql w ≡ first
          → (page : TrinoResponse) × (w₁ : W) × (n : ℕ) × (first_page transport r sql w
              ≡ (ok page, w₁))
            × Chain transport r n page w₁ (ok rows) w'
      by_first (err e, v) p = cc
      by_first (ok page, v) p =
          let (n, result, bound, same_answer, c) =
            follow_sound transport r fuel [] page v (ok rows) w'
              (sym (ap (resume transport r (follow transport r fuel [])) p) ∙ h) in
          (
            page,
            v,
            n,
            p,
            subst (λ q. Chain transport r n page v q w')
                (sym (prepend-nil result) ∙ sym same_answer) c,
          )
