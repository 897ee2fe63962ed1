-- ===== src/Trino/Tests.antt =====
-- A server with three pages, and the theorems on the query at it.
use flo_mimi.Prelude.{
  ℕ, suc, ◌<◌, [], ◌∷◌, List, none, some, ◌≡◌, ◌≢◌, refl, ap, arith, Text, codes, Text-discrete,
  length, ok, ok-same,
}
use mathlib.Core.Path.{subst}
use flo_mimi.Prelude.Int.{pos}
use flo_mimi.Value.{Value, int}
use flo_mimi.Text.{trim_space}
use flo_mimi.Trino.{
  TrinoResponse, Transport, TrinoRepository, new_trino_repository, execute, first_page, next_page,
  query,
}
use flo_mimi.Trino.Pages.{Chain, query_complete, query_sound}
use flo_mimi.Trino.Termination.{query-terminates}

-- The page of a URL: two of them lead on, one ends.
abbrev page_at : Text → TrinoResponse
page_at (a ∷ []) = record { rows = (int (pos 3) ∷ []) ∷ []; next_uri = []; error = none }
page_at (a ∷ b ∷ []) = record { rows = (int (pos 2) ∷ []) ∷ []; next_uri = b ∷ []; error = none }
page_at _ = record { rows = (int (pos 1) ∷ []) ∷ []; next_uri = codes "ab"; error = none }

-- The state counts the requests.
abbrev server : Transport ℕ
server = record {
  build = λ url. ok tt;
  send = λ request n. (ok (record { status = 200; excerpt = []; body = ok request.url }), suc n);
  unmarshal = λ body. ok (page_at body);
}

abbrev repository : TrinoRepository
repository = record { base_url = []; user = codes "platform" }

abbrev all_rows : List (List Value)
all_rows = (int (pos 1) ∷ []) ∷ (int (pos 2) ∷ []) ∷ (int (pos 3) ∷ []) ∷ []

defaults : (new_trino_repository [] [] []).base_url ≡ codes "http://trino:8080"
unfolding new_trino_repository Text-discrete
defaults = refl

three_pages : Chain server repository 3 (page_at (codes "/v1/statement")) 1 (ok all_rows) 3
unfolding next_page execute Text-discrete
three_pages = Chain.more refl refl refl (Chain.more refl refl refl (Chain.last refl refl))

query_complete_example : query server repository 5 (codes "select 1") 0 ≡ some (ok all_rows, 3)
unfolding first_page execute trim_space
query_complete_example =
    query_complete server repository 5 (codes "select 1") 0 refl three_pages (omega arith)

query_sound_example :
    (page : TrinoResponse) × (w : ℕ) × (n : ℕ) × (first_page server repository (codes "select 1") 0
      ≡ (ok page, w))
    × Chain server repository n page w (ok all_rows) 3
query_sound_example = query_sound server repository 5 (codes "select 1") 0 query_complete_example

fewer :
    (uri : Text) (page : TrinoResponse) (w w' : ℕ)
    → uri ≢ []
    → next_page server repository uri w ≡ (ok page, w')
    → length page.next_uri < length uri
unfolding next_page execute
fewer [] page w w' h e = absurd (h refl)
fewer (a ∷ []) page w w' h e =
    subst (λ p. length p.next_uri < 1) (ok-same (ap (λ r. r.0) e)) (omega arith)
fewer (a ∷ b ∷ []) page w w' h e =
    subst (λ p. length p.next_uri < 2) (ok-same (ap (λ r. r.0) e)) (omega arith)
fewer (a ∷ b ∷ c ∷ uri) page w w' h e =
    subst (λ p. length p.next_uri < length (a ∷ b ∷ c ∷ uri)) (ok-same (ap (λ r. r.0) e))
      (omega arith)

first_left :
    (page : TrinoResponse) (w : ℕ)
    → first_page server repository (codes "select 1") 0 ≡ (ok page, w)
    → length page.next_uri < 3
unfolding first_page execute
first_left page w e = subst (λ p. length p.next_uri < 3) (ok-same (ap (λ r. r.0) e)) (omega arith)

query-terminates_example : query server repository 3 (codes "select 1") 0 ≢ none
query-terminates_example =
    query-terminates server repository (λ page. length page.next_uri)
      (λ page page' w w' h e. fewer page.next_uri page' w w' h e) 3 (codes "select 1") 0 first_left
