-- ===== src/Search/First.antt =====
-- The first candidate that can be used, against the best of a list of candidates.
use cuda_autocompat.Base.{
  ◌≡◌, ◌≢◌, refl, subst, ap, ◌∙◌, sym, Option, none, some, List, [], ◌∷◌, ◌++◌, arith,
}
use cuda_autocompat.Base.Int.{ℤ}
use cuda_autocompat.FilePath.{FilePath, parent_path}
use cuda_autocompat.Search.{Throws, returned, thrown, System, SearchResult}
use cuda_autocompat.Search.Rating.{rating, choose, best_from, first_of, first_rated}

choose-none :
    (r : Throws (Option ℤ)) (dir : FilePath) (rest : Option SearchResult)
    → choose none r dir ≡ none
    → first_of r dir rest ≡ rest
choose-none thrown dir rest h = refl
choose-none (returned none) dir rest h = refl
choose-none (returned (some v)) dir rest h = absurd (ground arith)

choose-some :
    (r : Throws (Option ℤ)) (dir : FilePath) (rest : Option SearchResult)
    → choose none r dir ≢ none
    → choose none r dir ≡ first_of r dir rest
choose-some thrown dir rest f = absurd (f refl)
choose-some (returned none) dir rest f = absurd (f refl)
choose-some (returned (some v)) dir rest f = refl

choose_keeps :
    (best : SearchResult) (r : Throws (Option ℤ)) (dir : FilePath) → choose (some best) r dir ≢ none
choose_keeps best thrown dir e = ground arith
choose_keeps best (returned none) dir e = ground arith
choose_keeps best (returned (some v)) dir e = ground arith

module _ (sys : System) where
  -- A result stays one.
  best_from-none :
      (ps : List FilePath) (b : Option SearchResult) → best_from sys b ps ≡ none → b ≡ none
  unfolding best_from
  best_from-none ps none h = refl
  best_from-none [] (some best) h = h
  best_from-none (p ∷ ps) (some best) h = absurd (
      choose_keeps best (rating sys p) (parent_path p)
        (best_from-none ps (choose (some best) (rating sys p) (parent_path p)) h))

  best_from-append :
      (ps qs : List FilePath) (b : Option SearchResult)
      → best_from sys b (ps ++ qs) ≡ best_from sys (best_from sys b ps) qs
  unfolding best_from
  best_from-append [] qs b = refl
  best_from-append (p ∷ ps) qs b = best_from-append ps qs (choose b (rating sys p) (parent_path p))

  -- Candidates of which none can be used do not matter.
  pub first_rated-skip :
      (ps qs : List FilePath)
      → best_from sys none ps ≡ none
      → first_rated sys (ps ++ qs) ≡ first_rated sys qs
  unfolding best_from first_rated
  first_rated-skip [] qs h = refl
  first_rated-skip (p ∷ ps) qs h =
      let none_yet : choose none (rating sys p) (parent_path p) ≡ none =
        best_from-none ps (choose none (rating sys p) (parent_path p)) h in
      choose-none (rating sys p) (parent_path p) (first_rated sys (ps ++ qs)) none_yet
      ∙ first_rated-skip ps qs (subst (λ b. best_from sys b ps ≡ none) none_yet h)

  pub best_from-skip :
      (ps qs : List FilePath)
      → best_from sys none ps ≡ none
      → best_from sys none (ps ++ qs) ≡ best_from sys none qs
  best_from-skip ps qs h = best_from-append ps qs none ∙ ap (λ b. best_from sys b qs) h

  -- The first candidate that can be used ends the list.
  pub first_rated-found :
      (ps qs : List FilePath) (p : FilePath) (b : Option SearchResult)
      → best_from sys none ps ≡ none
      → b ≡ best_from sys none (ps ++ p ∷ [])
      → b ≢ none
      → b ≡ first_rated sys (ps ++ p ∷ qs)
  unfolding best_from first_rated
  first_rated-found ps qs p b h e f =
      let last : b ≡ choose none (rating sys p) (parent_path p) =
        e ∙ best_from-skip ps (p ∷ []) h in
      last
      ∙ choose-some (rating sys p) (parent_path p) (first_rated sys qs) (λ n. f (last ∙ n))
      ∙ sym (first_rated-skip ps (p ∷ qs) h)
