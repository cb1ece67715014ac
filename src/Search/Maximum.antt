-- ===== src/Search/Maximum.antt =====
-- The best of a list of candidates, said without the order of the search.
use cuda_autocompat.Base.{
  ◌≡◌, refl, sym, subst, ◌∙◌, ◌⊎◌, inl, inr, Option, none, some, List, [], ◌∷◌, All, Bool-cases,
}
use cuda_autocompat.Base.Int.{ℤ, ltb_ℤ}
use cuda_autocompat.FilePath.{FilePath, parent_path}
use cuda_autocompat.Search.{Throws, returned, thrown, System, SearchResult}
use cuda_autocompat.Search.Rating.{
  rating, choose, best_from, Covers, Covers-choose, Covers-choose_self,
}
use cuda_autocompat.Search.Caches.{Any}

module _ (sys : System) where
  -- A result comes from a candidate: its version, and the directory that it is in.
  abbrev pub From : Option SearchResult → FilePath → Type 0
  From none q = ⊥
  From (some r) q = (rating sys q ≡ returned (some r.version)) × (r.driver_dir ≡ parent_path q)

  Covers-best_from :
      (best : Option SearchResult) (r : Throws (Option ℤ)) (ps : List FilePath)
      → Covers best r
      → Covers (best_from sys best ps) r
  unfolding best_from
  Covers-best_from best r [] h = h
  Covers-best_from best r (p ∷ ps) h =
      Covers-best_from (choose best (rating sys p) (parent_path p)) r ps
        (Covers-choose best r (rating sys p) (parent_path p) h)

  All-Covers :
      (best : Option SearchResult) (ps : List FilePath)
      → All (λ q. Covers (best_from sys best ps) (rating sys q)) ps
  unfolding best_from
  All-Covers best [] = tt
  All-Covers best (p ∷ ps) = (
    Covers-best_from (choose best (rating sys p) (parent_path p)) (rating sys p) ps
        (Covers-choose_self best (rating sys p) (parent_path p)),
    All-Covers (choose best (rating sys p) (parent_path p)) ps,
  )

  choose-From :
      (best : Option SearchResult) (p : FilePath)
      → (choose best (rating sys p) (parent_path p) ≡ best)
        ⊎ From (choose best (rating sys p) (parent_path p)) p
  choose-From best p = go best (rating sys p) refl
    where
      go :
          (b : Option SearchResult) (r : Throws (Option ℤ))
          → rating sys p ≡ r
          → (choose b r (parent_path p) ≡ b) ⊎ From (choose b r (parent_path p)) p
      go b thrown e = inl refl
      go b (returned none) e = inl refl
      go none (returned (some v)) e = inr (e, refl)
      go (some b) (returned (some v)) e = elim (Bool-cases (ltb_ℤ b.version v)) [
        | inl t ↦ rw t (inr (e, refl))
        | inr f ↦ rw f (inl refl)
      ]

  best_from-From :
      (best : Option SearchResult) (ps : List FilePath)
      → (best_from sys best ps ≡ best) ⊎ Any (From (best_from sys best ps)) ps
  unfolding best_from
  best_from-From best [] = inl refl
  best_from-From best (p ∷ ps) =
      let next = choose best (rating sys p) (parent_path p) in
      elim (best_from-From next ps) [
        | inr later ↦ inr (inr later)
        | inl same ↦ elim (choose-From best p) [
          | inl kept ↦ inl (same ∙ kept)
          | inr new ↦ inr (inl (subst (λ b. From b p) (sym same) new))
        ]
      ]

  -- The best of a list is nothing, or it comes from a candidate of the list; no candidate of the
  -- list has a newer version, and if it is nothing then none has a version.
  pub best_from-Covers :
      (ps : List FilePath)
      → ((best_from sys none ps ≡ none) ⊎ Any (From (best_from sys none ps)) ps)
        × All (λ q. Covers (best_from sys none ps) (rating sys q)) ps
  best_from-Covers ps = (best_from-From none ps, All-Covers none ps)
