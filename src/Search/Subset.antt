-- ===== src/Search/Subset.antt =====
-- Lists of paths with the same members, and candidates that are collected path by path.
use cuda_autocompat.Base.{◌≡◌, refl, sym, subst, ◌⊎◌, inl, inr, List, [], ◌∷◌, ◌++◌, All}
use cuda_autocompat.FilePath.{FilePath}
use cuda_autocompat.Search.Caches.{Any}

-- Each path of the first list is one of the second.
abbrev pub IsSubset : List FilePath → List FilePath → Type 0
IsSubset xs ys = (q : FilePath) → Any (λ p. q ≡ p) xs → Any (λ p. q ≡ p) ys

Any-self :
    (P : FilePath → Type 0) (q : FilePath) (xs : List FilePath)
    → P q
    → Any (λ p. q ≡ p) xs
    → Any P xs
Any-self P q [] h m = absurd m
Any-self P q (x ∷ xs) h (inl e) = inl (subst P e h)
Any-self P q (x ∷ xs) h (inr m) = inr (Any-self P q xs h m)

pub Any-IsSubset :
    (P : FilePath → Type 0) (xs ys : List FilePath) → IsSubset xs ys → Any P xs → Any P ys
Any-IsSubset P [] ys s m = absurd m
Any-IsSubset P (x ∷ xs) ys s (inl h) = Any-self P x ys h (s x (inl refl))
Any-IsSubset P (x ∷ xs) ys s (inr m) = Any-IsSubset P xs ys (λ q k. s q (inr k)) m

All-member :
    (P : FilePath → Type 0) (q : FilePath) (xs : List FilePath)
    → All P xs
    → Any (λ p. q ≡ p) xs
    → P q
All-member P q [] all m = absurd m
All-member P q (x ∷ xs) (h, all) (inl e) = subst P (sym e) h
All-member P q (x ∷ xs) (h, all) (inr m) = All-member P q xs all m

pub All-IsSubset :
    (P : FilePath → Type 0) (xs ys : List FilePath) → IsSubset ys xs → All P xs → All P ys
All-IsSubset P xs [] s all = tt
All-IsSubset P xs (y ∷ ys) s all =
    (All-member P y xs all (s y (inl refl)), All-IsSubset P xs ys (λ q k. s q (inr k)) all)

Any-append_left : (P : FilePath → Type 0) (xs ys : List FilePath) → Any P xs → Any P (xs ++ ys)
Any-append_left P [] ys m = absurd m
Any-append_left P (x ∷ xs) ys (inl h) = inl h
Any-append_left P (x ∷ xs) ys (inr m) = inr (Any-append_left P xs ys m)

Any-append_right : (P : FilePath → Type 0) (xs ys : List FilePath) → Any P ys → Any P (xs ++ ys)
Any-append_right P [] ys m = m
Any-append_right P (x ∷ xs) ys m = inr (Any-append_right P xs ys m)

Any-append_inv :
    (P : FilePath → Type 0) (xs ys : List FilePath) → Any P (xs ++ ys) → Any P xs ⊎ Any P ys
Any-append_inv P [] ys m = inr m
Any-append_inv P (x ∷ xs) ys (inl h) = inl (inl h)
Any-append_inv P (x ∷ xs) ys (inr m) = elim (Any-append_inv P xs ys m) [
  | inl l ↦ inl (inr l)
  | inr r ↦ inr r
]

pub IsSubset-append :
    (ws xs ys zs : List FilePath) → IsSubset ws ys → IsSubset xs zs → IsSubset (ws ++ xs) (ys ++ zs)
IsSubset-append ws xs ys zs h k q m = elim (Any-append_inv (λ p. q ≡ p) ws xs m) [
  | inl l ↦ Any-append_left (λ p. q ≡ p) ys zs (h q l)
  | inr r ↦ Any-append_right (λ p. q ≡ p) ys zs (k q r)
]

-- Candidates that are collected directory by directory.
module _ (f : FilePath → List FilePath) (candidates : List FilePath → List FilePath)
    (nil : candidates [] ≡ [])
    (cons : (d : FilePath) (ds : List FilePath) → candidates (d ∷ ds) ≡ f d ++ candidates ds) where
  from_candidates :
      (q : FilePath) (ds : List FilePath)
      → Any (λ p. q ≡ p) (candidates ds)
      → Any (λ d. Any (λ p. q ≡ p) (f d)) ds
  from_candidates q [] m = subst (Any λ p. q ≡ p) nil m
  from_candidates q (d ∷ ds) m =
      elim (Any-append_inv (λ p. q ≡ p) (f d) (candidates ds)
        (subst (Any λ p. q ≡ p) (cons d ds) m)) [
          | inl l ↦ inl l
          | inr r ↦ inr (from_candidates q ds r)
        ]

  to_candidates :
      (q : FilePath) (ds : List FilePath)
      → Any (λ d. Any (λ p. q ≡ p) (f d)) ds
      → Any (λ p. q ≡ p) (candidates ds)
  to_candidates q [] m = absurd m
  to_candidates q (d ∷ ds) (inl h) =
      subst (Any λ p. q ≡ p) (sym (cons d ds))
        (Any-append_left (λ p. q ≡ p) (f d) (candidates ds) h)
  to_candidates q (d ∷ ds) (inr m) =
      subst (Any λ p. q ≡ p) (sym (cons d ds))
        (Any-append_right (λ p. q ≡ p) (f d) (candidates ds) (to_candidates q ds m))

  pub IsSubset-candidates :
      (ds es : List FilePath) → IsSubset ds es → IsSubset (candidates ds) (candidates es)
  IsSubset-candidates ds es s q m =
      to_candidates q es
        (Any-IsSubset (λ d. Any (λ p. q ≡ p) (f d)) ds es s (from_candidates q ds m))
