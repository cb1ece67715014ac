-- ===== src/PathUtils/Words.antt =====
-- Paths and lists put together from words, as an independent description of what `next_token`
-- takes apart.
use cuda_autocompat.Base.{
  ℕ, ◌≡◌, ◌≢◌, refl, sym, subst, true, false, ◌⊎◌, inl, inr, List, [], ◌∷◌, ◌++◌, arith, Bool-cases,
  ◌==◌, Bytes, Lacks,
}

-- Each word, and a delimiter behind it.
abbrev pub terminated : ℕ → List Bytes → Bytes
terminated delim [] = []
terminated delim (w ∷ ws) = w ++ delim ∷ terminated delim ws

-- Words that hold neither the delimiter nor NUL.
abbrev pub AreWords : ℕ → List Bytes → Type 0
AreWords delim [] = Unit
AreWords delim (w ∷ ws) = Lacks delim w × Lacks 0 w × AreWords delim ws

-- A last word counts only if it is not empty.
abbrev pub last_word : Bytes → List Bytes
last_word [] = []
last_word (c ∷ w) = (c ∷ w) ∷ []

-- Every string is a list of delimited words and a rest.
pub record Parts (delim : ℕ) (s : Bytes) : Type 0 where
  pub words : List Bytes
  pub rest : Bytes
  pub words_ok : AreWords delim words
  pub rest_ok : Lacks delim rest × Lacks 0 rest
  pub parts : s ≡ terminated delim words ++ rest

module _ (delim : ℕ) where
  extend :
      (c : ℕ)
      → c ≢ delim
      → c ≢ 0
      → (words : List Bytes) (rest : Bytes) → AreWords delim words
      → Lacks delim rest × Lacks 0 rest
      → Parts delim (c ∷ (terminated delim words ++ rest))
  extend c nd nz [] rest ok (ld, lz) = record {
    words = [];
    rest = c ∷ rest;
    words_ok = tt;
    rest_ok = ((nd, ld), (nz, lz));
    parts = refl;
  }
  extend c nd nz (w ∷ words) rest (wd, wz, ok) ends = record {
    words = (c ∷ w) ∷ words;
    rest = rest;
    words_ok = ((nd, wd), (nz, wz), ok);
    rest_ok = ends;
    parts = refl;
  }

  split_words-cons :
      (c : ℕ) (s : Bytes)
      → c ≢ 0
      → ((c == delim) ≡ true) ⊎ ((c == delim) ≡ false)
      → Parts delim s
      → Parts delim (c ∷ s)
  split_words-cons c s nz (inl same) r =
      let e : c ≡ delim = ground arith in
      record {
        words = [] ∷ r.words;
        rest = r.rest;
        words_ok = (tt, tt, r.words_ok);
        rest_ok = r.rest_ok;
        parts = cc r.parts;
      }
  split_words-cons c s nz (inr differ) r =
      subst (λ t. Parts delim (c ∷ t)) (sym r.parts)
        (extend c (ground arith) nz r.words r.rest r.words_ok r.rest_ok)

  pub split_words : (s : Bytes) → Lacks 0 s → Parts delim s
  split_words [] _ = record {
    words = [];
    rest = [];
    words_ok = tt;
    rest_ok = (tt, tt);
    parts = refl;
  }
  split_words (c ∷ s) (nz, h) = split_words-cons c s nz (Bool-cases (c == delim)) (split_words s h)
