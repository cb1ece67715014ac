-- ===== src/PathUtils/RoundTrip.antt =====
-- `path_join` of utils/c/path_utils.c, followed by `path_filename2`.
use cuda_autocompat.Base.{
  ℕ, suc, ◌-◌, ◌<◌, ◌≡◌, refl, ap, zero, ◌∙◌, true, false, [], ◌∷◌, ◌++◌, append_assoc, some, inl,
  inr, Bool-cases, arith, length, Bytes, Lacks, c_head, zeros,
}
use cuda_autocompat.PathUtils.{path_max, separator, path_filename2, path_join}
use cuda_autocompat.PathUtils.Join.{
  joined, Lacks-parent_of, parent_of, ends_with_separator, starts_with_separator, fill-fits,
  path_join-joined,
}
use cuda_autocompat.PathUtils.Filename.{path_filename2-append}

-- A parent with a separator at its end.
split_last :
    (p : Bytes)
    → Lacks 0 p
    → ends_with_separator p ≡ true
    → (dir : Bytes) × Lacks 0 dir × (p ≡ dir ++ separator ∷ [])
split_last [] hz h = absurd (ground arith)
split_last (c ∷ []) (nz, hz) h = let e : c ≡ separator = ground arith in ([], tt, rw e)
split_last (c ∷ d ∷ p) (nz, hz) h =
    let (dir, clear, e) = split_last (d ∷ p) hz h in (c ∷ dir, (nz, clear), ap (λ t. c ∷ t) e)

-- Either way the child stands behind a separator.
joined_parts :
    (parent child : Bytes)
    → Lacks 0 (parent_of parent)
    → starts_with_separator child ≡ false
    → (dir : Bytes) × Lacks 0 dir × (joined parent child ≡ dir ++ separator ∷ child)
joined_parts parent child hz h = elim (Bool-cases (ends_with_separator (parent_of parent))) [
  | inl e ↦
      let (dir, clear, p) = split_last (parent_of parent) hz e in
      (
        dir,
        clear,
        rw e (ap (λ (t : Bytes). t ++ child) p ∙ append_assoc dir (separator ∷ []) child),
      )
  | inr e ↦ (parent_of parent, hz, rw (e, h))
]

starts-false : (s : Bytes) → Lacks separator s → starts_with_separator s ≡ false
starts-false [] h = refl
starts-false (c ∷ s) (ne, h) = ground arith

head-zeros : (n : ℕ) → c_head (zeros n) ≡ 0
head-zeros zero = refl
head-zeros (suc n) = refl

filename2_joined :
    (parent child : Bytes) (n : ℕ)
    → Lacks 0 parent
    → Lacks separator child × Lacks 0 child
    → path_filename2 (some (joined parent child ++ zeros n)) ≡ some (child ++ zeros n, length child)
filename2_joined parent child n hp (cs, cz) =
    let (dir, clear, e) =
      joined_parts parent child (Lacks-parent_of parent hp) (starts-false child cs) in
    ap (λ (t : Bytes). path_filename2 (some (t ++ zeros n))) e
    ∙ rw (append_assoc dir (separator ∷ child) (zeros n))
        (path_filename2-append dir child (zeros n) clear cs cz (head-zeros n))

-- For a child that fits and holds no separator, `path_filename2` finds the child in
-- the buffer that `path_join` fills.
pub path_filename2-path_join :
    (dst parent more child : Bytes)
    → Lacks 0 parent
    → Lacks separator child × Lacks 0 child
    → length (joined parent child) < path_max
    → path_filename2 (some (path_join dst (parent ++ more) (length parent) child).1)
      ≡ some (child ++ zeros (path_max - length (joined parent child)), length child)
path_filename2-path_join dst parent more child hp (cs, cz) fits =
    rw (path_join-joined dst parent more child hp, fill-fits dst (joined parent child) fits)
      (filename2_joined parent child (path_max - length (joined parent child)) hp (cs, cz))
