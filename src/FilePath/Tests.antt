-- ===== src/FilePath/Tests.antt =====
-- Paths as the C++ standard's examples have them.
use cuda_autocompat.Base.{◌≡◌, refl, true, false, codes}
use cuda_autocompat.FilePath.{parent_path, ◌/path◌, path_eq}

parents :
    (parent_path (codes "/a/b.so") ≡ codes "/a")
    × (parent_path (codes "/a") ≡ codes "/")
    × (parent_path (codes "a") ≡ codes "")
    × (parent_path (codes "/") ≡ codes "/")
    × (parent_path (codes "a//b/") ≡ codes "a//b")
unfolding parent_path
parents = (refl, refl, refl, refl, refl)

joins :
    (codes "/a" /path codes "b" ≡ codes "/a/b")
    × (codes "/a/" /path codes "b" ≡ codes "/a/b")
    × (codes "" /path codes "b" ≡ codes "b")
    × (codes "/a" /path codes "/b" ≡ codes "/b")
unfolding ◌/path◌
joins = (refl, refl, refl, refl)

equalities :
    (path_eq (codes "/a//b") (codes "//a/b") ≡ true) × (path_eq (codes "/a/") (codes "/a") ≡ false)
unfolding path_eq
equalities = (refl, refl)
