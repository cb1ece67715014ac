-- ===== src/Version.antt =====
-- utils/version/version.c: the number that marks the libraries of the program itself.
use cuda_autocompat.Base.{ℕ, ◌+◌, ◌*◌, ◌<◌, ◌≡◌, ◌⊎◌, ◌↔◌, arith}

-- The arguments are the numbers CUDA_AUTOCOMPAT_VERSION_MAJOR, _MINOR and _PATCH.
unfoldable cuda_autocompat_version : ℕ → ℕ → ℕ → ℕ
cuda_autocompat_version major minor patch = major * 10000 + minor * 100 + patch

-- The number tells versions apart, and orders them like their parts, while the minor number and the patch have at most two digits.
cuda_autocompat_version_order :
    (a b c x y z : ℕ)
    → b < 100
    → c < 100
    → y < 100
    → z < 100
    → (cuda_autocompat_version a b c < cuda_autocompat_version x y z)
      ↔ ((a < x) ⊎ ((a ≡ x) × ((b < y) ⊎ ((b ≡ y) × (c < z)))))
unfolding cuda_autocompat_version
cuda_autocompat_version_order a b c x y z hb hc hy hz = ground (arith)
