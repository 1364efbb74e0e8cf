-- ===== src/Update/Versions/Laws.antt =====
-- The comparison orders the stable versions by their numbers.
use codex_unlock.Base.{◌≡◌, ◌<◌, ◌⊎◌, ap, String, Option, none, some, arith, ◌↔◌}
use codex_unlock.Io.{Res, ok}
use codex_unlock.Update.Versions.{
  Version, Comparison, less, equal, greater, stable_version, compare_versions, compare_stable,
  compare_stable_versions,
}

-- The first version is older: the first of its numbers that differs is smaller.
abbrev pub IsOlder : Version → Version → Type 0
IsOlder x y =
    (x.major < y.major)
    ⊎ ((x.major ≡ y.major) × ((x.minor < y.minor) ⊎ ((x.minor ≡ y.minor) × (x.patch < y.patch))))

-- The order of three versions by their numbers.
pub record AreOrdered (compare : String → String → Res Comparison) (a b c : String) : Type 0 where
  pub equals : compare a b ≡ ok equal → stable_version a ≡ stable_version b
  pub older :
      (x y : Version)
      → stable_version a ≡ some x
      → stable_version b ≡ some y
      → (compare a b ≡ ok less) ↔ IsOlder x y
  pub opposite : (compare a b ≡ ok less) ↔ (compare b a ≡ ok greater)
  pub chain : compare a b ≡ ok less → compare b c ≡ ok less → compare a c ≡ ok less

compare_versions-equal : (x y : Version) → compare_versions x y ≡ equal → x ≡ y
compare_versions-equal x y h = ground (arith, h)

compare_versions-IsOlder : (x y : Version) → (compare_versions x y ≡ less) ↔ IsOlder x y
compare_versions-IsOlder x y = ground arith

compare_versions-opposite :
    (x y : Version) → (compare_versions x y ≡ less) ↔ (compare_versions y x ≡ greater)
compare_versions-opposite x y = ground arith

compare_versions-chain :
    (x y z : Version)
    → compare_versions x y ≡ less
    → compare_versions y z ≡ less
    → compare_versions x z ≡ less
compare_versions-chain x y z h g = ground (arith, h, g)

compare_stable-equal : (x y : Option Version) → compare_stable x y ≡ ok equal → x ≡ y
compare_stable-equal (some x) (some y) h = ap some (compare_versions-equal x y (cc h))
compare_stable-equal none y h = cc
compare_stable-equal (some x) none h = cc

compare_stable-IsOlder :
    (m n : Option Version) (x y : Version)
    → m ≡ some x
    → n ≡ some y
    → (compare_stable m n ≡ ok less) ↔ IsOlder x y
compare_stable-IsOlder m n x y h g =
    let both = compare_versions-IsOlder x y in
    rw h (rw g ((λ e. both.0 (cc e)), (λ i. ap ok (both.1 i))))

compare_stable-opposite :
    (x y : Option Version) → (compare_stable x y ≡ ok less) ↔ (compare_stable y x ≡ ok greater)
compare_stable-opposite (some x) (some y) =
    let both = compare_versions-opposite x y in
    (λ h. ap ok (both.0 (cc h)), λ h. ap ok (both.1 (cc h)))
compare_stable-opposite none none = (λ h. cc, λ h. cc)
compare_stable-opposite none (some y) = (λ h. cc, λ h. cc)
compare_stable-opposite (some x) none = (λ h. cc, λ h. cc)

compare_stable-chain :
    (x y z : Option Version)
    → compare_stable x y ≡ ok less
    → compare_stable y z ≡ ok less
    → compare_stable x z ≡ ok less
compare_stable-chain (some x) (some y) (some z) h g =
    ap ok (compare_versions-chain x y z (cc h) (cc g))
compare_stable-chain none y z h g = cc
compare_stable-chain (some x) none z h g = cc
compare_stable-chain (some x) (some y) none h g = cc

-- The comparison of stable versions is an order by their numbers, whatever the texts: two that
-- compare as equal have the same numbers, a stable version is less than a stable one exactly when the
-- first of its numbers that differs is smaller, one is less than another exactly when that one is
-- greater, and less is transitive.
pub compare_stable_versions-AreOrdered : (a b c : String) → AreOrdered compare_stable_versions a b c
unfolding compare_stable_versions
compare_stable_versions-AreOrdered a b c = record {
  equals = compare_stable-equal (stable_version a) (stable_version b);
  older = compare_stable-IsOlder (stable_version a) (stable_version b);
  opposite = compare_stable-opposite (stable_version a) (stable_version b);
  chain = compare_stable-chain (stable_version a) (stable_version b) (stable_version c);
}
