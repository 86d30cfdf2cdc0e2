-- ===== src/ReleasePolicy/Toy.antt =====
-- A small version library and a policy, for the tests.
use game_gardens_of_karaxas.Base.{
  ℕ, ◌/◌, ◌%◌, String, ◌≡◌, false, Option, none, some, List, [], ◌∷◌, arith, ltb, ◌==◌,
  nat_equality, string_equality, pair_equality, option_equality, if◌then◌else◌,
}
use game_gardens_of_karaxas.ReleasePolicy.Versions.{VersionLibrary, IsOrdered, ReleasePolicy}

abbrev parse_toy : String → Option ℕ
parse_toy s =
    if s == "0.0.0"
    then some 0
    else if s == "1.0.0"
    then some 100
    else if s == "1.0.1"
    then some 101
    else none

abbrev release_toy : ℕ → List ℕ
release_toy v = v / 100 ∷ (v / 10) % 10 ∷ v % 10 ∷ []

abbrev pub toy : VersionLibrary ℕ
toy = record { parse = parse_toy; zero_version = 0; before = ltb; release = release_toy }

toy_irrefl : (v : ℕ) → ltb v v ≡ false
toy_irrefl v = ground arith

toy_trans : (u v w : ℕ) → ltb v u ≡ false → ltb w v ≡ false → ltb w u ≡ false
toy_trans u v w h k = ground arith

pub toy-IsOrdered : IsOrdered toy
toy-IsOrdered = record { before_irrefl = toy_irrefl; before_trans = toy_trans }

abbrev pub before_release : ReleasePolicy
before_release = record {
  latest_version = "1.0.0";
  min_supported_version = "0.0.0";
  latest_content_version_key = "cv_1";
  min_supported_content_version_key = "cv_1";
  update_feed_url = none;
  enforce_after = none;
  updated_by = "ops";
}
