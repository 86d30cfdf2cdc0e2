-- ===== src/ReleasePolicy/Tests.antt =====
-- Runs of the release policy at concrete inputs.
use game_gardens_of_karaxas.Base.{
  String, ◌≡◌, refl, false, none, some, [], ◌∷◌, nat_equality, string_equality, pair_equality,
  option_equality,
}
use game_gardens_of_karaxas.Base.Decimal.{decimal}
use game_gardens_of_karaxas.ReleasePolicy.Versions.{
  safe_version, next_logical_build_version, ReleaseTables,
}
use game_gardens_of_karaxas.ReleasePolicy.Activate.{Activation}
use game_gardens_of_karaxas.ReleasePolicy.Monotone.{activate_all, NotOlder, activations-NotOlder}
use game_gardens_of_karaxas.ReleasePolicy.Toy.{toy, toy-IsOrdered, before_release}

abbrev tables : ReleaseTables
tables = record { policy = some before_release; records = []; contents = [] }

abbrev to_version : String → Activation
to_version v = record {
  latest_version = v;
  min_supported_version = none;
  latest_content_version_key = none;
  min_supported_content_version_key = none;
  update_feed_url = none;
  build_release_notes = "";
  user_facing_notes = "";
  grace_minutes = none;
  updated_by = "ops";
  allow_version_regression = false;
}

next_build : next_logical_build_version toy "1.0.0" ≡ "1.0.1"
unfolding next_logical_build_version safe_version decimal
next_build = refl

activations-NotOlder_example :
    NotOlder toy tables
      (activate_all toy 5 ((1, to_version "1.0.1") ∷ (2, to_version "1.0.0") ∷ []) tables)
activations-NotOlder_example =
    activations-NotOlder toy toy-IsOrdered 5
      ((1, to_version "1.0.1") ∷ (2, to_version "1.0.0") ∷ []) tables (refl, (refl, tt))
