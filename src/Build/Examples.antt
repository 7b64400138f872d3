-- ===== src/Build/Examples.antt =====
-- The stamps of a release, of a release with build metadata, and of a pseudo-version.
use execenv.Base.{◌≡◌, refl, [], ◌∷◌, ◌++◌, codes, bytes_beq}
use execenv.Build.{
  before_plus, count_dashes, after_last_dash, all_hex, is_pseudo_version, parse_module_version,
}
use execenv.Build.Laws.{parse_module_version-append}

parse_module_version-append_example :
    parse_module_version (codes "v0.3.1" ++ b'+' ∷ codes "dirty")
    ≡ parse_module_version (codes "v0.3.1")
parse_module_version-append_example = parse_module_version-append (codes "v0.3.1") (codes "dirty")

released : parse_module_version (codes "v0.3.1+dirty") ≡ (codes "0.3.1", codes "v0.3.1")
unfolding parse_module_version before_plus is_pseudo_version after_last_dash count_dashes all_hex
    bytes_beq
released = refl

pseudo : parse_module_version (codes "v0.0.0-20240101000000-abcdef012345") ≡ (codes "dev", [])
unfolding parse_module_version before_plus is_pseudo_version after_last_dash count_dashes all_hex
    bytes_beq
pseudo = refl
