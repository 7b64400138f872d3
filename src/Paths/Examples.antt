-- ===== src/Paths/Examples.antt =====
-- The theorem on paths at a concrete one, and paths that are refused.
use execenv.Base.{◌≡◌, ◌↔◌, ◌⊎◌, refl, codes, bytes_beq, valid_string, contains_byte, split}
use execenv.Errors.{ok, err, sentinel, invalid}
use execenv.Paths.{validate_path, has_prefix_slash, has_suffix_slash, check_segments, check_segment}
use execenv.Paths.Laws.{IsPath, validate_path-ok}

validate_path-ok_example :
    ((validate_path (codes "src/main.go") ≡ ok tt) ↔ IsPath (codes "src/main.go"))
    × ((validate_path (codes "src/main.go") ≡ ok tt)
        ⊎ (validate_path (codes "src/main.go") ≡ err (sentinel invalid)))
validate_path-ok_example = validate_path-ok (codes "src/main.go")

nested_accepted : validate_path (codes "src/main.go") ≡ ok tt
unfolding validate_path bytes_beq valid_string has_prefix_slash contains_byte has_suffix_slash split
    check_segments check_segment
nested_accepted = refl

parent_refused : validate_path (codes "src/../etc") ≡ err (sentinel invalid)
unfolding validate_path bytes_beq valid_string has_prefix_slash contains_byte has_suffix_slash split
    check_segments check_segment
parent_refused = refl
