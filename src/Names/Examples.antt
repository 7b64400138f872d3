-- ===== src/Names/Examples.antt =====
-- The theorem on specs at a concrete one.
use execenv.Base.{◌≡◌, ◌↔◌, ◌⊎◌, refl, codes, valid_string}
use execenv.Errors.{ok, err, sentinel, invalid}
use execenv.Names.{Spec, network_allowlist, validate_name, name_bytes, name_byte, validate_spec}
use execenv.Names.Laws.{IsSpec, validate_spec-ok}

abbrev python_spec : Spec
python_spec = record {
  id = codes "job-7";
  image = codes "python:3.12";
  network = network_allowlist;
}

validate_spec-ok_example :
    ((validate_spec python_spec ≡ ok tt) ↔ IsSpec python_spec)
    × ((validate_spec python_spec ≡ ok tt) ⊎ (validate_spec python_spec ≡ err (sentinel invalid)))
validate_spec-ok_example = validate_spec-ok python_spec

python_spec_accepted : validate_spec python_spec ≡ ok tt
unfolding validate_spec validate_name name_bytes name_byte valid_string
python_spec_accepted = refl

blank_id_refused :
    validate_spec (record python_spec { id = codes "job 7" }) ≡ err (sentinel invalid)
unfolding validate_spec validate_name name_bytes name_byte valid_string
blank_id_refused = refl
