-- ===== src/Names.antt =====
-- id.go: which grant ids, image names and networks a host accepts; execenv.go's Spec.
pub mod Laws
mod Examples
use execenv.Base.{
  ℕ, Bool, true, false, not, ◌&&◌, ◌||◌, [], ◌∷◌, Bytes, length, ltb, leb, ◌==◌, nat_eq,
  valid_string, if◌then◌else◌,
}
use execenv.Errors.{Result, ok, err, fail, invalid, ◌>>=◌, ◌>>◌}

abbrev pub min_id_bytes : ℕ
min_id_bytes = 1

abbrev pub max_id_bytes : ℕ
max_id_bytes = 64

-- A Go `uint8` whose named values are these two.
pub data Network : Type 0 where
  network_none network_allowlist : Network
  network_unknown : ℕ → Network

pub record Spec : Type 0 where
  pub id : Bytes
  pub image : Bytes
  pub network : Network

unfoldable pub name_byte : ℕ → Bool
name_byte c =
    leb b'A' c && leb c b'Z'
    || leb b'a' c && leb c b'z'
    || leb b'0' c && leb c b'9'
    || (c == b'.' || c == b'_' || c == b'-' || c == b':')

-- the loop of validateName
unfoldable pub name_bytes : Bytes → Bool
name_bytes [] = true
name_bytes (c ∷ s) = name_byte c && name_bytes s

unfoldable pub validate_name : Bytes → Result (Unit {0})
validate_name value =
    if ltb (length value) min_id_bytes
      || ltb max_id_bytes (length value)
      || not (valid_string value)
    then fail invalid
    else if name_bytes value
    then ok tt
    else fail invalid

abbrev pub validate_network : Network → Result (Unit {0})
validate_network network_none = ok tt
validate_network network_allowlist = ok tt
validate_network (network_unknown n) = fail invalid

unfoldable pub validate_spec : Spec → Result (Unit {0})
validate_spec spec = do
  validate_name spec.id
  validate_name spec.image
  validate_network spec.network
