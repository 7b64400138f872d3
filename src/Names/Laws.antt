-- ===== src/Names/Laws.antt =====
-- What ValidateSpec accepts.
use execenv.Base.{
  ℕ, ◌≤◌, ◌<◌, ◌≡◌, refl, ◌↔◌, ◌⊎◌, true, [], ◌∷◌, arith, Bytes, length, All, valid_string_ascii,
}
use execenv.Errors.{ok, err, sentinel, invalid}
use execenv.Names.{
  Network, network_none, network_allowlist, Spec, name_byte, name_bytes, validate_name,
  validate_network, validate_spec,
}

-- The characters [A-Za-z0-9._:-], by their codes.
abbrev pub IsNameByte : ℕ → Type 0
IsNameByte c =
    (b'A' ≤ c) × (c ≤ b'Z')
    ⊎ (b'a' ≤ c) × (c ≤ b'z')
    ⊎ (b'0' ≤ c) × (c ≤ b'9')
    ⊎ (c ≡ b'.')
    ⊎ (c ≡ b'_')
    ⊎ (c ≡ b'-')
    ⊎ (c ≡ b':')

pub record IsName (value : Bytes) : Type 0 where
  pub nonempty : 1 ≤ length value
  pub bounded : length value ≤ 64
  pub charset : All IsNameByte value

name_byte_iff : (c : ℕ) → (name_byte c ≡ true) ↔ IsNameByte c
unfolding name_byte
name_byte_iff c = (λ h. ground arith, λ h. ground arith)

name_bytes_sound : (s : Bytes) → name_bytes s ≡ true → All IsNameByte s
unfolding name_bytes
name_bytes_sound [] h = tt
name_bytes_sound (c ∷ s) h = ((name_byte_iff c).0 (ground arith), name_bytes_sound s (ground arith))

name_bytes_complete : (s : Bytes) → All IsNameByte s → name_bytes s ≡ true
unfolding name_bytes
name_bytes_complete [] h = refl
name_bytes_complete (c ∷ s) (h, hs) =
    ground (arith, (name_byte_iff c).1 h, name_bytes_complete s hs)

name-ascii : (s : Bytes) → All IsNameByte s → All (λ b. b < 0x80) s
name-ascii [] h = tt
name-ascii (c ∷ s) (h, hs) = (ground arith, name-ascii s hs)

-- A name is accepted exactly when it is 1 to 64 bytes of the character set, and is refused with
-- ErrInvalid otherwise.
pub validate_name-ok : (v : Bytes) → (validate_name v ≡ ok tt) ↔ IsName v
unfolding validate_name
validate_name-ok v = (
  λ h. record {
    nonempty = ground arith;
    bounded = ground arith;
    charset = name_bytes_sound v (ground arith);
  },
  λ n.
      ground
        (arith, name_bytes_complete v n.charset, valid_string_ascii v (name-ascii v n.charset)),
)

abbrev pub IsOffered : Network → Type 0
IsOffered n = (n ≡ network_none) ⊎ (n ≡ network_allowlist)

pub record IsSpec (s : Spec) : Type 0 where
  pub id_name : IsName s.id
  pub image_name : IsName s.image
  pub known_network : IsOffered s.network

validate_name_cases :
    (v : Bytes) → (validate_name v ≡ ok tt) ⊎ (validate_name v ≡ err (sentinel invalid))
unfolding validate_name
validate_name_cases v = ground arith

validate_network_iff :
    (n : Network)
    → ((validate_network n ≡ ok tt) ↔ IsOffered n)
      × ((validate_network n ≡ ok tt) ⊎ (validate_network n ≡ err (sentinel invalid)))
validate_network_iff n = ground arith

-- ValidateSpec accepts a spec exactly when the id and the image are names and the network is one
-- of the two that exist; every refusal is ErrInvalid.
pub validate_spec-ok :
    (s : Spec)
    → ((validate_spec s ≡ ok tt) ↔ IsSpec s)
      × ((validate_spec s ≡ ok tt) ⊎ (validate_spec s ≡ err (sentinel invalid)))
unfolding validate_spec
validate_spec-ok s = (
  (
    λ h. record {
      id_name = (validate_name-ok s.id).0 (ground (arith, validate_name_cases s.id));
      image_name = (validate_name-ok s.image).0 (ground (arith, validate_name_cases s.image));
      known_network = (validate_network_iff s.network).0.0 (ground arith);
    },
    λ n. ground (
      arith,
      (validate_name-ok s.id).1 n.id_name,
      (validate_name-ok s.image).1 n.image_name,
      (validate_network_iff s.network).0.1 n.known_network,
    ),
  ),
  ground (
    arith,
    validate_name_cases s.id,
    validate_name_cases s.image,
    (validate_network_iff s.network).1,
  ),
)
