-- ===== src/Daemon.antt =====
-- daemon/config.go: the operator's configuration of a host and what a host accepts of it, with
-- ValidDigest of isolated/catalog.go. `fold` is what strings.ToLower makes of a string that is not
-- ASCII, by Unicode's tables, and `parse_duration` is time.ParseDuration.
mod Accept
mod Save
mod Atomic
mod Reload
mod Examples
use execenv.Base.{
  ℕ, ◌+◌, Bool, true, false, not, ◌||◌, ◌&&◌, Option, none, some, List, [], ◌∷◌, Bytes, codes,
  length, ltb, leb, ◌==◌, nat_eq, bytes_eq, if◌then◌else◌, map,
}
use execenv.Errors.{Error, sentinel, op_error, invalid, Result, ok, err, ◌>>◌}
use execenv.Names.{Spec, network_none, validate_spec}
use execenv.Remote.Auth.{Security, security_insecure_local, security_tls}

-- A Go int, int64 or Duration
pub data ℤ : Type 0 where
  pos : ℕ → ℤ
  negsuc : ℕ → ℤ

-- n > 0
abbrev pub positive : ℤ → Bool
positive (pos n) = ltb 0 n
positive (negsuc n) = false

pub record Image : Type 0 where
  pub id : Bytes
  pub kernel : Bytes
  pub rootfs : Bytes
  pub hash : Bytes

pub record Config : Type 0 where
  pub listen : Bytes
  pub token : Bytes
  pub security : Bytes
  pub adapter : Bytes
  pub tls_cert : Bytes
  pub tls_key : Bytes
  pub tls_client_ca : Bytes
  pub work_dir : Bytes
  pub device : Bytes
  pub runtime : Bytes
  pub supervisor : Bytes
  pub images : List Image
  pub slots : ℤ
  pub cpu_millis : ℤ
  pub memory_bytes : ℤ
  pub disk_bytes : ℤ
  pub network : Bytes
  pub allow : List Bytes
  pub grace : ℤ
  pub grace_text : Bytes

abbrev pub is_upper : ℕ → Bool
is_upper b = leb b'A' b && leb b b'Z'

unfoldable pub is_ascii : Bytes → Bool
is_ascii [] = true
is_ascii (b ∷ rest) = ltb b 128 && is_ascii rest

unfoldable pub lower_ascii : Bytes → Bytes
lower_ascii [] = []
lower_ascii (b ∷ rest) = (if is_upper b then b + 32 else b) ∷ lower_ascii rest

-- strings.ToLower
unfoldable pub to_lower : (Bytes → Bytes) → Bytes → Bytes
to_lower fold s = if is_ascii s then lower_ascii s else fold s

abbrev pub is_hex : ℕ → Bool
is_hex b = leb b'0' b && leb b b'9' || leb b'a' b && leb b b'f' || leb b'A' b && leb b b'F'

unfoldable pub all_hex_digits : Bytes → Bool
all_hex_digits [] = true
all_hex_digits (b ∷ rest) = is_hex b && all_hex_digits rest

-- hex.DecodeString takes an even number of hex digits, two for each byte.
unfoldable pub valid_digest : Bytes → Bool
valid_digest hash = all_hex_digits hash && length hash == 64

unfoldable pub refused {ℓ} : {A : Type ℓ} → Result A
refused = err (op_error (codes "config") (sentinel invalid))

-- the switch on cfg.Security
unfoldable pub check_security : Bytes → Bytes → Bytes → Bytes → Bytes → Result (Unit {0})
check_security security cert key token client_ca =
    if security == codes "tls"
    then (if cert == [] || key == []
        then refused
        else if token == [] && client_ca == []
        then refused
        else ok tt)
    else if security == codes "insecure_local"
    then (if token == [] || not (client_ca == []) then refused else ok tt)
    else refused

-- the switch on cfg.Adapter
unfoldable pub check_adapter : Bytes → Bytes → Result (Unit {0})
check_adapter adapter security =
    if adapter == codes "memory"
    then (if security == codes "tls" then refused else ok tt)
    else if adapter == codes "isolated"
    then ok tt
    else refused

-- the switch on cfg.Network
unfoldable pub check_network : Bytes → List Bytes → Result (Unit {0})
check_network network allow =
    if network == codes "none"
    then (if ltb 0 (length allow) then refused else ok tt)
    else if network == codes "allowlist"
    then (if length allow == 0 then refused else ok tt)
    else refused

-- What the loop does with one image
abbrev pub check_image : Bool → Image → Result (Unit {0})
check_image isolated image =
    elim (validate_spec (record { id = codes "ok"; image = image.id; network = network_none })) [
      | err e ↦ refused
      | ok _ ↦
          if isolated && (image.kernel == [] || image.rootfs == [] || not (valid_digest image.hash))
          then refused
          else ok tt
    ]

unfoldable pub check_images : Bool → List Image → Result (Unit {0})
check_images isolated [] = ok tt
check_images isolated (image ∷ rest) = check_image isolated image >> check_images isolated rest

abbrev pub check_slots : ℤ → Result (Unit {0})
check_slots slots = if not (positive slots) then refused else ok tt

-- `if cfg.GraceText != ""`
unfoldable pub read_grace : (Bytes → Option ℤ) → Bytes → ℤ → Result ℤ
read_grace parse_duration text grace = if text == [] then ok grace else elim (parse_duration text) [
  | none ↦ refused
  | some parsed ↦ if not (positive parsed) then refused else ok parsed
]

-- Lower case, and no network where none is named
unfoldable pub normalise : (Bytes → Bytes) → Config → Config
normalise fold cfg = record cfg {
  security = to_lower fold cfg.security;
  adapter = to_lower fold cfg.adapter;
  network = to_lower fold (if cfg.network == [] then codes "none" else cfg.network);
}

-- The checks of a configuration in lower case, all but the last
unfoldable pub check : Config → Result (Unit {0})
check cfg = do
  check_security cfg.security cfg.tls_cert cfg.tls_key cfg.token cfg.tls_client_ca
  check_adapter cfg.adapter cfg.security
  check_network cfg.network cfg.allow
  check_images (cfg.adapter == codes "isolated") cfg.images
  check_slots cfg.slots

abbrev pub set_grace : Config → Result ℤ → Result Config
set_grace cfg (err e) = err e
set_grace cfg (ok grace) = ok (record cfg { grace = grace })

-- validate, with the configuration as it leaves it where it accepts
unfoldable pub validate : (Bytes → Bytes) → (Bytes → Option ℤ) → Config → Result Config
validate fold parse_duration cfg =
    if cfg.listen == [] || cfg.security == [] || cfg.adapter == []
    then refused
    else let lower = normalise fold cfg in
      check lower >> set_grace lower (read_grace parse_duration lower.grace_text lower.grace)

-- Config.security
unfoldable pub host_security : Config → Security
host_security cfg =
    if cfg.security == codes "insecure_local" then security_insecure_local else security_tls

-- Config.imageIDs
unfoldable pub image_ids : Config → List Bytes
image_ids cfg = map (λ (image : Image). image.id) cfg.images
