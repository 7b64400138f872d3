-- ===== src/Remote/Auth/Examples.antt =====
-- The authentication theorem, for a server that has a token.
use execenv.Base.{◌≡◌, false, none, some, [], codes, refl, bytes_beq}
use execenv.Errors.{ok}
use execenv.Remote.Auth.{
  ServerConfig, AuthArgs, security_insecure_local, auth, claimed, validate_server,
}

abbrev local_server : ServerConfig
local_server = record {
  security = security_insecure_local;
  tls = none;
  token = codes "s3cret";
  claim = [];
}

abbrev right_token : AuthArgs
right_token = record { token = codes "s3cret"; release = codes "v1.2.0" }

accepted : auth (codes "v1.2.0") local_server false (some right_token) ≡ none
unfolding auth claimed bytes_beq
accepted = refl

served : validate_server local_server ≡ ok tt
unfolding validate_server bytes_beq
served = refl
