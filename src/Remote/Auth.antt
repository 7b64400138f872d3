-- ===== src/Remote/Auth.antt =====
-- remote/config.go, and the authentication of remote/server.go. What the TLS configuration and the
-- address are made of is asked of crypto/tls and net, and is an argument.
mod Examples
use execenv.Base.{
  refl, inl, inr, Bool, true, false, not, ◌||◌, ◌&&◌, Option, none, some, List, [], ◌∷◌, Bytes,
  codes, bytes_beq, bytes_eq, ◌==◌, if◌then◌else◌, Option-cases, Bool-cases,
}
use execenv.Errors.{Error, sentinel, op_error, invalid, unavailable, Result, ok, err, fail}

-- Any other uint8 falls to the default of each switch.
pub data Security : Type 0 where
  security_tls : Security
  security_insecure_local : Security
  security_unknown : Security

-- The fields of a tls.Config that the checks look at
pub record TlsConfig : Type 0 where
  pub has_certificates : Bool
  pub has_get_client_certificate : Bool
  pub has_client_cas : Bool
  -- VerifyClientCertIfGiven or RequireAndVerifyClientCert
  pub verifies_client : Bool

pub record Config : Type 0 where
  pub address : Bytes
  pub tls : Option TlsConfig
  pub security : Security
  pub token : Bytes

pub record ServerConfig : Type 0 where
  pub security : Security
  pub tls : Option TlsConfig
  pub token : Bytes
  pub claim : Bytes

-- ServerConfig.claimed
unfoldable pub claimed : Bytes → ServerConfig → Bytes
claimed release cfg = if not (cfg.claim == []) then cfg.claim else release

-- validateClient, where `loopback` is isLoopback
unfoldable pub validate_client : (Bytes → Bool) → Config → Result (Unit {0})
validate_client loopback cfg =
    let refused : Result (Unit {0}) = err (op_error (codes "dial") (sentinel invalid)) in
    if cfg.address == [] then refused else elim cfg.security [
      | security_tls ↦ elim cfg.tls [
        | none ↦ refused
        | some tls ↦
            if cfg.token == [] && not tls.has_certificates && not tls.has_get_client_certificate
            then refused
            else ok tt
      ]
      | security_insecure_local ↦ if not (loopback cfg.address) then refused else ok tt
      | security_unknown ↦ refused
    ]

-- validateServer
unfoldable pub validate_server : ServerConfig → Result (Unit {0})
validate_server cfg =
    let refused : Result (Unit {0}) = err (op_error (codes "serve") (sentinel invalid)) in
    elim cfg.security [
      | security_tls ↦ elim cfg.tls [
        | none ↦ refused
        | some tls ↦
            if cfg.token == [] && not (tls.has_client_cas && tls.verifies_client)
            then refused
            else ok tt
      ]
      | security_insecure_local ↦ if cfg.token == [] then refused else ok tt
      | security_unknown ↦ refused
    ]

-- What net.SplitHostPort and net.ParseIP make of an address: its host, where there is a port, and
-- for a host that is an address, whether that is a loopback one. `folded` is strings.EqualFold with
-- "localhost".
unfoldable pub is_loopback : Option Bytes → (Bytes → Option Bool) → (Bytes → Bool) → Bytes → Bool
is_loopback split parse folded address =
    let host : Bytes = elim split [ none ↦ address | some host ↦ host ] in
    if host == codes "localhost"
    then true
    else elim (parse host) [ some loopback ↦ loopback | none ↦ folded host ]

pub record AuthArgs : Type 0 where
  pub token : Bytes
  pub release : Bytes

-- serverConn.auth; certified is whether the peer's certificate was verified.
unfoldable pub auth : Bytes → ServerConfig → Bool → Option AuthArgs → Option Error
auth release cfg certified none = some (sentinel invalid)
auth release cfg certified (some args) =
    if not (not (cfg.token == []) && cfg.token == args.token) && not certified
    then some (sentinel invalid)
    else if not (args.release == claimed release cfg)
    then some (sentinel unavailable)
    else none
