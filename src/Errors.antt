-- ===== src/Errors.antt =====
-- errors.go: the sentinels, `OpError` and `errors.Is`, with Go's (value, error) results.
-- internal/mux/status.go, the names of the sentinels on the wire, is the child `Status`.
pub mod Status
mod Examples
use execenv.Base.{
  ℕ, Bool, true, false, Option, none, some, Bytes, nat_beq, ◌≡◌, refl, ◌⊎◌, inl, inr,
}

-- The package's sentinels, and those of `context` and `io` that the code compares with.
pub data Sentinel : Type 0 where
  invalid unknown_image capacity conflict unavailable frozen revoked : Sentinel
  busy closed not_found lagged too_large connection network : Sentinel
  canceled deadline_exceeded eof : Sentinel

-- Each `errors.New` value is equal to itself only.
unfoldable pub sentinel_rank : Sentinel → ℕ
sentinel_rank invalid = 0
sentinel_rank unknown_image = 1
sentinel_rank capacity = 2
sentinel_rank conflict = 3
sentinel_rank unavailable = 4
sentinel_rank frozen = 5
sentinel_rank revoked = 6
sentinel_rank busy = 7
sentinel_rank closed = 8
sentinel_rank not_found = 9
sentinel_rank lagged = 10
sentinel_rank too_large = 11
sentinel_rank connection = 12
sentinel_rank network = 13
sentinel_rank canceled = 14
sentinel_rank deadline_exceeded = 15
sentinel_rank eof = 16

-- `other` is an error value of code outside the module, known by its message only.
pub data Error : Type 0 where
  sentinel : Sentinel → Error
  other : Bytes → Error
  op_error : Bytes → Error → Error

-- execenv.Error(op, err)
unfoldable pub annotate : Bytes → Option Error → Option Error
annotate op none = none
annotate op (some e) = some (op_error op e)

-- errors.Is(err, target) for a sentinel target, along OpError.Unwrap
unfoldable pub is : Error → Sentinel → Bool
unfolding sentinel_rank
is (sentinel s) t = nat_beq (sentinel_rank s) (sentinel_rank t)
is (other msg) t = false
is (op_error op e) t = is e t

pub data Result {ℓ} (A : Type ℓ) : Type ℓ where
  ok : A → Result A
  err : Error → Result A

infixl 5 ◌>>=◌ ◌>>◌
-- if err != nil { return err }
abbrev pub ◌>>=◌ {κ μ} :
    {T : Type κ} {U : Type μ} (first : Result T) (next : T → Result U) → Result U
err e >>= next = err e
ok value >>= next = next value

abbrev pub ◌>>◌ {κ} : {U : Type κ} (check : Result (Unit {0})) (next : Result U) → Result U
err e >> next = err e
ok done >> next = next

abbrev pub fail {ℓ} : {A : Type ℓ} → Sentinel → Result A
fail s = err (sentinel s)

pub Result-cases {ℓ} :
    {A : Type ℓ} (r : Result A) → ((a : A) × (r ≡ ok a)) ⊎ ((e : Error) × (r ≡ err e))
Result-cases (ok a) = inl (a, refl)
Result-cases (err e) = inr (e, refl)
