-- ===== src/Errors/Status.antt =====
-- internal/mux/status.go: errors cross the wire as status names.
use execenv.Base.{
  ◌≡◌, refl, Bool, Option, none, some, [], ◌||◌, arith, Bytes, codes, bytes_beq, bytes_beq_iff,
  ◌==◌, bytes_eq, if◌then◌else◌,
}
use execenv.Errors.{
  Sentinel, invalid, unknown_image, capacity, conflict, unavailable, frozen, revoked, busy, closed,
  not_found, lagged, too_large, connection, network, canceled, deadline_exceeded, eof, Error,
  sentinel, other, op_error, is, annotate,
}

-- mux.StatusOf; `none` is the nil error
unfoldable pub status_of : Option Error → Bytes
unfolding is
status_of none = []
status_of (some e) =
    if is e invalid
    then codes "invalid"
    else if is e unknown_image
    then codes "unknown_image"
    else if is e capacity
    then codes "capacity"
    else if is e conflict
    then codes "conflict"
    else if is e unavailable
    then codes "unavailable"
    else if is e frozen
    then codes "frozen"
    else if is e revoked
    then codes "revoked"
    else if is e busy
    then codes "busy"
    else if is e closed
    then codes "closed"
    else if is e not_found
    then codes "not_found"
    else if is e lagged
    then codes "lagged"
    else if is e too_large
    then codes "too_large"
    else if is e connection
    then codes "connection"
    else if is e network
    then codes "network"
    else if is e canceled || is e deadline_exceeded
    then codes "canceled"
    else codes "unavailable"

-- mux.ErrorFromStatus
unfoldable pub error_from_status : Bytes → Option Error
error_from_status s =
    if s == []
    then none
    else if s == codes "invalid"
    then some (sentinel invalid)
    else if s == codes "unknown_image"
    then some (sentinel unknown_image)
    else if s == codes "capacity"
    then some (sentinel capacity)
    else if s == codes "conflict"
    then some (sentinel conflict)
    else if s == codes "unavailable"
    then some (sentinel unavailable)
    else if s == codes "frozen"
    then some (sentinel frozen)
    else if s == codes "revoked"
    then some (sentinel revoked)
    else if s == codes "busy"
    then some (sentinel busy)
    else if s == codes "closed"
    then some (sentinel closed)
    else if s == codes "not_found"
    then some (sentinel not_found)
    else if s == codes "lagged"
    then some (sentinel lagged)
    else if s == codes "too_large"
    then some (sentinel too_large)
    else if s == codes "connection"
    then some (sentinel connection)
    else if s == codes "network"
    then some (sentinel network)
    else if s == codes "canceled"
    then some (sentinel canceled)
    else some (sentinel unavailable)

-- What a client can learn of an error: its sentinel, with the two context errors as one, and
-- `unavailable` for anything that is not the package's.
abbrev pub public_sentinel : Sentinel → Sentinel
public_sentinel deadline_exceeded = canceled
public_sentinel eof = unavailable
public_sentinel s = s

abbrev pub public_error : Error → Sentinel
public_error (sentinel s) = public_sentinel s
public_error (other msg) = unavailable
public_error (op_error op e) = public_error e

-- An error that crosses the wire comes back as its public sentinel: the operation names it was
-- wrapped in and the text of a foreign error are gone, and nil stays nil.
pub error_from_status-status_of :
    (o : Option Error)
    → error_from_status (status_of o)
      ≡ elim o [ none ↦ none | some e ↦ some (sentinel (public_error e)) ]
unfolding status_of error_from_status bytes_beq
error_from_status-status_of none = refl
error_from_status-status_of (some (other msg)) = refl
error_from_status-status_of (some (op_error op e)) = error_from_status-status_of (some e)
error_from_status-status_of (some (sentinel invalid)) = refl
error_from_status-status_of (some (sentinel _)) = refl

-- Annotating an error with an operation leaves its status, and `errors.Is` on every sentinel, as
-- they were.
pub annotate_transparent :
    (op : Bytes) (o : Option Error)
    → (status_of (annotate op o) ≡ status_of o)
      × ((e : Error) (s : Sentinel) → o ≡ some e → is (op_error op e) s ≡ is e s)
unfolding annotate status_of
annotate_transparent op none = (refl, λ e s h. refl)
annotate_transparent op (some e) = (refl, λ e s h. refl)

-- The names that the two functions agree on.
abbrev pub known_status : Bytes → Bool
known_status s =
    s == []
    || s == codes "invalid"
    || s == codes "unknown_image"
    || s == codes "capacity"
    || s == codes "conflict"
    || s == codes "unavailable"
    || s == codes "frozen"
    || s == codes "revoked"
    || s == codes "busy"
    || s == codes "closed"
    || s == codes "not_found"
    || s == codes "lagged"
    || s == codes "too_large"
    || s == codes "connection"
    || s == codes "network"
    || s == codes "canceled"

-- A known status survives the way to an error and back, and any other becomes "unavailable".
pub status_of-error_from_status :
    (s : Bytes)
    → status_of (error_from_status s) ≡ (if known_status s then s else codes "unavailable")
unfolding status_of error_from_status
status_of-error_from_status s = ground (
  arith,
  bytes_beq_iff s [],
  bytes_beq_iff s (codes "invalid"),
  bytes_beq_iff s (codes "unknown_image"),
  bytes_beq_iff s (codes "capacity"),
  bytes_beq_iff s (codes "conflict"),
  bytes_beq_iff s (codes "unavailable"),
  bytes_beq_iff s (codes "frozen"),
  bytes_beq_iff s (codes "revoked"),
  bytes_beq_iff s (codes "busy"),
  bytes_beq_iff s (codes "closed"),
  bytes_beq_iff s (codes "not_found"),
  bytes_beq_iff s (codes "lagged"),
  bytes_beq_iff s (codes "too_large"),
  bytes_beq_iff s (codes "connection"),
  bytes_beq_iff s (codes "network"),
  bytes_beq_iff s (codes "canceled"),
)
