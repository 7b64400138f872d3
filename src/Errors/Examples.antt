-- ===== src/Errors/Examples.antt =====
-- The theorems on status names at concrete errors.
use execenv.Base.{◌≡◌, some, codes}
use execenv.Errors.{capacity, deadline_exceeded, canceled, Error, sentinel, op_error}
use execenv.Errors.Status.{status_of, error_from_status, error_from_status-status_of}

abbrev full_host : Error
full_host = op_error (codes "ensure") (sentinel capacity)

error_from_status-status_of_example :
    error_from_status (status_of (some (op_error (codes "ready") (sentinel deadline_exceeded))))
    ≡ some (sentinel canceled)
error_from_status-status_of_example =
    error_from_status-status_of (some (op_error (codes "ready") (sentinel deadline_exceeded)))
