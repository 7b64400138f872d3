-- ===== src/Agent/Examples.antt =====
-- The theorem on scans where a file is renamed while another one is edited.
use execenv.Base.{◌≡◌, refl, false, [], ◌∷◌, codes, bytes_eq, lookup, bytes_beq}
use execenv.Paths.{op_replace, op_move}
use execenv.Agent.{FileMeta, Scan, diff_snap, event_of, edits, missing_from}

abbrev file : FileMeta
file = record { dir = false; hash = codes "h1" }

abbrev edited : FileMeta
edited = record { dir = false; hash = codes "h2" }

abbrev before : Scan
before = (codes "draft", file) ∷ (codes "notes", file) ∷ []

abbrev after : Scan
after = (codes "notes", edited) ∷ (codes "final", file) ∷ []

renamed :
    diff_snap before after
    ≡ event_of op_replace (codes "notes")
      ∷ record { cursor = []; op = op_move; path = codes "final"; from = codes "draft" }
      ∷ []
unfolding diff_snap edits missing_from lookup bytes_beq
renamed = refl
