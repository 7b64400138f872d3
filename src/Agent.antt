-- ===== src/Agent.antt =====
-- agent/watch.go: the guest agent compares two scans of the home directory and tells what changed.
pub mod Replay
pub mod Server
pub mod Client
mod Examples
use execenv.Base.{
  ℕ, Bool, true, false, not, ◌&&◌, Option, some, none, List, [], ◌∷◌, ◌++◌, Bytes, GoMap, bytes_eq,
  lookup, length, ◌==◌, nat_eq, if◌then◌else◌,
}
use execenv.Paths.{Event, Op, op_create, op_replace, op_delete, op_move}

-- hash is the SHA-256 of a file's body; a directory has the zero hash.
pub record FileMeta : Type 0 where
  pub dir : Bool
  pub hash : Bytes

-- What scanHome returns. The order of the entries is that in which the map is ranged over.
abbrev pub Scan : Type 0
Scan = GoMap Bytes FileMeta

abbrev pub is_some : {A : Type 0} → Option A → Bool
is_some none = false
is_some (some a) = true

abbrev pub has : Bytes → Scan → Bool
has path scan = is_some (lookup path scan)

-- The paths of the second scan that the first does not have.
unfoldable pub missing_from : Scan → Scan → List Bytes
missing_from other [] = []
missing_from other ((path, meta) ∷ rest) =
    let paths = missing_from other rest in if has path other then paths else path ∷ paths

abbrev pub is_edited : FileMeta → Option FileMeta → Bool
is_edited meta none = false
is_edited meta (some cur) = not meta.dir && not cur.dir && not (meta.hash == cur.hash)

abbrev pub event_of : Op → Bytes → Event
event_of op path = record { cursor = []; op = op; path = path; from = [] }

unfoldable pub edits : Scan → Scan → List Event
edits next [] = []
edits next ((path, meta) ∷ rest) =
    let events = edits next rest in
    if is_edited meta (lookup path next) then event_of op_replace path ∷ events else events

abbrev pub events_of : Op → List Bytes → List Event
events_of op [] = []
events_of op (path ∷ rest) = event_of op path ∷ events_of op rest

-- Two files with the same body.
abbrev pub same_file : Option FileMeta → Option FileMeta → Bool
same_file (some a) (some b) = not a.dir && not b.dir && a.hash == b.hash
same_file a b = false

abbrev pub moves_or : Scan → Scan → List Bytes → List Bytes → List Event
moves_or old next (d ∷ []) (c ∷ []) =
    if same_file (lookup d old) (lookup c next)
    then record { cursor = []; op = op_move; path = c; from = d } ∷ []
    else event_of op_delete d ∷ event_of op_create c ∷ []
moves_or old next deleted created = events_of op_delete deleted ++ events_of op_create created

-- agent.diffSnap
unfoldable pub diff_snap : Scan → Scan → List Event
diff_snap old next =
    edits next old ++ moves_or old next (missing_from next old) (missing_from old next)
