-- ===== src/Paths.antt =====
-- tree.go: the limits, ValidatePath and ValidateEvent.
pub mod Laws
mod Examples
use execenv.Base.{
  ℕ, Bool, true, false, not, ◌&&◌, ◌||◌, List, [], ◌∷◌, Bytes, codes, length, ltb, ◌==◌, nat_eq,
  bytes_eq, valid_string, split, contains_byte, if◌then◌else◌,
}
use execenv.Errors.{Result, ok, err, fail, invalid, ◌>>=◌, ◌>>◌}

abbrev pub max_tree_entries : ℕ
max_tree_entries = 500

abbrev pub max_file_bytes : ℕ
max_file_bytes = 10485760

abbrev pub max_tree_bytes : ℕ
max_tree_bytes = 52428800

abbrev pub max_path_bytes : ℕ
max_path_bytes = 1024

abbrev pub max_path_segments : ℕ
max_path_segments = 16

abbrev pub max_segment_bytes : ℕ
max_segment_bytes = 255

abbrev pub max_cursor_bytes : ℕ
max_cursor_bytes = 128

unfoldable pub has_suffix_slash : Bytes → Bool
has_suffix_slash [] = false
has_suffix_slash (c ∷ []) = c == b'/'
has_suffix_slash (c ∷ d ∷ s) = has_suffix_slash (d ∷ s)

unfoldable pub has_prefix_slash : Bytes → Bool
has_prefix_slash [] = false
has_prefix_slash (c ∷ s) = c == b'/'

-- some part[i] < 0x20
unfoldable pub has_control : Bytes → Bool
has_control [] = false
has_control (c ∷ s) = ltb c 0x20 || has_control s

-- the body of the loop over the parts
unfoldable pub check_segment : Bytes → Bool
unfolding has_control
check_segment part =
    not (part == [] || part == codes "." || part == codes "..")
    && not (ltb max_segment_bytes (length part))
    && not (has_control part)

unfoldable pub check_segments : List Bytes → Bool
check_segments [] = true
check_segments (p ∷ ps) = check_segment p && check_segments ps

unfoldable pub validate_path : Bytes → Result (Unit {0})
validate_path path =
    if path == [] || not (valid_string path) || ltb max_path_bytes (length path)
    then fail invalid
    else if has_prefix_slash path || contains_byte b'\\' path || contains_byte 0 path
    then fail invalid
    else if has_suffix_slash path
    then fail invalid
    else let parts = split b'/' path in
      if ltb max_path_segments (length parts)
      then fail invalid
      else if check_segments parts
      then ok tt
      else fail invalid

-- The kind of a change; Go's `uint8` has other values too.
pub data Op : Type 0 where
  op_create op_replace op_move op_delete : Op
  op_unknown : ℕ → Op

pub record Event : Type 0 where
  pub cursor : Bytes
  pub op : Op
  pub path : Bytes
  pub from : Bytes

abbrev pub validate_from : Op → Bytes → Result (Unit {0})
validate_from op_create from = if from == [] then ok tt else fail invalid
validate_from op_replace from = if from == [] then ok tt else fail invalid
validate_from op_delete from = if from == [] then ok tt else fail invalid
validate_from op_move from = validate_path from
validate_from (op_unknown n) from = fail invalid

unfoldable pub validate_event : Event → Result (Unit {0})
validate_event e =
    if e.cursor == [] || ltb max_cursor_bytes (length e.cursor) || not (valid_string e.cursor)
    then fail invalid
    else (validate_path e.path >> validate_from e.op e.from)
