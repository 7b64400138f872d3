-- ===== src/Snapshot/Examples.antt =====
-- The theorems on snapshots at concrete trees and batches.
use execenv.Base.{
  bytes_eq, ◌≡◌, refl, none, some, List, [], ◌∷◌, codes, bytes_beq, valid_string, contains_byte,
  split, lookup, insert, delete, ◌↔◌, ◌≤◌, length,
}
use execenv.Errors.{ok}
use execenv.Paths.{
  op_move, op_create, validate_path, has_prefix_slash, has_suffix_slash, check_segments,
  check_segment, max_tree_entries,
}
use execenv.Snapshot.Replace.{wanted}
use execenv.Snapshot.Replace.Match.{replace_matches}
use execenv.Snapshot.Apply.{view}
use execenv.Snapshot.Apply.Batch.{AllowedAll, acts, apply-AllowedAll, apply_refines}
use execenv.Snapshot.{
  kind_file, kind_directory, Tree, Node, Snapshot, Mutation, replace, replace_loop, replace_item,
  put, apply_one, apply_loop, apply,
}

abbrev notes : Node
notes = record { kind = kind_file; version = codes "v1"; body = 104 ∷ 105 ∷ [] }

abbrev held_snapshot : Snapshot
held_snapshot = (codes "notes", notes) ∷ (codes "old", notes) ∷ []

abbrev small_tree : Tree
small_tree =
    record { path = codes "src"; kind = kind_directory; version = []; body = none }
    ∷ record { path = codes "notes"; kind = kind_file; version = codes "v1"; body = none }
    ∷ []

abbrev directory : Node
directory = record { kind = kind_directory; version = []; body = [] }

abbrev small_next : Snapshot
small_next = (codes "src", directory) ∷ (codes "notes", notes) ∷ []

small_replace : replace held_snapshot small_tree ≡ ok small_next
unfolding validate_path bytes_beq valid_string has_prefix_slash contains_byte has_suffix_slash split
    check_segments check_segment replace replace_loop replace_item lookup insert
small_replace = refl

abbrev blank_mutation : Mutation
blank_mutation = record {
  op = op_create;
  path = codes "src/a";
  from = [];
  kind = kind_file;
  version = codes "v2";
  expected = [];
  body = some (1 ∷ []);
}

-- Create src/a, then move it to src/b.
abbrev create_and_move : List Mutation
create_and_move =
    blank_mutation
    ∷ record blank_mutation {
      op = op_move;
      path = codes "src/b";
      from = codes "src/a";
      body = none;
    }
    ∷ []

abbrev moved_node : Node
moved_node = record { kind = kind_file; version = codes "v2"; body = 1 ∷ [] }

small_apply : apply [] create_and_move ≡ ok ((codes "src/b", moved_node) ∷ [])
unfolding validate_path bytes_beq valid_string has_prefix_slash contains_byte has_suffix_slash split
    check_segments check_segment apply apply_loop apply_one put lookup insert delete
small_apply = refl

replace_matches_example :
    lookup (codes "old") small_next ≡ wanted held_snapshot small_tree (codes "old")
replace_matches_example =
    replace_matches held_snapshot small_tree small_next (codes "old") small_replace

apply-AllowedAll_example :
    ((out : Snapshot) × (apply [] create_and_move ≡ ok out))
    ↔ ((length create_and_move ≤ max_tree_entries) × AllowedAll (view []) create_and_move 0)
apply-AllowedAll_example = apply-AllowedAll [] create_and_move

apply_refines_example : view ((codes "src/b", moved_node) ∷ []) ≡ acts create_and_move (view [])
apply_refines_example = apply_refines [] create_and_move _ small_apply
