-- ===== src/Snapshot.antt =====
-- internal/tree/tree.go: the next projected snapshot for ReplaceTree and Apply, over the data of
-- tree.go (Node, Tree, Mutation, Batch).
pub mod Replace
pub mod Apply
pub mod Invariant
mod Examples
use execenv.Base.{
  ℕ, ◌+◌, Bool, true, false, not, ◌&&◌, ◌||◌, Option, none, some, List, [], ◌∷◌, Bytes, length, ltb,
  ◌==◌, bytes_eq, GoMap, lookup, insert, delete, if◌then◌else◌,
}
use execenv.Errors.{Result, ok, err, fail, invalid, conflict, not_found, too_large, ◌>>=◌, ◌>>◌}
use execenv.Paths.{
  Op, op_create, op_replace, op_move, op_delete, op_unknown, validate_path, max_tree_entries,
  max_file_bytes, max_tree_bytes,
}

-- A Go `uint8` whose named values are these two.
pub data NodeKind : Type 0 where
  kind_file kind_directory : NodeKind
  kind_unknown : ℕ → NodeKind

-- execenv.Node; `none` is nil Data, `some []` an empty file
pub record TreeNode : Type 0 where
  pub path : Bytes
  pub kind : NodeKind
  pub version : Bytes
  pub body : Option Bytes

abbrev pub Tree : Type 0
Tree = List TreeNode

-- tree.Node; the code never tells nil from empty here
pub record Node : Type 0 where
  pub kind : NodeKind
  pub version : Bytes
  pub body : Bytes

abbrev pub Snapshot : Type 0
Snapshot = GoMap Bytes Node

pub record Mutation : Type 0 where
  pub op : Op
  pub path : Bytes
  pub from : Bytes
  pub kind : NodeKind
  pub version : Bytes
  pub expected : Bytes
  pub body : Option Bytes

abbrev pub is_file : NodeKind → Bool
is_file kind_file = true
is_file kind_directory = false
is_file (kind_unknown n) = false

abbrev pub is_nil : Option Bytes → Bool
is_nil none = true
is_nil (some b) = false

abbrev pub directory_node : Node
directory_node = record { kind = kind_directory; version = []; body = [] }

-- Go's zero Node where the key is absent
abbrev pub zero_or : Option Node → Node
zero_or (some node) = node
zero_or none = record { kind = kind_file; version = []; body = [] }

-- current[path]
unfoldable pub existing_node : Snapshot → Bytes → Node
existing_node current path = zero_or (lookup path current)

unfoldable pub resolve_body_of : Node → Bytes → Option Bytes → Result Bytes
resolve_body_of existing version (some body) = ok body
resolve_body_of existing version none =
    if not (is_file existing.kind) || existing.version == [] || not (existing.version == version)
    then fail invalid
    else ok existing.body

unfoldable pub resolve_body : Node → TreeNode → Result Bytes
unfolding resolve_body_of
resolve_body existing item = resolve_body_of existing item.version item.body

-- The `switch item.Kind` of Replace: the node to store and the running total.
unfoldable pub replace_kind : NodeKind → Snapshot → TreeNode → ℕ → Result (Node × ℕ)
unfolding resolve_body existing_node
replace_kind kind_directory current item total =
    if not (item.version == []) || not (is_nil item.body)
    then fail invalid
    else ok (directory_node, total)
replace_kind kind_file current item total = do
  body ← resolve_body (existing_node current item.path) item
  let total' = total + length body
  if ltb max_file_bytes (length body) || ltb max_tree_bytes total'
      then fail too_large
      else ok (record { kind = kind_file; version = item.version; body = body }, total')
replace_kind (kind_unknown n) current item total = fail invalid

-- `_, dup := seen[path]`
abbrev pub is_seen : Option (Unit {0}) → Bool
is_seen none = false
is_seen (some u) = true

-- One round of the loop of Replace, up to the node that it stores.
unfoldable pub replace_item : Snapshot → TreeNode → GoMap Bytes (Unit {0}) → ℕ → Result (Node × ℕ)
unfolding replace_kind
replace_item current item seen total = do
  validate_path item.path
  if is_seen (lookup item.path seen)
      then fail invalid
      else replace_kind item.kind current item total

unfoldable pub replace_loop :
    Snapshot → Tree → ℕ → GoMap Bytes (Unit {0}) → Snapshot → Result Snapshot
replace_loop current [] total seen next = ok next
replace_loop current (item ∷ rest) total seen next = do
  (node, total') ← replace_item current item seen total
  replace_loop current rest total' (insert item.path tt seen) (insert item.path node next)

-- tree.Replace
unfoldable pub replace : Snapshot → Tree → Result Snapshot
replace current tree =
    if ltb max_tree_entries (length tree) then fail too_large else replace_loop current tree 0 [] []

-- tree.put; `next` comes back with the new total
abbrev pub put_file : Snapshot → Mutation → ℕ → Option Bytes → Result (Snapshot × ℕ)
put_file next mut total none = fail invalid
put_file next mut total (some body) =
    if ltb max_file_bytes (length body)
    then fail too_large
    else if ltb max_tree_bytes (total + length body)
    then fail too_large
    else ok (
      insert mut.path (record { kind = kind_file; version = mut.version; body = body }) next,
      total + length body,
    )

abbrev pub put_kind : NodeKind → Snapshot → Mutation → ℕ → Result (Snapshot × ℕ)
put_kind kind_directory next mut total =
    if not (is_nil mut.body) || not (mut.version == [])
    then fail invalid
    else ok (insert mut.path directory_node next, total)
put_kind kind_file next mut total = put_file next mut total mut.body
put_kind (kind_unknown n) next mut total = fail invalid

unfoldable pub put : Snapshot → Mutation → ℕ → Result (Snapshot × ℕ)
put next mut total = put_kind mut.kind next mut total

-- `mut.Expected != "" && ent.Kind == KindFile && ent.Version != mut.Expected`
abbrev pub is_fenced : Mutation → Node → Bool
is_fenced mut ent =
    not (mut.expected == []) && is_file ent.kind && not (ent.version == mut.expected)

abbrev pub apply_create : Snapshot → Mutation → ℕ → Option Node → Result (Snapshot × ℕ)
apply_create next mut total (some ent) = fail conflict
apply_create next mut total none = put next mut total

abbrev pub apply_replace : Snapshot → Mutation → ℕ → Option Node → Result (Snapshot × ℕ)
apply_replace next mut total none = fail not_found
apply_replace next mut total (some ent) =
    if not (is_file ent.kind)
    then fail not_found
    else if not (mut.expected == []) && not (ent.version == mut.expected)
    then fail conflict
    else put next mut total

abbrev pub apply_delete : Snapshot → Mutation → ℕ → Option Node → Result (Snapshot × ℕ)
apply_delete next mut total none = fail not_found
apply_delete next mut total (some ent) =
    if is_fenced mut ent then fail conflict else ok (delete mut.path next, total)

abbrev pub apply_move : Snapshot → Mutation → ℕ → Option Node → Option Node → Result (Snapshot × ℕ)
apply_move next mut total none target = fail not_found
apply_move next mut total (some ent) target =
    if is_fenced mut ent then fail conflict else elim target [
      | some other ↦ fail conflict
      | none ↦ ok (insert mut.path ent (delete mut.from next), total)
    ]

abbrev pub apply_op : Op → Snapshot → Mutation → ℕ → Result (Snapshot × ℕ)
apply_op op_create next mut total = apply_create next mut total (lookup mut.path next)
apply_op op_replace next mut total = apply_replace next mut total (lookup mut.path next)
apply_op op_delete next mut total = apply_delete next mut total (lookup mut.path next)
apply_op op_move next mut total =
    validate_path mut.from
    >> apply_move next mut total (lookup mut.from next) (lookup mut.path next)
apply_op (op_unknown n) next mut total = fail invalid

-- tree.applyOne
unfoldable pub apply_one : Snapshot → Mutation → ℕ → Result (Snapshot × ℕ)
apply_one next mut total = validate_path mut.path >> apply_op mut.op next mut total

unfoldable pub apply_loop : Snapshot → List Mutation → ℕ → Result Snapshot
apply_loop next [] total = ok next
apply_loop next (mut ∷ rest) total = do
  (next', total') ← apply_one next mut total
  apply_loop next' rest total'

-- tree.Apply
unfoldable pub apply : Snapshot → List Mutation → Result Snapshot
apply current batch =
    if ltb max_tree_entries (length batch) then fail too_large else apply_loop current batch 0
