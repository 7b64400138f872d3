-- ===== src/Snapshot/Apply.antt =====
-- tree.Apply against a specification over views: a view says what stands at each path.
pub mod Refines
pub mod Batch
use execenv.Base.{
  ℕ, ◌+◌, ◌≤◌, ◌≡◌, ◌≢◌, ◌↔◌, ◌⊎◌, inl, inr, refl, Bool, true, false, Option, none, some, List, [],
  ◌∷◌, arith, Bytes, length, ◌==◌, bytes_eq, bytes_beq, bytes_beq_iff, lookup, insert, delete,
  lookup-insert, lookup-delete, if◌then◌else◌,
}
use execenv.Errors.{Result, ok, err, ◌>>=◌, Result-cases}
use execenv.Paths.{
  Op, op_create, op_replace, op_move, op_delete, op_unknown, validate_path, max_file_bytes,
  max_tree_bytes,
}
use execenv.Snapshot.{
  NodeKind, kind_file, kind_directory, kind_unknown, Node, Snapshot, Mutation, directory_node, put,
  apply_op, apply_one, is_file,
}

abbrev pub View : Type 0
View = Bytes → Option Node

abbrev pub view : Snapshot → View
view s p = lookup p s

-- The node that a mutation carries.
abbrev pub sent_body : Option Bytes → Bytes
sent_body none = []
sent_body (some b) = b

abbrev pub sent : NodeKind → Mutation → Node
sent kind_file m = record { kind = kind_file; version = m.version; body = sent_body m.body }
sent kind_directory m = directory_node
sent (kind_unknown n) m = directory_node

-- What one mutation does to a view.
abbrev pub act_op : Op → Mutation → View → View
act_op op_create m v p = if m.path == p then some (sent m.kind m) else v p
act_op op_replace m v p = if m.path == p then some (sent m.kind m) else v p
act_op op_delete m v p = if m.path == p then none else v p
act_op op_move m v p = if m.path == p then v m.from else if m.from == p then none else v p
act_op (op_unknown n) m v p = v p

unfoldable pub act : Mutation → View → View
act m = act_op m.op m

-- How many body bytes a mutation counts against the batch.
abbrev pub cost_op : Op → Mutation → ℕ
cost_op op_create m = length (sent m.kind m).body
cost_op op_replace m = length (sent m.kind m).body
cost_op op_delete m = 0
cost_op op_move m = 0
cost_op (op_unknown n) m = 0

unfoldable pub cost : Mutation → ℕ
cost m = cost_op m.op m

-- A directory comes without body and version, a file with a body within the limits.
abbrev pub Carries : NodeKind → Mutation → ℕ → Type 0
Carries kind_directory m total = (m.body ≡ none) × (m.version ≡ [])
Carries kind_file m total =
    (m.body ≢ none)
    × (length (sent_body m.body) ≤ max_file_bytes)
    × (total + length (sent_body m.body) ≤ max_tree_bytes)
Carries (kind_unknown n) m total = ⊥

-- The fence: an empty token asks for nothing.
abbrev pub Matches : Mutation → Node → Type 0
Matches m n = (m.expected ≡ []) ⊎ (n.version ≡ m.expected)

-- The fence of a removal or a move, which a directory always passes.
abbrev pub Unfenced : NodeKind → Mutation → Node → Type 0
Unfenced kind_file m n = Matches m n
Unfenced kind_directory m n = Unit {0}
Unfenced (kind_unknown k) m n = Unit {0}

abbrev pub Replaces : Option Node → Mutation → ℕ → Type 0
Replaces none m total = ⊥
Replaces (some n) m total = (n.kind ≡ kind_file) × Matches m n × Carries m.kind m total

abbrev pub Removes : Option Node → Mutation → Type 0
Removes none m = ⊥
Removes (some n) m = Unfenced n.kind m n

abbrev pub AllowedOp : Op → Mutation → View → ℕ → Type 0
AllowedOp op_create m v total = (v m.path ≡ none) × Carries m.kind m total
AllowedOp op_replace m v total = Replaces (v m.path) m total
AllowedOp op_delete m v total = Removes (v m.path) m
AllowedOp op_move m v total =
    (validate_path m.from ≡ ok tt) × Removes (v m.from) m × (v m.path ≡ none)
AllowedOp (op_unknown n) m v total = ⊥

pub record Allowed (m : Mutation) (v : View) (total : ℕ) : Type 0 where
  pub valid : validate_path m.path ≡ ok tt
  pub fits : AllowedOp m.op m v total

-- What a result of `applyOne` says of the view before it.
abbrev pub Does : Op → Mutation → Snapshot → ℕ → Snapshot × ℕ → Type 0
Does o m s total (s', total') =
    AllowedOp o m (view s) total
    × (total' ≡ total + cost_op o m)
    × ((p : Bytes) → view s' p ≡ act_op o m (view s) p)

put_sound :
    (k : NodeKind) (m : Mutation) (s : Snapshot) (total : ℕ) (s' : Snapshot) (total' : ℕ)
    → m.kind ≡ k
    → put s m total ≡ ok (s', total')
    → Carries k m total
      × (total' ≡ total + length (sent k m).body)
      × (s' ≡ insert m.path (sent k m) s)
unfolding put
put_sound kind_file m s total s' total' e h = ground arith
put_sound kind_directory m s total s' total' e h = ground (arith, bytes_beq_iff m.version [])
put_sound (kind_unknown n) m s total s' total' e h = ground arith

put_complete :
    (k : NodeKind) (m : Mutation) (s : Snapshot) (total : ℕ)
    → m.kind ≡ k
    → Carries k m total
    → put s m total ≡ ok (insert m.path (sent k m) s, total + length (sent k m).body)
unfolding put
put_complete kind_file m s total e h = ground arith
put_complete kind_directory m s total e h = ground (arith, bytes_beq_iff m.version [])
put_complete (kind_unknown n) m s total e h = absurd h
