-- ===== src/Snapshot/Replace.antt =====
-- tree.Replace against its description: which trees it accepts, and that the new snapshot matches
-- the tree exactly.
pub mod Match
use execenv.Base.{
  ℕ, ◌+◌, ◌≤◌, ◌≡◌, ◌≢◌, ◌↔◌, ◌⊎◌, inl, inr, refl, Bool, true, false, Option, none, some, List, [],
  ◌∷◌, arith, Bytes, length, All, ◌==◌, bytes_eq, bytes_beq, bytes_beq_iff, lookup, insert,
  lookup-insert, GoMap, if◌then◌else◌,
}
use execenv.Errors.{Result, ok, err, Result-cases}
use execenv.Paths.{validate_path, max_tree_entries, max_file_bytes, max_tree_bytes}
use execenv.Snapshot.{
  NodeKind, kind_file, kind_directory, kind_unknown, TreeNode, Tree, Node, Snapshot, is_file,
  directory_node, zero_or, existing_node, resolve_body, resolve_body_of, replace_kind, replace_item,
  replace_loop, replace,
}

-- What a listed node becomes: a directory without content, or a file with the body sent, or kept.
abbrev pub body_or : Snapshot → TreeNode → Option Bytes → Bytes
body_or current item (some b) = b
body_or current item none = (existing_node current item.path).body

abbrev pub body_of : Snapshot → TreeNode → Bytes
body_of current item = body_or current item item.body

abbrev pub node_of : Snapshot → TreeNode → NodeKind → Node
node_of current item kind_file = record {
  kind = kind_file;
  version = item.version;
  body = body_of current item;
}
node_of current item kind_directory = directory_node
node_of current item (kind_unknown n) = directory_node

-- The node that a tree puts at a path, from its first entry there.
unfoldable pub wanted : Snapshot → Tree → Bytes → Option Node
wanted current [] p = none
wanted current (item ∷ rest) p =
    if item.path == p then some (node_of current item item.kind) else wanted current rest p

-- A file may be sent without a body only where the host has that path at that version.
abbrev pub Held : Option Node → Bytes → Type 0
Held none version = ⊥
Held (some n) version = (n.kind ≡ kind_file) × (n.version ≢ []) × (n.version ≡ version)

abbrev pub HasBody : Snapshot → TreeNode → Option Bytes → Type 0
HasBody current item (some b) = Unit {0}
HasBody current item none = Held (lookup item.path current) item.version

abbrev pub FitsKind : Snapshot → TreeNode → NodeKind → Type 0
FitsKind current item kind_file =
    HasBody current item item.body × (length (body_of current item) ≤ max_file_bytes)
FitsKind current item kind_directory = (item.version ≡ []) × (item.body ≡ none)
FitsKind current item (kind_unknown n) = ⊥

pub record IsItem (current : Snapshot) (item : TreeNode) : Type 0 where
  pub valid : validate_path item.path ≡ ok tt
  pub fits : FitsKind current item item.kind

-- No two entries share a path.
abbrev pub DistinctPaths : Tree → Type 0
DistinctPaths [] = Unit {0}
DistinctPaths (item ∷ rest) = All (λ (j : TreeNode). j.path ≢ item.path) rest × DistinctPaths rest

abbrev pub tree_bytes : Snapshot → Tree → ℕ
tree_bytes current [] = 0
tree_bytes current (item ∷ rest) =
    length (node_of current item item.kind).body + tree_bytes current rest

pub record Admissible (current : Snapshot) (tree : Tree) : Type 0 where
  pub few : length tree ≤ max_tree_entries
  pub items : All (IsItem current) tree
  pub distinct : DistinctPaths tree
  pub small : tree_bytes current tree ≤ max_tree_bytes

-- resolveBody, on a path that `o` is the current node of
keep_iff :
    (o : Option Node) (version body : Bytes)
    → (resolve_body_of (zero_or o) version none ≡ ok body)
      ↔ (Held o version × ((zero_or o).body ≡ body))
unfolding resolve_body_of bytes_beq
keep_iff none version body = ground arith
keep_iff (some n) version body = (
  λ h. ground (arith, bytes_beq_iff n.version [], bytes_beq_iff n.version version),
  λ (held, e). ground (arith, bytes_beq_iff n.version [], bytes_beq_iff n.version version),
)

resolve_body_iff :
    (current : Snapshot) (item : TreeNode) (o : Option Bytes) (body : Bytes)
    → (resolve_body_of (existing_node current item.path) item.version o ≡ ok body)
      ↔ (HasBody current item o × (body_or current item o ≡ body))
unfolding existing_node
resolve_body_iff current item (some b) body =
    unfold resolve_body_of in (λ h. (tt, ground arith), λ h. ground arith)
resolve_body_iff current item none body = keep_iff (lookup item.path current) item.version body

replace_kind_sound :
    (k : NodeKind) (current : Snapshot) (item : TreeNode) (total : ℕ) (node : Node) (total' : ℕ)
    → replace_kind k current item total ≡ ok (node, total')
    → FitsKind current item k
      × (node ≡ node_of current item k)
      × (total' ≡ total + length (node_of current item k).body)
      × (total ≤ max_tree_bytes → total' ≤ max_tree_bytes)
replace_kind_sound kind_file current item total node total' h =
    unfold replace_kind in
    elim (Result-cases (resolve_body_of (existing_node current item.path) item.version item.body)) [
      | inl (body, e) ↦
          let (held, same) = (resolve_body_iff current item item.body body).0 e in
          (
            (held, ground (arith, e, same)),
            ground (arith, e, same),
            ground (arith, e, same),
            ground (arith, e, same),
          )
      | inr (x, e) ↦ cc (h, e)
    ]
replace_kind_sound kind_directory current item total node total' h =
    unfold replace_kind in ground (arith, bytes_beq_iff item.version [])
replace_kind_sound (kind_unknown n) current item total node total' h = unfold replace_kind in cc

replace_kind_complete :
    (k : NodeKind) (current : Snapshot) (item : TreeNode) (total : ℕ)
    → FitsKind current item k
    → total + length (node_of current item k).body ≤ max_tree_bytes
    → replace_kind k current item total
      ≡ ok (node_of current item k, total + length (node_of current item k).body)
unfolding replace_kind
replace_kind_complete kind_file current item total (held, small) h =
    let e = (resolve_body_iff current item item.body (body_of current item)).1 (held, refl) in
    ground (arith, e)
replace_kind_complete kind_directory current item total (v, b) h =
    ground (arith, bytes_beq_iff item.version [])
replace_kind_complete (kind_unknown n) current item total f h = absurd f

-- The rest of a tree against the paths already seen.
abbrev pub Unseen : GoMap Bytes (Unit {0}) → Tree → Type 0
Unseen seen = All (λ (j : TreeNode). lookup j.path seen ≡ none)

replace_item_sound :
    (current : Snapshot) (item : TreeNode) (seen : GoMap Bytes (Unit {0})) (total : ℕ) (node : Node)
    (total' : ℕ)
    → replace_item current item seen total ≡ ok (node, total')
    → IsItem current item
      × (lookup item.path seen ≡ none)
      × (node ≡ node_of current item item.kind)
      × (total' ≡ total + length (node_of current item item.kind).body)
      × (total ≤ max_tree_bytes → total' ≤ max_tree_bytes)
replace_item_sound current item seen total node total' h =
    let r =
      replace_kind_sound item.kind current item total node total'
        (unfold replace_item in ground arith) in
    (
      record { valid = unfold replace_item in ground arith; fits = r.0 },
      unfold replace_item in ground arith,
      r.1,
      r.2,
      r.3,
    )

replace_item_complete :
    (current : Snapshot) (item : TreeNode) (seen : GoMap Bytes (Unit {0})) (total : ℕ)
    → IsItem current item
    → lookup item.path seen ≡ none
    → total + length (node_of current item item.kind).body ≤ max_tree_bytes
    → replace_item current item seen total
      ≡ ok (node_of current item item.kind, total + length (node_of current item item.kind).body)
replace_item_complete current item seen total i u h =
    let e = replace_kind_complete item.kind current item total i.fits h in
    unfold replace_item in ground (arith, i.valid, u, e)
