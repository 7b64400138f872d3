-- ===== src/Snapshot/Replace/Match.antt =====
-- The loop of tree.Replace, and what Replace as a whole guarantees.
use execenv.Base.{
  ℕ, ◌+◌, ◌≤◌, ◌≡◌, ◌≢◌, ◌↔◌, inl, inr, refl, Option, none, some, [], ◌∷◌, arith, Bytes, length,
  All, bytes_eq, bytes_beq, bytes_beq_iff, lookup, insert, lookup-insert, GoMap, Bool-cases, subst,
  ◌∙◌,
}
use execenv.Errors.{ok, Result-cases}
use execenv.Paths.{max_tree_bytes}
use execenv.Snapshot.{TreeNode, Tree, Node, Snapshot, replace_item, replace_loop, replace}
use execenv.Snapshot.Replace.{
  node_of, wanted, IsItem, DistinctPaths, tree_bytes, Admissible, Unseen, replace_item_sound,
  replace_item_complete,
}

unfoldable pub overlay : Option Node → Option Node → Option Node
overlay (some n) below = some n
overlay none below = below

Unseen-insert_sound :
    (p : Bytes) (seen : GoMap Bytes (Unit {0})) (rest : Tree)
    → Unseen (insert p tt seen) rest
    → All (λ (j : TreeNode). j.path ≢ p) rest × Unseen seen rest
Unseen-insert_sound p seen [] u = (tt, tt)
Unseen-insert_sound p seen (j ∷ rest) (u, us) =
    let (d, r) = Unseen-insert_sound p seen rest us in
    let e = lookup-insert p j.path tt seen in
    ((ground (arith, e, bytes_beq_iff p j.path), d), (ground (arith, e), r))

Unseen-insert_complete :
    (p : Bytes) (seen : GoMap Bytes (Unit {0})) (rest : Tree)
    → All (λ (j : TreeNode). j.path ≢ p) rest
    → Unseen seen rest
    → Unseen (insert p tt seen) rest
Unseen-insert_complete p seen [] d u = tt
Unseen-insert_complete p seen (j ∷ rest) (d, ds) (u, us) = (
  ground (arith, lookup-insert p j.path tt seen, bytes_beq_iff p j.path),
  Unseen-insert_complete p seen rest ds us,
)

wanted_elsewhere :
    (current : Snapshot) (p : Bytes) (rest : Tree)
    → All (λ (j : TreeNode). j.path ≢ p) rest
    → wanted current rest p ≡ none
unfolding wanted
wanted_elsewhere current p [] d = refl
wanted_elsewhere current p (j ∷ rest) (d, ds) =
    ground (arith, bytes_beq_iff j.path p, wanted_elsewhere current p rest ds)

overlay_step :
    (current : Snapshot) (item : TreeNode) (rest : Tree) (next : Snapshot) (p : Bytes)
    → All (λ (j : TreeNode). j.path ≢ item.path) rest
    → overlay
        (wanted current rest p)
        (lookup p (insert item.path (node_of current item item.kind) next))
      ≡ overlay (wanted current (item ∷ rest) p) (lookup p next)
unfolding wanted overlay
overlay_step current item rest next p d = elim (Bool-cases (bytes_beq item.path p)) [
  | inl hit ↦
      let away = wanted_elsewhere current p rest (
        subst (λ q. All (λ (j : TreeNode). j.path ≢ q) rest) ((bytes_beq_iff item.path p).0 hit)
          d) in
      rw (hit, lookup-insert, hit) (rw (away, overlay))
  | inr miss ↦ rw (miss, lookup-insert, miss) refl
]

pub record Outcome (current : Snapshot) (tree : Tree) (total : ℕ) (seen : GoMap Bytes (Unit {0}))
    (next out : Snapshot) : Type 0 where
  pub items : All (IsItem current) tree
  pub unseen : Unseen seen tree
  pub distinct : DistinctPaths tree
  pub small : total + tree_bytes current tree ≤ max_tree_bytes
  pub matches : (p : Bytes) → lookup p out ≡ overlay (wanted current tree p) (lookup p next)

pub replace_loop_sound :
    (current : Snapshot) (tree : Tree) (total : ℕ) (seen : GoMap Bytes (Unit {0}))
    (next out : Snapshot)
    → total ≤ max_tree_bytes
    → replace_loop current tree total seen next ≡ ok out
    → Outcome current tree total seen next out
unfolding replace_loop
replace_loop_sound current [] total seen next out h e =
    unfold overlay wanted in
    record {
      items = tt;
      unseen = tt;
      distinct = tt;
      small = omega arith;
      matches = λ p. ground arith;
    }
replace_loop_sound current (item ∷ rest) total seen next out h e =
    elim (Result-cases (replace_item current item seen total)) [
      | inl ((node, total'), r) ↦
          let (i, u, n, t, fits) = replace_item_sound current item seen total node total' r in
          let o =
            replace_loop_sound current rest total' (insert item.path tt seen)
              (insert item.path node next) out (fits h) (ground (arith, r)) in
          let (d, us) = Unseen-insert_sound item.path seen rest o.unseen in
          record {
            items = (i, o.items);
            unseen = (u, us);
            distinct = (d, o.distinct);
            small = omega (arith, o.small, t);
            matches = λ p. ground (arith, o.matches p, n, overlay_step current item rest next p d);
          }
      | inr (x, r) ↦ cc (e, r)
    ]

replace_loop_complete :
    (current : Snapshot) (tree : Tree) (total : ℕ) (seen : GoMap Bytes (Unit {0})) (next : Snapshot)
    → All (IsItem current) tree
    → Unseen seen tree
    → DistinctPaths tree
    → total + tree_bytes current tree ≤ max_tree_bytes
    → (out : Snapshot) × (replace_loop current tree total seen next ≡ ok out)
unfolding replace_loop
replace_loop_complete current [] total seen next i u d s = (next, refl)
replace_loop_complete current (item ∷ rest) total seen next (i, is) (u, us) (d, ds) s =
    let node = node_of current item item.kind in
    let r = replace_item_complete current item seen total i u (omega arith) in
    let (out, e) =
      replace_loop_complete current rest (total + length node.body) (insert item.path tt seen)
        (insert item.path node next) is (Unseen-insert_complete item.path seen rest d us) ds
        (omega arith) in
    (out, ground (arith, r, e))

none_seen : (tree : Tree) → Unseen [] tree
unfolding lookup
none_seen [] = tt
none_seen (item ∷ rest) = (refl, none_seen rest)

overlay_empty : (o : Option Node) → overlay o none ≡ o
unfolding overlay
overlay_empty none = refl
overlay_empty (some n) = refl

pub replace-Admissible :
    (current : Snapshot) (tree : Tree)
    → ((out : Snapshot) × (replace current tree ≡ ok out)) ↔ Admissible current tree
replace-Admissible current tree = (
  λ (out, e).
      let o =
        replace_loop_sound current tree 0 [] [] out (omega arith)
          (unfold replace in ground arith) in
      record {
        few = unfold replace in ground arith;
        items = o.items;
        distinct = o.distinct;
        small = omega (arith, o.small);
      },
  λ a.
      let (out, e) =
        replace_loop_complete current tree 0 [] [] a.items (none_seen tree) a.distinct
          (omega (arith, a.small)) in
      (out, unfold replace in ground (arith, a.few, e)),
)

-- The snapshot that Replace returns holds at every path what the tree lists there, and nothing
-- at a path that the tree does not list: whatever was projected before is gone, except for the
-- bodies that the tree keeps by version.
pub replace_matches :
    (current : Snapshot) (tree : Tree) (out : Snapshot) (p : Bytes)
    → replace current tree ≡ ok out
    → lookup p out ≡ wanted current tree p
replace_matches current tree out p e =
    let o =
      replace_loop_sound current tree 0 [] [] out (omega arith) (unfold replace in ground arith) in
    o.matches p ∙ unfold lookup in overlay_empty (wanted current tree p)
