-- ===== src/Snapshot/Invariant.antt =====
-- What every projected snapshot satisfies, whatever was replaced and applied.
use execenv.Base.{
  ℕ, ◌≤◌, ◌≡◌, inl, inr, refl, Option, none, some, List, [], ◌∷◌, arith, Bytes, length, All, ◌==◌,
  bytes_eq, bytes_beq, bytes_beq_iff, lookup, insert, delete, lookup-insert, lookup-delete,
  IsDistinct, insert-IsDistinct, delete-IsDistinct, if◌then◌else◌, ◌∙◌, sym, subst, Bool-cases,
  GoMap,
}
use execenv.Errors.{ok, Result-cases}
use execenv.Paths.{
  Op, op_create, op_replace, op_move, op_delete, op_unknown, validate_path, max_file_bytes,
}
use execenv.Snapshot.{
  NodeKind, kind_file, kind_directory, kind_unknown, TreeNode, Tree, Node, Snapshot, Mutation,
  apply_op, replace_item, apply_one, apply_loop, apply, replace_loop, replace,
}
use execenv.Snapshot.Replace.{node_of, wanted, IsItem, FitsKind}
use execenv.Snapshot.Replace.Match.{replace_matches, replace-Admissible}
use execenv.Snapshot.Apply.{View, view, sent, act_op, act, Carries, AllowedOp, Replaces}
use execenv.Snapshot.Apply.Refines.{
  Puts, Moves, apply_create_sound, apply_replace_sound, apply_delete_sound, apply_move_sound,
}
use execenv.Snapshot.Apply.Batch.{apply_one_sound}

-- A directory has no version and no content, a file's content is within the limit.
abbrev pub NodeFits : NodeKind → Node → Type 0
NodeFits kind_file n = length n.body ≤ max_file_bytes
NodeFits kind_directory n = (n.version ≡ []) × (n.body ≡ [])
NodeFits (kind_unknown k) n = ⊥

pub record IsEntry (p : Bytes) (n : Node) : Type 0 where
  pub valid : validate_path p ≡ ok tt
  pub fits : NodeFits n.kind n

pub record IsProjection (s : Snapshot) : Type 0 where
  pub distinct : IsDistinct s
  pub at_path : (p : Bytes) (n : Node) → lookup p s ≡ some n → IsEntry p n

pub IsProjection-empty : IsProjection []
IsProjection-empty = record { distinct = tt; at_path = λ p n e. unfold lookup in cc e }

item_fits :
    (current : Snapshot) (item : TreeNode) (k : NodeKind)
    → FitsKind current item k
    → NodeFits (node_of current item k).kind (node_of current item k)
item_fits current item kind_file f = f.1
item_fits current item kind_directory f = (refl, refl)
item_fits current item (kind_unknown n) f = absurd f

wanted-IsEntry :
    (current : Snapshot) (tree : Tree) (p : Bytes) (n : Node)
    → All (IsItem current) tree
    → wanted current tree p ≡ some n
    → IsEntry p n
unfolding wanted
wanted-IsEntry current [] p n i e = cc
wanted-IsEntry current (item ∷ rest) p n (i, is) e = elim (Bool-cases (bytes_beq item.path p)) [
  | inl hit ↦
      let same : node_of current item item.kind ≡ n = ground (arith, hit) in
      record {
        valid = rw (← (bytes_beq_iff item.path p).0 hit) i.valid;
        fits = rw (← same) (item_fits current item item.kind i.fits);
      }
  | inr miss ↦ wanted-IsEntry current rest p n is (ground (arith, miss))
]

replace_loop-IsDistinct :
    (current : Snapshot) (tree : Tree) (total : ℕ) (seen : GoMap Bytes (Unit {0}))
    (next out : Snapshot)
    → IsDistinct next
    → replace_loop current tree total seen next ≡ ok out
    → IsDistinct out
unfolding replace_loop
replace_loop-IsDistinct current [] total seen next out d e = subst IsDistinct (ground arith) d
replace_loop-IsDistinct current (item ∷ rest) total seen next out d e =
    elim (Result-cases (replace_item current item seen total)) [
      | inl ((node, total'), r) ↦
          replace_loop-IsDistinct current rest total' (insert item.path tt seen)
            (insert item.path node next) out (insert-IsDistinct item.path node next d)
            (ground (arith, r))
      | inr (x, r) ↦ cc (e, r)
    ]

-- The snapshot of a successful Replace is well formed, from any current one: its paths are valid
-- and distinct, its directories are bare, and its files are within the limit.
pub replace-IsProjection :
    (current : Snapshot) (tree : Tree) (out : Snapshot)
    → replace current tree ≡ ok out
    → IsProjection out
replace-IsProjection current tree out e = record {
  distinct = replace_loop-IsDistinct current tree 0 [] [] out tt (unfold replace in ground arith);
  at_path = λ p n h.
      wanted-IsEntry current tree p n ((replace-Admissible current tree).0 (out, e)).items
        (sym (replace_matches current tree out p e) ∙ h);
}

sent_fits :
    (k : NodeKind) (m : Mutation) (total : ℕ)
    → Carries k m total
    → NodeFits (sent k m).kind (sent k m)
sent_fits kind_file m total c = c.1
sent_fits kind_directory m total c = (refl, refl)
sent_fits (kind_unknown n) m total c = absurd c

abbrev Good : View → Type 0
Good v = (p : Bytes) (n : Node) → v p ≡ some n → IsEntry p n

sent-Good :
    (m : Mutation) (v : View) (total : ℕ)
    → validate_path m.path ≡ ok tt
    → Carries m.kind m total
    → Good v
    → Good (λ p. if m.path == p then some (sent m.kind m) else v p)
sent-Good m v total valid c g p n e = elim (Bool-cases (bytes_beq m.path p)) [
  | inl hit ↦
      let same : sent m.kind m ≡ n = ground (arith, hit) in
      record {
        valid = rw (← (bytes_beq_iff m.path p).0 hit) valid;
        fits = rw (← same) (sent_fits m.kind m total c);
      }
  | inr miss ↦ g p n (ground (arith, miss))
]

Replaces-Carries :
    (m : Mutation) (total : ℕ) (o : Option Node) → Replaces o m total → Carries m.kind m total
Replaces-Carries m total none r = absurd r
Replaces-Carries m total (some n) r = r.2

act-Good :
    (o : Op) (m : Mutation) (v : View) (total : ℕ)
    → validate_path m.path ≡ ok tt
    → AllowedOp o m v total
    → Good v
    → Good (act_op o m v)
act-Good op_create m v total valid (e, c) g = sent-Good m v total valid c g
act-Good op_replace m v total valid r g =
    sent-Good m v total valid (Replaces-Carries m total (v m.path) r) g
act-Good op_delete m v total valid r g = λ p n e. g p n (ground arith)
act-Good op_move m v total valid r g = λ p n e. elim (Bool-cases (bytes_beq m.path p)) [
  | inl hit ↦ record {
    valid = rw (← (bytes_beq_iff m.path p).0 hit) valid;
    fits = (g m.from n (ground (arith, hit))).fits;
  }
  | inr miss ↦ g p n (ground (arith, miss))
]
act-Good (op_unknown k) m v total valid r g = g

inserted :
    (m : Mutation) (s : Snapshot) (total : ℕ) (s' : Snapshot) (total' : ℕ)
    → Puts m s total (s', total')
    → s' ≡ insert m.path (sent m.kind m) s
unfolding Puts
inserted m s total s' total' h = h.3

moved-IsDistinct :
    (m : Mutation) (s : Snapshot) (total : ℕ) (o : Option Node) (s' : Snapshot) (total' : ℕ)
    → IsDistinct s
    → Moves m s total o (s', total')
    → IsDistinct s'
unfolding Moves
moved-IsDistinct m s total none s' total' d h = absurd h
moved-IsDistinct m s total (some n) s' total' d h =
    subst IsDistinct (sym h.1)
      (insert-IsDistinct m.path n (delete m.from s) (delete-IsDistinct m.from s d))

apply_op-IsDistinct :
    (o : Op) (m : Mutation) (s : Snapshot) (total : ℕ) (s' : Snapshot) (total' : ℕ)
    → IsDistinct s
    → apply_op o s m total ≡ ok (s', total')
    → IsDistinct s'
apply_op-IsDistinct op_create m s total s' total' d h =
    let r = apply_create_sound m s total (lookup m.path s) s' total' h in
    subst IsDistinct (sym (inserted m s total s' total' r.1))
      (insert-IsDistinct m.path (sent m.kind m) s d)
apply_op-IsDistinct op_replace m s total s' total' d h =
    let r = apply_replace_sound m s total (lookup m.path s) s' total' h in
    subst IsDistinct (sym (inserted m s total s' total' r.1))
      (insert-IsDistinct m.path (sent m.kind m) s d)
apply_op-IsDistinct op_delete m s total s' total' d h =
    let r = apply_delete_sound m s total (lookup m.path s) s' total' h in
    subst IsDistinct (sym r.2) (delete-IsDistinct m.path s d)
apply_op-IsDistinct op_move m s total s' total' d h =
    let r =
      apply_move_sound m s total (lookup m.from s) (lookup m.path s) s' total' (ground arith) in
    moved-IsDistinct m s total (lookup m.from s) s' total' d r.2
apply_op-IsDistinct (op_unknown k) m s total s' total' d h = cc

apply_one-IsProjection :
    (m : Mutation) (s : Snapshot) (total : ℕ) (s' : Snapshot) (total' : ℕ)
    → apply_one s m total ≡ ok (s', total')
    → IsProjection s
    → IsProjection s'
apply_one-IsProjection m s total s' total' h i =
    let (a, t, v) = apply_one_sound m s total s' total' h in
    record {
      distinct =
          apply_op-IsDistinct m.op m s total s' total' i.distinct
            (unfold apply_one in ground arith);
      at_path =
          subst Good (sym v)
            (unfold act in act-Good m.op m (view s) total a.valid a.fits i.at_path);
    }

apply_loop-IsProjection :
    (ms : List Mutation) (s : Snapshot) (total : ℕ) (out : Snapshot)
    → apply_loop s ms total ≡ ok out
    → IsProjection s
    → IsProjection out
unfolding apply_loop
apply_loop-IsProjection [] s total out h i = subst IsProjection (ground arith) i
apply_loop-IsProjection (m ∷ ms) s total out h i = elim (Result-cases (apply_one s m total)) [
  | inl ((s', total'), e) ↦
      apply_loop-IsProjection ms s' total' out (ground (arith, e))
        (apply_one-IsProjection m s total s' total' e i)
  | inr (x, e) ↦ cc (h, e)
]

-- A successful Apply keeps a well-formed snapshot well formed.
pub apply-IsProjection :
    (s : Snapshot) (batch : List Mutation) (out : Snapshot)
    → apply s batch ≡ ok out
    → IsProjection s
    → IsProjection out
apply-IsProjection s batch out e i =
    apply_loop-IsProjection batch s 0 out (unfold apply in ground arith) i

-- Storing an entry and removing one.
pub IsProjection-insert :
    (s : Snapshot) (p : Bytes) (n : Node)
    → IsProjection s
    → IsEntry p n
    → IsProjection (insert p n s)
IsProjection-insert s p n i h = record {
  distinct = insert-IsDistinct p n s i.distinct;
  at_path = λ q m e. elim (Bool-cases (bytes_beq p q)) [
    | inl hit ↦
        let same : n ≡ m = ground (arith, hit, lookup-insert p q n s) in
        subst (IsEntry q) same (rw (← (bytes_beq_iff p q).0 hit) h)
    | inr miss ↦ i.at_path q m (ground (arith, miss, lookup-insert p q n s))
  ];
}

pub IsProjection-delete : (s : Snapshot) (p : Bytes) → IsProjection s → IsProjection (delete p s)
IsProjection-delete s p i = record {
  distinct = delete-IsDistinct p s i.distinct;
  at_path = λ q m e. i.at_path q m (ground (arith, lookup-delete p q s));
}
