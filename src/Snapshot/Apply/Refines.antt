-- ===== src/Snapshot/Apply/Refines.antt =====
-- tree.applyOne, operation by operation: where it succeeds and what it does to the view.
use execenv.Base.{
  ℕ, ◌+◌, ◌≡◌, ◌↔◌, refl, false, Option, none, some, [], arith, Bytes, length, ◌==◌, bytes_eq,
  bytes_beq_iff, lookup, insert, delete, lookup-insert, lookup-delete, if◌then◌else◌, ◌∙◌,
}
use execenv.Errors.{ok}
use execenv.Paths.{Op, op_create, op_replace, op_move, op_delete, op_unknown}
use execenv.Snapshot.{
  Node, Snapshot, Mutation, put, apply_op, is_fenced, apply_create, apply_replace, apply_delete,
  apply_move,
}
use execenv.Snapshot.Apply.{
  view, sent, Carries, Unfenced, AllowedOp, Replaces, Removes, Does, put_sound, put_complete,
}

is_fenced_iff : (m : Mutation) (n : Node) → (is_fenced m n ≡ false) ↔ Unfenced n.kind m n
is_fenced_iff m n = (
  λ h. ground (arith, bytes_beq_iff m.expected [], bytes_beq_iff n.version m.expected),
  λ h. ground (arith, bytes_beq_iff m.expected [], bytes_beq_iff n.version m.expected),
)

module _ (m : Mutation) (s : Snapshot) (total : ℕ) where
  -- What `put` leaves, seen at every path.
  unfoldable pub Puts : Snapshot × ℕ → Type 0
  Puts (s', total') =
      Carries m.kind m total
      × (total' ≡ total + length (sent m.kind m).body)
      × ((p : Bytes) → view s' p ≡ (if m.path == p then some (sent m.kind m) else view s p))
      × (s' ≡ insert m.path (sent m.kind m) s)

  put-Puts : (s' : Snapshot) (total' : ℕ) → put s m total ≡ ok (s', total') → Puts (s', total')
  unfolding Puts
  put-Puts s' total' h =
      let (c, t, e) = put_sound m.kind m s total s' total' refl h in
      (c, t, λ p. rw e (lookup-insert m.path p (sent m.kind m) s), e)

  pub apply_create_sound :
      (o : Option Node) (s' : Snapshot) (total' : ℕ)
      → apply_create s m total o ≡ ok (s', total')
      → (o ≡ none) × Puts (s', total')
  apply_create_sound none s' total' h = (refl, put-Puts s' total' h)
  apply_create_sound (some n) s' total' h = cc

  pub apply_replace_sound :
      (o : Option Node) (s' : Snapshot) (total' : ℕ)
      → apply_replace s m total o ≡ ok (s', total')
      → Replaces o m total × Puts (s', total')
  unfolding Puts
  apply_replace_sound none s' total' h = cc
  apply_replace_sound (some n) s' total' h =
      let r = put-Puts s' total' (ground arith) in
      (
        (
          ground arith,
          ground (arith, bytes_beq_iff m.expected [], bytes_beq_iff n.version m.expected),
          r.0,
        ),
        r,
      )

  pub apply_delete_sound :
      (o : Option Node) (s' : Snapshot) (total' : ℕ)
      → apply_delete s m total o ≡ ok (s', total')
      → Removes o m × (total' ≡ total) × (s' ≡ delete m.path s)
  apply_delete_sound none s' total' h = cc
  apply_delete_sound (some n) s' total' h =
      ((is_fenced_iff m n).0 (ground arith), ground arith, ground arith)

  unfoldable pub Moves : Option Node → Snapshot × ℕ → Type 0
  Moves none r = ⊥
  Moves (some n) (s', total') = (total' ≡ total) × (s' ≡ insert m.path n (delete m.from s))

  pub apply_move_sound :
      (o target : Option Node) (s' : Snapshot) (total' : ℕ)
      → apply_move s m total o target ≡ ok (s', total')
      → Removes o m × (target ≡ none) × Moves o (s', total')
  unfolding Moves
  apply_move_sound none target s' total' h = cc
  apply_move_sound (some n) target s' total' h =
      ((is_fenced_iff m n).0 (ground arith), ground arith, (ground arith, ground arith))

  view-moved :
      (o : Option Node) (s' : Snapshot) (total' : ℕ) (p : Bytes)
      → o ≡ view s m.from
      → Moves o (s', total')
      → (total' ≡ total)
        × (view s' p
            ≡ (if m.path == p then view s m.from else if m.from == p then none else view s p))
  unfolding Moves
  view-moved none s' total' p e h = absurd h
  view-moved (some n) s' total' p e (t, h) = (t, rw (h, lookup-insert, lookup-delete, ← e))

  pub apply_op_sound :
      (o : Op) (s' : Snapshot) (total' : ℕ)
      → apply_op o s m total ≡ ok (s', total')
      → Does o m s total (s', total')
  unfolding Puts
  apply_op_sound op_create s' total' h =
      let r = apply_create_sound (lookup m.path s) s' total' h in ((r.0, r.1.0), r.1.1, r.1.2)
  apply_op_sound op_replace s' total' h =
      let r = apply_replace_sound (lookup m.path s) s' total' h in (r.0, r.1.1, r.1.2)
  apply_op_sound op_delete s' total' h =
      let (r, t, e) = apply_delete_sound (lookup m.path s) s' total' h in
      (r, omega arith, λ p. rw e (lookup-delete m.path p s))
  apply_op_sound op_move s' total' h =
      let moved = apply_move_sound (lookup m.from s) (lookup m.path s) s' total' (ground arith) in
      (
        (ground arith, moved.0, moved.1),
        omega (arith, (view-moved (lookup m.from s) s' total' [] refl moved.2).0),
        λ p. (view-moved (lookup m.from s) s' total' p refl moved.2).1,
      )
  apply_op_sound (op_unknown n) s' total' h = cc

  put-ok :
      Carries m.kind m total → (s' : Snapshot) × (total' : ℕ) × (put s m total ≡ ok (s', total'))
  put-ok c = (_, _, put_complete m.kind m s total refl c)

  Replaces-Carries : (o : Option Node) → Replaces o m total → Carries m.kind m total
  Replaces-Carries none r = absurd r
  Replaces-Carries (some n) r = r.2

  apply_replace_complete :
      (o : Option Node) → Replaces o m total → apply_replace s m total o ≡ put s m total
  apply_replace_complete none r = absurd r
  apply_replace_complete (some n) (k, f, c) =
      ground (arith, bytes_beq_iff m.expected [], bytes_beq_iff n.version m.expected)

  apply_delete_complete :
      (o : Option Node) → Removes o m → apply_delete s m total o ≡ ok (delete m.path s, total)
  apply_delete_complete none r = absurd r
  apply_delete_complete (some n) r = ground (arith, (is_fenced_iff m n).1 r)

  apply_move_complete :
      (o : Option Node)
      → Removes o m
      → (s' : Snapshot) × (total' : ℕ) × (apply_move s m total o none ≡ ok (s', total'))
  apply_move_complete none r = absurd r
  apply_move_complete (some n) r =
      (insert m.path n (delete m.from s), total, ground (arith, (is_fenced_iff m n).1 r))

  pub apply_op_complete :
      (o : Op)
      → AllowedOp o m (view s) total
      → (s' : Snapshot) × (total' : ℕ) × (apply_op o s m total ≡ ok (s', total'))
  apply_op_complete op_create (e, c) =
      let (s', total', h) = put-ok c in (s', total', ground (arith, e, h))
  apply_op_complete op_replace r =
      let (s', total', h) = put-ok (Replaces-Carries (lookup m.path s) r) in
      (s', total', apply_replace_complete (lookup m.path s) r ∙ h)
  apply_op_complete op_delete r =
      (delete m.path s, total, apply_delete_complete (lookup m.path s) r)
  apply_op_complete op_move (v, r, e) =
      let (s', total', h) = apply_move_complete (lookup m.from s) r in
      (s', total', ground (arith, v, h, e))
  apply_op_complete (op_unknown n) r = absurd r
