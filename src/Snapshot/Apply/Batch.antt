-- ===== src/Snapshot/Apply/Batch.antt =====
-- tree.Apply refines the specification: it succeeds exactly where the specification allows every
-- mutation in turn, and the view of its result is theirs, composed.
use mathlib.Core.Path.{fun_ext}
use execenv.Base.{ℕ, ◌+◌, ◌≤◌, ◌≡◌, ◌↔◌, refl, List, [], ◌∷◌, arith, length, ◌∙◌, inl, inr, ap}
use execenv.Errors.{ok, Result-cases}
use execenv.Paths.{max_tree_entries}
use execenv.Snapshot.{Snapshot, Mutation, apply_one, apply_loop, apply}
use execenv.Snapshot.Apply.{View, view, act, cost, Allowed}
use execenv.Snapshot.Apply.Refines.{apply_op_sound, apply_op_complete}

-- The mutations one after the other, on views.
pub acts : List Mutation → View → View
acts [] v = v
acts (m ∷ ms) v = acts ms (act m v)

-- Each is allowed where it comes, with the body bytes so far counted.
abbrev pub AllowedAll : View → List Mutation → ℕ → Type 0
AllowedAll v [] total = Unit {0}
AllowedAll v (m ∷ ms) total = Allowed m v total × AllowedAll (act m v) ms (total + cost m)

module _ (m : Mutation) (s : Snapshot) (total : ℕ) where
  pub apply_one_sound :
      (s' : Snapshot) (total' : ℕ)
      → apply_one s m total ≡ ok (s', total')
      → Allowed m (view s) total × (total' ≡ total + cost m) × (view s' ≡ act m (view s))
  unfolding apply_one act cost
  apply_one_sound s' total' h =
      let d = apply_op_sound m s total m.op s' total' (ground arith) in
      (record { valid = ground arith; fits = d.0 }, d.1, fun_ext d.2)

  apply_one_complete :
      Allowed m (view s) total
      → (s' : Snapshot) × (total' : ℕ) × (apply_one s m total ≡ ok (s', total'))
  unfolding apply_one
  apply_one_complete a =
      let (s', total', h) = apply_op_complete m s total m.op a.fits in
      (s', total', ground (arith, a.valid, h))

apply_loop_sound :
    (ms : List Mutation) (s : Snapshot) (total : ℕ) (out : Snapshot)
    → apply_loop s ms total ≡ ok out
    → AllowedAll (view s) ms total × (view out ≡ acts ms (view s))
unfolding apply_loop acts
apply_loop_sound [] s total out h = (tt, ground arith)
apply_loop_sound (m ∷ ms) s total out h = elim (Result-cases (apply_one s m total)) [
  | inl ((s', total'), e) ↦
      let (a, t, v) = apply_one_sound m s total s' total' e in
      let rest = apply_loop_sound ms s' total' out (ground (arith, e)) in
      ((a, rw (← v, ← t) rest.0), rest.1 ∙ ap (acts ms) v)
  | inr (x, e) ↦ cc (h, e)
]

apply_loop_complete :
    (ms : List Mutation) (s : Snapshot) (total : ℕ)
    → AllowedAll (view s) ms total
    → (out : Snapshot) × (apply_loop s ms total ≡ ok out)
unfolding apply_loop
apply_loop_complete [] s total a = (s, refl)
apply_loop_complete (m ∷ ms) s total (a, as') =
    let (s', total', e) = apply_one_complete m s total a in
    let (b, t, v) = apply_one_sound m s total s' total' e in
    let (out, h) = apply_loop_complete ms s' total' (rw (v, t) as') in (out, ground (arith, e, h))

-- Apply succeeds exactly on batches of at most 500 mutations each of which is allowed on the view
-- that the ones before it leave: a creation where nothing stands, a replacement of a file and a
-- removal or move of what stands there, past their version fences, a move onto a free path, with
-- valid paths and bodies of at most 10 MiB each and 50 MiB together.
pub apply-AllowedAll :
    (s : Snapshot) (batch : List Mutation)
    → ((out : Snapshot) × (apply s batch ≡ ok out))
      ↔ ((length batch ≤ max_tree_entries) × AllowedAll (view s) batch 0)
unfolding apply
apply-AllowedAll s batch = (
  λ (out, e). (ground arith, (apply_loop_sound batch s 0 out (ground arith)).0),
  λ (few, a). let (out, h) = apply_loop_complete batch s 0 a in (out, ground (arith, h)),
)

-- Where Apply succeeds, its result shows at every path what the mutations, composed on the view of
-- the current snapshot, leave there.
pub apply_refines :
    (s : Snapshot) (batch : List Mutation) (out : Snapshot)
    → apply s batch ≡ ok out
    → view out ≡ acts batch (view s)
unfolding apply
apply_refines s batch out e = (apply_loop_sound batch s 0 out (ground arith)).1
