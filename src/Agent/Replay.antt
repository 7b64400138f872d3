-- ===== src/Agent/Replay.antt =====
-- The events that diffSnap finds lead from the old scan to the new one.
use execenv.Base.{
  ◌≡◌, refl, ◌∙◌, ap, Bool, false, not, ◌&&◌, ◌||◌, List, [], ◌∷◌, ◌++◌, Bytes, bytes_eq,
  bytes_beq_iff, lookup, ◌==◌, nat_eq, arith, Bool-cases, inl, inr,
}
use execenv.Paths.{Event, op_create, op_replace, op_delete, op_move, op_unknown}
use execenv.Agent.{
  Scan, has, missing_from, is_edited, event_of, edits, events_of, same_file, moves_or, diff_snap,
}

-- What an observer that follows the events takes to be there.
abbrev pub View : Type 0
View = Bytes → Bool

abbrev pub see : Event → View → View
see e v p = elim e.op [
  | op_create ↦ p == e.path || v p
  | op_replace ↦ v p
  | op_delete ↦ not (p == e.path) && v p
  | op_move ↦ p == e.path || (not (p == e.from) && v p)
  | op_unknown n ↦ v p
]

unfoldable pub see_all : List Event → View → View
see_all [] v = v
see_all (e ∷ es) v = see_all es (see e v)

see_all-append : (es fs : List Event) (v : View) → see_all (es ++ fs) v ≡ see_all fs (see_all es v)
unfolding see_all
see_all-append [] fs v = refl
see_all-append (e ∷ es) fs v = see_all-append es fs (see e v)

unfoldable mem : Bytes → List Bytes → Bool
mem p [] = false
mem p (q ∷ qs) = p == q || mem p qs

see_all-edits : (next old : Scan) (v : View) → see_all (edits next old) v ≡ v
unfolding see_all edits
see_all-edits next [] v = refl
see_all-edits next ((path, meta) ∷ old) v = elim (Bool-cases (is_edited meta (lookup path next))) [
  | inl edited ↦ rw edited (see_all-edits next old v)
  | inr same ↦ rw same (see_all-edits next old v)
]

see_all-deletes :
    (ds : List Bytes) (v : View) (p : Bytes)
    → see_all (events_of op_delete ds) v p ≡ (not (mem p ds) && v p)
unfolding see_all mem
see_all-deletes [] v p = refl
see_all-deletes (d ∷ ds) v p = see_all-deletes ds (see (event_of op_delete d) v) p ∙ ground arith

see_all-creates :
    (cs : List Bytes) (v : View) (p : Bytes)
    → see_all (events_of op_create cs) v p ≡ (mem p cs || v p)
unfolding see_all mem
see_all-creates [] v p = refl
see_all-creates (c ∷ cs) v p = see_all-creates cs (see (event_of op_create c) v) p ∙ ground arith

mem-missing_from :
    (other scan : Scan) (p : Bytes)
    → mem p (missing_from other scan) ≡ (has p scan && not (has p other))
unfolding mem missing_from lookup
mem-missing_from other [] p = refl
mem-missing_from other ((path, meta) ∷ scan) p =
    ground (arith, bytes_beq_iff p path, bytes_beq_iff path p, mem-missing_from other scan p)

module _ (old next : Scan) (p : Bytes) where
  abbrev Gone : List Bytes → Type 0
  Gone ds = mem p ds ≡ (has p old && not (has p next))

  abbrev New : List Bytes → Type 0
  New cs = mem p cs ≡ (has p next && not (has p old))

  abbrev was : View
  was q = has q old

  by_lists :
      (ds cs : List Bytes)
      → Gone ds
      → New cs
      → see_all (events_of op_delete ds ++ events_of op_create cs) was p ≡ has p next
  by_lists ds cs gone new =
      ap (λ v. v p) (see_all-append (events_of op_delete ds) (events_of op_create cs) was)
      ∙ see_all-creates cs (see_all (events_of op_delete ds) was) p
      ∙ ground (arith, see_all-deletes ds was p, gone, new)

  see_all-moves_or :
      (ds cs : List Bytes) → Gone ds → New cs → see_all (moves_or old next ds cs) was p ≡ has p next
  unfolding see_all mem
  see_all-moves_or [] cs gone new = by_lists [] cs gone new
  see_all-moves_or (d ∷ d' ∷ ds) cs gone new = by_lists (d ∷ d' ∷ ds) cs gone new
  see_all-moves_or (d ∷ []) [] gone new = by_lists (d ∷ []) [] gone new
  see_all-moves_or (d ∷ []) (c ∷ c' ∷ cs) gone new = by_lists (d ∷ []) (c ∷ c' ∷ cs) gone new
  see_all-moves_or (d ∷ []) (c ∷ []) gone new =
      elim (Bool-cases (same_file (lookup d old) (lookup c next))) [
        | inl same ↦ rw same (ground (arith, gone, new))
        | inr other ↦ rw other (by_lists (d ∷ []) (c ∷ []) gone new)
      ]

  -- An observer that knows which paths there were, and follows the events of a poll, knows which
  -- paths there are: after a move, after any number of deletions and creations, and in whatever
  -- order the maps are ranged over.
  pub see_all-diff_snap : see_all (diff_snap old next) (λ q. has q old) p ≡ has p next
  unfolding diff_snap
  see_all-diff_snap =
      ap (λ v. v p)
        (see_all-append (edits next old)
            (moves_or old next (missing_from next old) (missing_from old next)) was
          ∙ ap (see_all (moves_or old next (missing_from next old) (missing_from old next)))
              (see_all-edits next old was))
      ∙ see_all-moves_or (missing_from next old) (missing_from old next)
          (mem-missing_from next old p) (mem-missing_from old next p)
