-- ===== src/Mux/Write.antt =====
-- mux.writeAll: a loop of partial writes on a connection.
use execenv.Base.{
  ℕ, ◌≤◌, ◌≡◌, refl, ◌∙◌, ap, List, [], ◌∷◌, ◌++◌, append_assoc, Bytes, length, length-drop, take,
  drop, take-append-drop, Option, some, none, ◌==◌, nat_eq, if◌then◌else◌, arith, Bool-cases, inl,
  inr,
}
use execenv.Errors.{Error, Result, ok, err}
use execenv.Mux.{unexpected_eof}

-- What one call of conn.Write returns: how many bytes it wrote, which are at most those it was
-- given, and an error if it wrote fewer.
pub data Written : Type 0 where
  wrote : ℕ → Written
  broke : ℕ → Error → Written

-- The outcome, or `none` while the loop waits for a call of conn.Write to return; and what has been
-- written. `returns` are the calls' outcomes, in their order.
unfoldable pub write_all : List Written → Bytes → Option (Result (Unit {0})) × Bytes
write_all returns [] = (some (ok tt), [])
write_all [] (b ∷ p) = (none, [])
write_all (broke n e ∷ returns) (b ∷ p) = (some (err e), take n (b ∷ p))
write_all (wrote n ∷ returns) (b ∷ p) =
    let (result, written) = write_all returns (drop n (b ∷ p)) in
    if n == 0 then (some (err unexpected_eof), []) else (result, take n (b ∷ p) ++ written)

-- Whatever the connection does, what writeAll has written is a prefix of the data, and all of it if
-- it returns without an error; and it has returned once conn.Write was called as many times as
-- there are bytes.
pub write_all-Prefix :
    (returns : List Written) (p : Bytes)
    → let (result, written) = write_all returns p in
      ((left : Bytes) × (written ++ left ≡ p))
      × (result ≡ some (ok tt) → written ≡ p)
      × (length p ≤ length returns → (r : Result (Unit {0})) × (result ≡ some r))
unfolding write_all
write_all-Prefix returns [] = (([], refl), λ h. refl, λ h. (ok tt, refl))
write_all-Prefix [] (b ∷ p) =
    ((b ∷ p, refl), λ h. absurd (ground (arith, h)), λ h. absurd (ground (arith, h)))
write_all-Prefix (broke n e ∷ returns) (b ∷ p) = (
  (drop n (b ∷ p), take-append-drop n (b ∷ p)),
  λ h. absurd (ground (arith, h)),
  λ h. (err e, refl),
)
write_all-Prefix (wrote n ∷ returns) (b ∷ p) = elim (Bool-cases (n == 0)) [
  | inl stuck ↦
      rw stuck ((b ∷ p, refl), λ h. absurd (ground (arith, h)), λ h. (err unexpected_eof, refl))
  | inr moved ↦
      let ((left, joined), whole, ends) = write_all-Prefix returns (drop n (b ∷ p)) in
      rw moved (
        (
          left,
          append_assoc (take n (b ∷ p)) _ left
              ∙ ap (λ t. take n (b ∷ p) ++ t) joined
              ∙ take-append-drop n (b ∷ p),
        ),
        λ h. ap (λ t. take n (b ∷ p) ++ t) (whole h) ∙ take-append-drop n (b ∷ p),
        λ h. ends (ground (arith, length-drop n (b ∷ p), h, moved)),
      )
]
