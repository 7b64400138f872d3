-- ===== src/Base/Split.antt =====
-- Splitting at a byte and joining are inverse.
use Prim.Native.Nat.{ℕ}
use mathlib.Core.Path.{◌≡◌, refl, ap}
use mathlib.Core.Bool.{Bool, true, false, ◌||◌}
use mathlib.Core.Logic.{◌≢◌}
use mathlib.Core.List.{List, [], ◌∷◌, ◌++◌}
use native.Mathlib.Omega.{arith}
use execenv.Base.Tests.{nat_beq, nat_beq_iff}
use execenv.Base.Lists.{All}
use execenv.Base.Text.{Bytes, split, split_at, contains_byte}

-- strings.Join(parts, string(sep))
unfoldable pub join : ℕ → List Bytes → Bytes
join sep [] = []
join sep (p ∷ []) = p
join sep (p ∷ q ∷ ps) = p ++ sep ∷ join sep (q ∷ ps)

join-split_at :
    (sep c : ℕ) (ps : List Bytes) (b : Bool)
    → nat_beq c sep ≡ b
    → ps ≢ []
    → join sep (split_at b c ps) ≡ c ∷ join sep ps
unfolding join split_at
join-split_at sep c [] b e h = absurd (h refl)
join-split_at sep c (p ∷ ps) true e h = ground (arith, nat_beq_iff c sep)
join-split_at sep c (p ∷ []) false e h = refl
join-split_at sep c (p ∷ q ∷ ps) false e h = refl

split_at-ne-nil : (c : ℕ) (ps : List Bytes) (b : Bool) → split_at b c ps ≢ []
unfolding split_at
split_at-ne-nil c [] true e = cc
split_at-ne-nil c [] false e = cc
split_at-ne-nil c (p ∷ ps) true e = cc
split_at-ne-nil c (p ∷ ps) false e = cc

split-ne-nil : (sep : ℕ) (s : Bytes) → split sep s ≢ []
unfolding split
split-ne-nil sep [] e = cc
split-ne-nil sep (c ∷ s) e = split_at-ne-nil c (split sep s) (nat_beq c sep) e

-- Splitting yields a part at least.
pub split-cons : (sep : ℕ) (s : Bytes) → (p : Bytes) × (ps : List Bytes) × (split sep s ≡ p ∷ ps)
split-cons sep s = go (split sep s) refl
  where
    go :
        (l : List Bytes)
        → split sep s ≡ l
        → (p : Bytes) × (ps : List Bytes) × (split sep s ≡ p ∷ ps)
    go [] e = absurd (split-ne-nil sep s e)
    go (p ∷ ps) e = (p, ps, e)

pub join-split : (sep : ℕ) (s : Bytes) → join sep (split sep s) ≡ s
unfolding split
join-split sep [] = unfold join in refl
join-split sep (c ∷ s) =
    rw (join-split_at sep c (split sep s) (nat_beq c sep) refl (split-ne-nil sep s))
      (ap (◌∷◌ c) (join-split sep s))

-- No part holds the separator.
abbrev pub Clean : ℕ → List Bytes → Type 0
Clean sep = All (λ p. contains_byte sep p ≡ false)

split_at-Clean :
    (sep c : ℕ) (ps : List Bytes) (b : Bool)
    → nat_beq c sep ≡ b
    → Clean sep ps
    → Clean sep (split_at b c ps)
unfolding split_at contains_byte
split_at-Clean sep c ps true e h = (refl, h)
split_at-Clean sep c [] false e h = ground arith
split_at-Clean sep c (p ∷ ps) false e h = ground arith

pub split-Clean : (sep : ℕ) (s : Bytes) → Clean sep (split sep s)
unfolding split
split-Clean sep [] = unfold contains_byte in (refl, tt)
split-Clean sep (c ∷ s) =
    split_at-Clean sep c (split sep s) (nat_beq c sep) refl (split-Clean sep s)

pub contains_byte-append :
    (b : ℕ) (s t : Bytes) → contains_byte b (s ++ t) ≡ (contains_byte b s || contains_byte b t)
unfolding contains_byte
contains_byte-append b [] t = refl
contains_byte-append b (c ∷ s) t = ground (arith, contains_byte-append b s t)

-- A clean part in front of a separator is split off.
split-part :
    (sep : ℕ) (p s : Bytes)
    → contains_byte sep p ≡ false
    → split sep (p ++ sep ∷ s) ≡ p ∷ split sep s
unfolding split split_at contains_byte
split-part sep [] s h = ground (arith, nat_beq_iff sep sep)
split-part sep (c ∷ p) s h = ground (arith, split-part sep p s)

split-last : (sep : ℕ) (p : Bytes) → contains_byte sep p ≡ false → split sep p ≡ p ∷ []
unfolding split split_at contains_byte
split-last sep [] h = refl
split-last sep (c ∷ p) h = ground (arith, split-last sep p)

pub split-join :
    (sep : ℕ) (p : Bytes) (ps : List Bytes)
    → Clean sep (p ∷ ps)
    → split sep (join sep (p ∷ ps)) ≡ p ∷ ps
unfolding join
split-join sep p [] h = split-last sep p h.0
split-join sep p (q ∷ ps) h =
    rw (split-part sep p (join sep (q ∷ ps)) h.0) (ap (◌∷◌ p) (split-join sep q ps h.1))
