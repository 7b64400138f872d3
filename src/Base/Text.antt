-- ===== src/Base/Text.antt =====
-- Go strings and byte slices: sequences of bytes.
use Prim.Native.Nat.{ℕ}
use Prim.Native.Char.{code}
use Prim.Native.String.{String}
use mathlib.Core.Path.{◌≡◌, refl}
use mathlib.Core.Logic.{◌↔◌}
use mathlib.Core.Bool.{Bool, true, false, ◌&&◌, ◌||◌}
use mathlib.Core.List.{List, [], ◌∷◌}
use native.Mathlib.Omega.{arith}
use execenv.Base.Tests.{Eq, nat_beq, nat_beq_iff}

abbrev pub Bytes : Type 0
Bytes = List ℕ

-- The bytes of an ASCII literal.
abbrev pub codes : String → Bytes
codes String.[] = []
codes (String.◌∷◌ c s) = code c ∷ codes s

unfoldable pub bytes_beq : Bytes → Bytes → Bool
bytes_beq [] [] = true
bytes_beq [] (b ∷ t) = false
bytes_beq (a ∷ s) [] = false
bytes_beq (a ∷ s) (b ∷ t) = nat_beq a b && bytes_beq s t

pub bytes_beq_iff : (s t : Bytes) → (bytes_beq s t ≡ true) ↔ (s ≡ t)
unfolding bytes_beq
bytes_beq_iff [] [] = (λ _. refl, λ _. refl)
bytes_beq_iff [] (b ∷ t) = (λ h. cc, λ h. cc)
bytes_beq_iff (a ∷ s) [] = (λ h. cc, λ h. cc)
bytes_beq_iff (a ∷ s) (b ∷ t) = ground (arith, bytes_beq_iff s t, nat_beq_iff a b)

pub bytes_beq_self : (s : Bytes) → bytes_beq s s ≡ true
bytes_beq_self s = (bytes_beq_iff s s).1 refl

instance abbrev pub bytes_eq : Eq Bytes
bytes_eq = record { beq = bytes_beq; beq_iff = bytes_beq_iff }

unfoldable pub split_at : Bool → ℕ → List Bytes → List Bytes
split_at true c ps = [] ∷ ps
split_at false c [] = (c ∷ []) ∷ []
split_at false c (p ∷ ps) = (c ∷ p) ∷ ps

-- strings.Split(s, sep) for a separator of one byte.
unfoldable pub split : ℕ → Bytes → List Bytes
unfolding split_at
split sep [] = [] ∷ []
split sep (c ∷ s) = split_at (nat_beq c sep) c (split sep s)

-- strings.Contains(s, string(b)) for a separator of one byte.
unfoldable pub contains_byte : ℕ → Bytes → Bool
contains_byte b [] = false
contains_byte b (c ∷ s) = nat_beq c b || contains_byte b s
