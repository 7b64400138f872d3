-- ===== src/Base/Decimal.antt =====
-- strconv.FormatUint and strconv.ParseUint in base ten over 64 bits, and strings.Cut.
use Prim.Native.Nat.{ℕ, zero, suc, ◌+◌, ◌-◌, ◌*◌, ◌/◌, ◌%◌, ◌^◌, ◌≤◌, ◌<◌}
use mathlib.Core.Path.{◌≡◌, ap, ◌∙◌}
use mathlib.Core.Logic.{inl, inr}
use mathlib.Core.Bool.{true, false, ◌||◌}
use mathlib.Core.Option.{Option, none, some}
use mathlib.Core.List.{[], ◌∷◌, ◌++◌, append_assoc, append-nil}
use native.Mathlib.Omega.{arith}
use native.Mathlib.Nat.{pow-suc, mul_comm}
use execenv.Base.Tests.{ltb, leb, nat_beq, nat_beq_iff, if◌then◌else◌, Bool-cases}
use execenv.Base.Lists.{length, length-append}
use execenv.Base.Text.{Bytes, contains_byte}

-- The digits of `n`, on fuel for as many digits as it may have.
unfoldable pub digits : ℕ → ℕ → Bytes
digits zero n = []
digits (suc fuel) n =
    let more = digits fuel (n / 10) in
    if ltb n 10 then (b'0' + n) ∷ [] else more ++ (b'0' + n % 10) ∷ []

-- A uint64 has 20 digits at most.
unfoldable pub format_uint : ℕ → Bytes
format_uint n = digits 20 n

unfoldable pub parse_digits : ℕ → Bytes → Option ℕ
parse_digits n [] = some n
parse_digits n (c ∷ s) =
    let n' = n * 10 + (c - b'0') in
    let more = parse_digits n' s in
    if ltb c b'0' || ltb b'9' c then none else if leb (2 ^ 64) n' then none else more

unfoldable pub parse_uint : Bytes → Option ℕ
parse_uint [] = none
parse_uint (c ∷ s) = parse_digits 0 (c ∷ s)

cut_behind : ℕ → Option (Bytes × Bytes) → Option (Bytes × Bytes)
cut_behind c none = none
cut_behind c (some (before, after)) = some (c ∷ before, after)

-- before, after, ok := strings.Cut(s, string(sep))
unfoldable pub cut : ℕ → Bytes → Option (Bytes × Bytes)
unfolding cut_behind
cut sep [] = none
cut sep (c ∷ s) = if nat_beq c sep then some ([], s) else cut_behind c (cut sep s)

pub cut-append :
    (sep : ℕ) (s t : Bytes) → contains_byte sep s ≡ false → cut sep (s ++ sep ∷ t) ≡ some (s, t)
unfolding cut contains_byte
cut-append sep [] t h = ground (arith, nat_beq_iff sep sep)
cut-append sep (c ∷ s) t h = ground (arith, cut-append sep s t)

parse_digits-digit :
    (n : ℕ) (s : Bytes)
    → n < 2 ^ 64
    → parse_digits (n / 10) ((b'0' + n % 10) ∷ s) ≡ parse_digits n s
unfolding parse_digits
parse_digits-digit n s h =
    let e : n / 10 * 10 + (b'0' + n % 10 - b'0') ≡ n = omega arith in rw e (ground arith)

pow_ten : (k : ℕ) → 10 ^ suc k ≡ 10 * 10 ^ k
pow_ten k = rw pow-suc (mul_comm (10 ^ k) 10)

parse_digits-digits :
    (fuel n : ℕ) (s : Bytes)
    → n < 10 ^ fuel
    → n < 2 ^ 64
    → parse_digits 0 (digits fuel n ++ s) ≡ parse_digits n s
unfolding digits
parse_digits-digits zero n s small h = let e : n ≡ 0 = omega arith in rw e
parse_digits-digits (suc fuel) n s small h = elim (Bool-cases (ltb n 10)) [
  | inl one ↦ rw one (last one)
  | inr more ↦
      rw (more, append_assoc)
        (parse_digits-digits fuel (n / 10) ((b'0' + n % 10) ∷ s) (omega (arith, pow_ten fuel))
            (omega arith)
          ∙ parse_digits-digit n s h)
]
  where
    last : ltb n 10 ≡ true → parse_digits 0 ((b'0' + n) ∷ s) ≡ parse_digits n s
    last one =
        let d : n % 10 ≡ n = ground arith in
        let z : n / 10 ≡ 0 = ground arith in rw (d, z) at (parse_digits-digit n s h)

digits-cons : (fuel n : ℕ) → (c : ℕ) × (s : Bytes) × (digits (suc fuel) n ≡ c ∷ s)
unfolding digits
digits-cons zero n = elim (Bool-cases (ltb n 10)) [
  | inl one ↦ (b'0' + n, [], rw one)
  | inr more ↦ (b'0' + n % 10, [], rw more)
]
digits-cons (suc fuel) n = elim (Bool-cases (ltb n 10)) [
  | inl one ↦ (b'0' + n, [], rw one)
  | inr more ↦
      let (c, s, e) = digits-cons fuel (n / 10) in
      (c, s ++ (b'0' + n % 10) ∷ [], rw more (ap (λ (t : Bytes). t ++ (b'0' + n % 10) ∷ []) e))
]

-- ParseUint reads back what FormatUint wrote.
pub parse_uint-format_uint : (n : ℕ) → n < 2 ^ 64 → parse_uint (format_uint n) ≡ some n
unfolding parse_uint format_uint
parse_uint-format_uint n h =
    let (c, s, e) = digits-cons 19 n in
    rw e
      (unfold parse_digits in rw (append-nil, e) at (parse_digits-digits 20 n [] (omega arith) h))

pub format_uint-cons : (n : ℕ) → (c : ℕ) × (s : Bytes) × (format_uint n ≡ c ∷ s)
unfolding format_uint
format_uint-cons n = digits-cons 19 n

length-digits : (fuel n : ℕ) → length (digits fuel n) ≤ fuel
unfolding digits
length-digits zero n = omega arith
length-digits (suc fuel) n = ground (
  arith,
  length-digits fuel (n / 10),
  length-append (digits fuel (n / 10)) ((b'0' + n % 10) ∷ []),
)

pub length-format_uint : (n : ℕ) → length (format_uint n) ≤ 20
unfolding format_uint
length-format_uint n = length-digits 20 n
