-- ===== src/Watchlog/Invariant.antt =====
-- The well-formedness of a log, kept by New, Append and Reset.
use execenv.Base.{
  ℕ, suc, ◌+◌, ◌-◌, ◌%◌, ◌≤◌, ◌<◌, ◌≡◌, ◌≢◌, false, List, [], ◌∷◌, ◌++◌, Bytes, length, drop,
  length-append, length-drop, arith, contains_byte, ltb, nat_eq, bytes_eq, if◌then◌else◌, ap, ◌∙◌,
  subst, zero, Bool-cases, inl, inr,
}
use native.Mathlib.Nat.{add-zero}
use execenv.Paths.{Event}
use execenv.Watchlog.{Log, new_log, reset, make_cursor, keep_last, append, u64_mod}

-- A generation name: its cursors have one reading and stay within their 128 bytes.
pub record IsEpoch (epoch : Bytes) : Type 0 where
  pub nonempty : epoch ≢ []
  pub no_colon : contains_byte b':' epoch ≡ false
  pub short : length epoch ≤ 107

-- The events carry consecutive cursors from `first` on.
abbrev pub Numbered : Bytes → ℕ → List Event → Type 0
Numbered epoch first [] = Unit {0}
Numbered epoch first (e ∷ es) = (e.cursor ≡ make_cursor epoch first) × Numbered epoch (suc first) es

pub record IsLog (l : Log) : Type 0 where
  pub named : IsEpoch l.epoch
  pub holds : 0 < l.capacity
  pub bounded : length l.events ≤ l.capacity
  pub counted : length l.events ≤ l.next
  pub in_range : l.next < u64_mod
  pub numbered : Numbered l.epoch (l.next - length l.events + 1) l.events

pub new_log-IsLog : (epoch : Bytes) (capacity : ℕ) → IsEpoch epoch → IsLog (new_log epoch capacity)
unfolding new_log
new_log-IsLog epoch capacity n = record {
  named = n;
  holds = ground arith;
  bounded = omega arith;
  counted = omega arith;
  in_range = omega arith;
  numbered = tt;
}

pub reset-IsLog : (epoch : Bytes) (l : Log) → IsEpoch epoch → IsLog l → IsLog (reset epoch l)
unfolding reset
reset-IsLog epoch l n i = record {
  named = n;
  holds = i.holds;
  bounded = omega arith;
  counted = omega arith;
  in_range = omega arith;
  numbered = tt;
}

Numbered-append :
    (epoch : Bytes) (first : ℕ) (es : List Event) (e : Event)
    → Numbered epoch first es
    → e.cursor ≡ make_cursor epoch (first + length es)
    → Numbered epoch first (es ++ e ∷ [])
Numbered-append epoch first [] e n c = (c ∙ ap (make_cursor epoch) (omega arith), tt)
Numbered-append epoch first (x ∷ es) e (h, n) c =
    (h, Numbered-append epoch (suc first) es e n (c ∙ ap (make_cursor epoch) (omega arith)))

pub Numbered-drop :
    (epoch : Bytes) (k first : ℕ) (es : List Event)
    → Numbered epoch first es
    → Numbered epoch (first + k) (drop k es)
Numbered-drop epoch zero first es n = rw add-zero n
Numbered-drop epoch (suc k) first [] n = tt
Numbered-drop epoch (suc k) first (e ∷ es) (h, n) =
    subst (λ m. Numbered epoch m (drop k es)) (omega arith) (Numbered-drop epoch k (suc first) es n)

pub length-keep_last :
    (c : ℕ) (es : List Event)
    → length (keep_last c es) ≡ (if ltb c (length es) then c else length es)
unfolding keep_last
length-keep_last c es = ground (arith, length-drop (length es - c) es)

Numbered-keep_last :
    (epoch : Bytes) (c first : ℕ) (es : List Event)
    → Numbered epoch first es
    → Numbered epoch (first + length es - length (keep_last c es)) (keep_last c es)
unfolding keep_last
Numbered-keep_last epoch c first es n = elim (Bool-cases (ltb c (length es))) [
  | inl over ↦
      rw (over, keep_last)
        (subst (λ m. Numbered epoch m (drop (length es - c) es))
          (ground (arith, length-drop (length es - c) es))
          (Numbered-drop epoch (length es - c) first es n))
  | inr fits ↦ rw (fits, keep_last) (subst (λ m. Numbered epoch m es) (omega arith) n)
]

module _ (e : Event) (l : Log) (room : l.next + 1 < u64_mod) (i : IsLog l) where
  stored : Event
  stored = record e { cursor = make_cursor l.epoch ((l.next + 1) % u64_mod) }

  grown : List Event
  grown = l.events ++ stored ∷ []

  length-grown : length grown ≡ length l.events + 1
  unfolding grown
  length-grown = length-append l.events (stored ∷ [])

  grown-Numbered : Numbered l.epoch (l.next - length l.events + 1) grown
  unfolding grown stored
  grown-Numbered =
      Numbered-append l.epoch (l.next - length l.events + 1) l.events stored i.numbered
        (ap (make_cursor l.epoch) (omega (arith, i.counted)))

  kept-Numbered :
      Numbered l.epoch
        ((l.next + 1) % u64_mod - length (keep_last l.capacity grown) + 1)
        (keep_last l.capacity grown)
  kept-Numbered =
      subst (λ m. Numbered l.epoch m (keep_last l.capacity grown))
        (ground (arith, length-grown, length-keep_last l.capacity grown, i.counted))
        (Numbered-keep_last l.epoch l.capacity (l.next - length l.events + 1) grown grown-Numbered)

  -- Append keeps a log well formed until its 64-bit counter is used up.
  pub append-IsLog : IsLog (append e l).1
  unfolding append grown stored
  append-IsLog = record {
    named = i.named;
    holds = i.holds;
    bounded = ground (arith, length-grown, length-keep_last l.capacity grown, i.bounded);
    counted = ground (arith, length-grown, length-keep_last l.capacity grown, i.counted);
    in_range = omega arith;
    numbered = kept-Numbered;
  }
