-- ===== src/Build.antt =====
-- build.go: the release that a binary states, from the version of the module it was built from.
pub mod Laws
mod Examples
use execenv.Base.{
  ℕ, suc, Bool, true, false, not, ◌||◌, ◌&&◌, Option, none, some, List, [], ◌∷◌, Bytes, codes,
  length, ltb, leb, bytes_eq, ◌==◌, nat_eq, if◌then◌else◌,
}

abbrev pub stamp_dev : Bytes
stamp_dev = codes "dev"

-- raw[:i] where i is the index of the first '+', if there is one
unfoldable pub before_plus : Bytes → Bytes
before_plus [] = []
before_plus (c ∷ rest) = let kept = before_plus rest in if c == b'+' then [] else c ∷ kept

-- strings.Count(raw, "-")
unfoldable pub count_dashes : Bytes → ℕ
count_dashes [] = 0
count_dashes (c ∷ rest) = let n = count_dashes rest in if c == b'-' then suc n else n

-- raw[i+1:] where i is strings.LastIndex(raw, "-"), if there is one
unfoldable pub after_last_dash : Bytes → Option Bytes
after_last_dash [] = none
after_last_dash (c ∷ rest) = elim (after_last_dash rest) [
  | some suffix ↦ some suffix
  | none ↦ if c == b'-' then some rest else none
]

unfoldable pub all_hex : Bytes → Bool
all_hex [] = true
all_hex (c ∷ rest) =
    let others = all_hex rest in
    if (ltb c b'0' || ltb b'9' c) && (ltb c b'a' || ltb b'f' c) then false else others

-- isPseudoVersion
unfoldable pub is_pseudo_version : Bytes → Bool
is_pseudo_version raw = elim (after_last_dash raw) [
  | none ↦ false
  | some suffix ↦
      if ltb (count_dashes raw) 2
      then false
      else if not (length suffix == 12)
      then false
      else all_hex suffix
]

-- strings.HasPrefix(raw, "v"), and what TrimPrefix leaves
abbrev pub without_v : Bytes → Option Bytes
without_v [] = none
without_v (c ∷ rest) = if c == b'v' then some rest else none

abbrev pub parse_release : Bytes → Bytes × Bytes
parse_release raw =
    if raw == [] || raw == codes "(devel)"
    then (stamp_dev, [])
    else if is_pseudo_version raw
    then (stamp_dev, [])
    else elim (without_v raw) [ none ↦ (stamp_dev, []) | some version ↦ (version, raw) ]

-- parseModuleVersion: the version and the tag
unfoldable pub parse_module_version : Bytes → Bytes × Bytes
parse_module_version raw = parse_release (before_plus raw)
