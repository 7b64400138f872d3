-- ===== src/Daemon/Accept.antt =====
-- What the checks of daemon/config.go accept, and that they accept it again.
use execenv.Base.{
  ◌≡◌, refl, sym, ap, ◌∙◌, subst, false, ◌||◌, ◌==◌, Option, List, Bytes, [], codes, arith,
  bytes_beq, bytes_beq_iff, bytes_eq, if◌then◌else◌, if-either, Option-cases, Bool-cases, inl, inr,
}
use execenv.Errors.{Result, ok, err, ◌>>◌}
use execenv.Daemon.{
  ℤ, Config, to_lower, lower_ascii, is_ascii, check_security, check_adapter, check_network, check,
  normalise, read_grace, set_grace, validate, refused,
}

-- A word that stands as it is: it is in lower case, and not empty.
abbrev Settled : (Bytes → Bytes) → Bytes → Type 0
Settled fold s = (to_lower fold s ≡ s) × ((s == []) ≡ false)

Settled-either :
    (fold : Bytes → Bytes) (s one two : Bytes)
    → Settled fold one
    → Settled fold two
    → ((s == one) ≡ false → (s == two) ≡ false → Settled fold s)
    → Settled fold s
Settled-either fold s one two settled_one settled_two neither = elim (Bool-cases (s == one)) [
  | inl e ↦ subst (Settled fold) (sym ((bytes_beq_iff s one).0 e)) settled_one
  | inr not_one ↦ elim (Bool-cases (s == two)) [
    | inl e ↦ subst (Settled fold) (sym ((bytes_beq_iff s two).0 e)) settled_two
    | inr not_two ↦ neither not_one not_two
  ]
]

security-Settled :
    (fold : Bytes → Bytes) (s cert key token ca : Bytes)
    → check_security s cert key token ca ≡ ok tt
    → Settled fold s
unfolding check_security refused to_lower lower_ascii is_ascii bytes_beq
security-Settled fold s cert key token ca h =
    Settled-either fold s (codes "tls") (codes "insecure_local") (refl, refl) (refl, refl)
      (λ not_tls not_local. absurd (ground (arith, h, not_tls, not_local)))

adapter-Settled :
    (fold : Bytes → Bytes) (adapter security : Bytes)
    → check_adapter adapter security ≡ ok tt
    → Settled fold adapter
unfolding check_adapter refused to_lower lower_ascii is_ascii bytes_beq
adapter-Settled fold adapter security h =
    Settled-either fold adapter (codes "memory") (codes "isolated") (refl, refl) (refl, refl)
      (λ not_memory not_isolated. absurd (ground (arith, h, not_memory, not_isolated)))

network-Settled :
    (fold : Bytes → Bytes) (network : Bytes) (allow : List Bytes)
    → check_network network allow ≡ ok tt
    → Settled fold network
unfolding check_network refused to_lower lower_ascii is_ascii bytes_beq
network-Settled fold network allow h =
    Settled-either fold network (codes "none") (codes "allowlist") (refl, refl) (refl, refl)
      (λ not_none not_listed. absurd (ground (arith, h, not_none, not_listed)))

>>-ok :
    {A : Type 0} (first : Result (Unit {0})) (next : Result A) (a : A)
    → (first >> next) ≡ ok a
    → (first ≡ ok tt) × (next ≡ ok a)
>>-ok (ok tt) next a h = (refl, h)
>>-ok (err e) next a h = absurd (ground arith)

-- A configuration that passed the checks stands in lower case already.
normalise_self :
    (fold : Bytes → Bytes) (cfg : Config) → check cfg ≡ ok tt → normalise fold cfg ≡ cfg
unfolding normalise check
normalise_self fold cfg h =
    let (security, h) = >>-ok _ _ tt h in
    let (adapter, h) = >>-ok _ _ tt h in
    let (network, _) = >>-ok _ _ tt h in
    let settled = network-Settled fold cfg.network cfg.allow network in
    rw (
      (security-Settled fold _ _ _ _ _ security).0,
      (adapter-Settled fold _ _ adapter).0,
      settled.1,
      settled.0,
    )

check-Settled :
    (fold : Bytes → Bytes) (cfg : Config)
    → check cfg ≡ ok tt
    → ((cfg.security == []) ≡ false) × ((cfg.adapter == []) ≡ false)
unfolding check
check-Settled fold cfg h =
    let (security, h) = >>-ok _ _ tt h in
    let (adapter, _) = >>-ok _ _ tt h in
    ((security-Settled fold _ _ _ _ _ security).1, (adapter-Settled fold _ _ adapter).1)

-- What is left of the checks for a configuration that passes the others.
validate-checked :
    (fold : Bytes → Bytes) (parse_duration : Bytes → Option ℤ) (cfg : Config)
    → (cfg.listen == []) ≡ false
    → check cfg ≡ ok tt
    → validate fold parse_duration cfg
      ≡ set_grace cfg (read_grace parse_duration cfg.grace_text cfg.grace)
unfolding validate
validate-checked fold parse_duration cfg listens h =
    let (security, adapter) = check-Settled fold cfg h in
    rw (listens, security, adapter, normalise_self fold cfg h, h)

read_grace-again :
    (parse_duration : Bytes → Option ℤ) (text : Bytes) (before after grace : ℤ)
    → read_grace parse_duration text before ≡ ok after
    → read_grace parse_duration text grace ≡ ok (if text == [] then grace else after)
unfolding read_grace refused
read_grace-again parse_duration text before after grace h =
    ground (arith, h, Option-cases (parse_duration text))

ok_injective : {A : Type 0} (a b : A) → ok a ≡ ok b → a ≡ b
ok_injective a b h = cc

set_grace-ok :
    (cfg out : Config) (grace : Result ℤ)
    → set_grace cfg grace ≡ ok out
    → (grace ≡ ok out.grace) × (record cfg { grace = out.grace } ≡ out)
set_grace-ok cfg out (err e) h = absurd (ground arith)
set_grace-ok cfg out (ok grace) h =
    let same : record cfg { grace = grace } ≡ out = ok_injective _ out h in
    let own : grace ≡ out.grace = ap (λ (c : Config). c.grace) same in
    (ap ok own, ap (λ g. record cfg { grace = g }) (sym own) ∙ same)

record Accepted (fold : Bytes → Bytes) (parse_duration : Bytes → Option ℤ) (cfg out : Config)
    : Type 0 where
  listens : (cfg.listen == []) ≡ false
  checked : check (normalise fold cfg) ≡ ok tt
  grace_read : read_grace parse_duration cfg.grace_text cfg.grace ≡ ok out.grace
  result : record (normalise fold cfg) { grace = out.grace } ≡ out

validate-Accepted :
    (fold : Bytes → Bytes) (parse_duration : Bytes → Option ℤ) (cfg out : Config)
    → validate fold parse_duration cfg ≡ ok out
    → Accepted fold parse_duration cfg out
unfolding validate refused normalise
validate-Accepted fold parse_duration cfg out =
    if-either (λ r. r ≡ ok out → Accepted fold parse_duration cfg out)
      (cfg.listen == [] || cfg.security == [] || cfg.adapter == []) (λ _ h. absurd (ground arith))
      (λ given h.
        let (checked, graced) = >>-ok _ _ out h in
        let (grace_read, result) = set_grace-ok (normalise fold cfg) out _ graced in
        record {
          listens = ground (arith, given);
          checked = checked;
          grace_read = grace_read;
          result = result;
        })

-- A configuration that Load and Save accept is accepted again as they leave it, with no further
-- change, even where the duration of the grace, which is not part of the document, has become
-- another: it is what the document's text says, and kept as it is where there is no text.
pub validate-again :
    (fold : Bytes → Bytes) (parse_duration : Bytes → Option ℤ) (cfg out : Config) (grace : ℤ)
    → validate fold parse_duration cfg ≡ ok out
    → validate fold parse_duration (record out { grace = grace })
      ≡ ok (record out { grace = if out.grace_text == [] then grace else out.grace })
unfolding normalise check
validate-again fold parse_duration cfg out grace h =
    let accepted = validate-Accepted fold parse_duration cfg out h in
    let lower : Config = normalise fold cfg in
    subst
      (λ (c : Config).
        validate fold parse_duration (record c { grace = grace })
        ≡ ok (record c { grace = if c.grace_text == [] then grace else out.grace }))
      accepted.result
      (validate-checked fold parse_duration (record lower { grace = grace }) accepted.listens
          accepted.checked
        ∙ rw (read_grace-again parse_duration _ _ _ grace accepted.grace_read))
