-- ===== src/Build/Laws.antt =====
-- What the stamps can be.
use execenv.Base.{◌≡◌, refl, ap, [], ◌∷◌, ◌++◌, Bytes, bytes_eq, nat_eq, arith}
use execenv.Build.{before_plus, parse_release, parse_module_version}

before_plus-append : (raw meta : Bytes) → before_plus (raw ++ b'+' ∷ meta) ≡ before_plus raw
unfolding before_plus
before_plus-append [] meta = refl
before_plus-append (c ∷ raw) meta = ground (arith, before_plus-append raw meta)

-- Build metadata after a '+' never changes the stamp.
pub parse_module_version-append :
    (raw meta : Bytes) → parse_module_version (raw ++ b'+' ∷ meta) ≡ parse_module_version raw
unfolding parse_module_version
parse_module_version-append raw meta = ap parse_release (before_plus-append raw meta)
