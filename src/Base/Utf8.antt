-- ===== src/Base/Utf8.antt =====
-- unicode/utf8's ValidString: a scan whose state is what the open sequence still wants.
use Prim.Native.Nat.{ℕ, suc, zero, ◌<◌}
use mathlib.Core.Path.{◌≡◌, refl}
use mathlib.Core.Bool.{Bool, true, false, ◌&&◌}
use mathlib.Core.List.{List, [], ◌∷◌}
use native.Mathlib.Omega.{arith}
use execenv.Base.Tests.{ltb, leb, nat_beq, if◌then◌else◌}
use execenv.Base.Lists.{All}

-- `within lo hi n` wants a byte between `lo` and `hi`, and `n` continuation bytes after it.
pub data Utf8State : Type 0 where
  boundary malformed : Utf8State
  within : ℕ → ℕ → ℕ → Utf8State

utf8_lead : ℕ → Utf8State
utf8_lead b =
    if ltb b 0x80
    then boundary
    else if ltb b 0xc2
    then malformed
    else if ltb b 0xe0
    then within 0x80 0xbf 0
    else if nat_beq b 0xe0
    then within 0xa0 0xbf 1
    else if nat_beq b 0xed
    then within 0x80 0x9f 1
    else if ltb b 0xf0
    then within 0x80 0xbf 1
    else if nat_beq b 0xf0
    then within 0x90 0xbf 2
    else if ltb b 0xf4
    then within 0x80 0xbf 2
    else if nat_beq b 0xf4
    then within 0x80 0x8f 2
    else malformed

utf8_continue : ℕ → Utf8State
utf8_continue zero = boundary
utf8_continue (suc n) = within 0x80 0xbf n

utf8_step : Utf8State → ℕ → Utf8State
unfolding utf8_lead utf8_continue
utf8_step boundary b = utf8_lead b
utf8_step malformed b = malformed
utf8_step (within lo hi n) b = if leb lo b && leb b hi then utf8_continue n else malformed

utf8_scan : Utf8State → List ℕ → Bool
utf8_scan boundary [] = true
utf8_scan _ [] = false
utf8_scan s (b ∷ bs) = utf8_scan (utf8_step s b) bs

unfoldable pub valid_string : List ℕ → Bool
unfolding utf8_scan utf8_step
valid_string = utf8_scan boundary

pub valid_string_ascii : (s : List ℕ) → All (λ b. b < 0x80) s → valid_string s ≡ true
unfolding valid_string
valid_string_ascii [] h = refl
valid_string_ascii (b ∷ bs) (h, hs) = ground (arith, valid_string_ascii bs hs)
