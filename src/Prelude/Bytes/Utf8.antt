-- ===== src/Prelude/Bytes/Utf8.antt =====
-- What `std::str::from_utf8` accepts, and texts of ASCII characters.
use Prim.Native.Nat.{ℕ, zero, suc, ◌-◌, ◌/◌, ◌<◌}
use mathlib.Core.Path.{◌≡◌, refl, ap, ◌∙◌}
use mathlib.Core.Bool.{Bool, true, false, ◌&&◌}
use mathlib.Core.List.{[], ◌∷◌}
use mathlib.Core.Option.{Option, none, some}
use native.Mathlib.Omega.{arith}
use canal_rust.Prelude.Tests.{ltb, leb, ◌==◌, if◌then◌else◌, if-cases}
use canal_rust.Prelude.Lists.{All}
use canal_rust.Prelude.Bytes.{Text, decimal_from, decimal}

-- Between characters, or before `more` bytes of one, the first of which is from `low` to `high`
pub data Utf8State : Type 0 where
  start : Utf8State
  within : ℕ → ℕ → ℕ → Utf8State

lead : ℕ → Option Utf8State
lead c =
    if ltb c 0x80
    then some start
    else if ltb c 0xc2
    then none
    else if ltb c 0xe0
    then some (within 1 0x80 0xbf)
    else if c == 0xe0
    then some (within 2 0xa0 0xbf)
    else if c == 0xed
    then some (within 2 0x80 0x9f)
    else if ltb c 0xf0
    then some (within 2 0x80 0xbf)
    else if c == 0xf0
    then some (within 3 0x90 0xbf)
    else if ltb c 0xf4
    then some (within 3 0x80 0xbf)
    else if c == 0xf4
    then some (within 3 0x80 0x8f)
    else none

next : Utf8State → ℕ → Option Utf8State
unfolding lead
next start c = lead c
next (within more low high) c =
    if leb low c && leb c high
    then if leb more 1 then some start else some (within (more - 1) 0x80 0xbf)
    else none

utf8_from : Option Utf8State → Text → Bool
unfolding next
utf8_from none cs = false
utf8_from (some start) [] = true
utf8_from (some (within more low high)) [] = false
utf8_from (some s) (c ∷ cs) = utf8_from (next s c) cs

-- `std::str::from_utf8(b).is_ok()`
unfoldable pub is_utf8 : Text → Bool
unfolding utf8_from
is_utf8 cs = utf8_from (some start) cs

abbrev pub IsAscii : Text → Type 0
IsAscii = All (λ c. c < 0x80)

lead-ascii : (c : ℕ) → c < 0x80 → lead c ≡ some start
unfolding lead
lead-ascii c h = ground arith

pub is_utf8-ascii : (cs : Text) → IsAscii cs → is_utf8 cs ≡ true
unfolding is_utf8 utf8_from next
is_utf8-ascii [] h = refl
is_utf8-ascii (c ∷ cs) h = ap (λ s. utf8_from s cs) (lead-ascii c h.0) ∙ is_utf8-ascii cs h.1

decimal_from-IsAscii :
    (fuel n : ℕ) (rest : Text) → IsAscii rest → IsAscii (decimal_from fuel n rest)
unfolding decimal_from
decimal_from-IsAscii zero n rest h = h
decimal_from-IsAscii (suc fuel) n rest h =
    if-cases IsAscii (ltb n 10) (λ e. (ground arith, h))
      (λ e. decimal_from-IsAscii fuel (n / 10) _ (omega arith, h))

pub decimal-IsAscii : (n : ℕ) → IsAscii (decimal n)
unfolding decimal
decimal-IsAscii n = decimal_from-IsAscii (suc n) n [] tt
