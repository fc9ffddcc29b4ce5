-- ===== src/Common/Utf8.antt =====
-- Which byte sequences are UTF-8, as `String::from_utf8` decides it.
use Prim.Native.Nat.{ℕ, zero, suc}
use mathlib.Core.Bool.{Bool, true, false, ◌&&◌}
use mathlib.Core.Option.{Option, none, some}
use mathlib.Core.List.{[], ◌∷◌}
use agentspace.Common.Tests.{ltb, leb, if◌then◌else◌}
use agentspace.Common.Equality.{◌==◌, nat_eq}
use agentspace.Common.Text.{Bytes}

-- The bytes that follow a first byte: how many, and the range of the first of them.
pub record Tail : Type 0 where
  pub count : ℕ
  pub low : ℕ
  pub high : ℕ

abbrev tail_of : ℕ → ℕ → ℕ → Option Tail
tail_of n lo hi = some (record { count = n; low = lo; high = hi })

unfoldable pub utf8_lead : ℕ → Option Tail
utf8_lead c =
    if ltb c 0x80
    then tail_of 0 0 0
    else if ltb c 0xc2
    then none
    else if leb c 0xdf
    then tail_of 1 0x80 0xbf
    else if c == 0xe0
    then tail_of 2 0xa0 0xbf
    else if c == 0xed
    then tail_of 2 0x80 0x9f
    else if leb c 0xef
    then tail_of 2 0x80 0xbf
    else if c == 0xf0
    then tail_of 3 0x90 0xbf
    else if leb c 0xf3
    then tail_of 3 0x80 0xbf
    else if c == 0xf4
    then tail_of 3 0x80 0x8f
    else none

abbrev after_lead : (ℕ → ℕ → ℕ → Bool) → Option Tail → Bool
after_lead rest none = false
after_lead rest (some t) = rest t.count t.low t.high

unfoldable pub utf8_from : ℕ → ℕ → ℕ → Bytes → Bool
unfolding utf8_lead
utf8_from zero lo hi [] = true
utf8_from (suc n) lo hi [] = false
utf8_from zero lo hi (c ∷ s) = after_lead (λ n l h. utf8_from n l h s) (utf8_lead c)
utf8_from (suc n) lo hi (c ∷ s) = leb lo c && leb c hi && utf8_from n 0x80 0xbf s

unfoldable pub is_utf8 : Bytes → Bool
unfolding utf8_from
is_utf8 s = utf8_from 0 0 0 s
