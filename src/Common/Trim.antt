-- ===== src/Common/Trim.antt =====
-- `str::trim` on UTF-8 bytes: the characters with the property White_Space are taken off both ends.
use Prim.Native.Nat.{ℕ}
use mathlib.Core.Bool.{Bool, ◌&&◌, ◌||◌}
use mathlib.Core.List.{[], ◌∷◌, reverse}
use agentspace.Common.Tests.{leb, if◌then◌else◌}
use agentspace.Common.Equality.{◌==◌, nat_eq}
use agentspace.Common.Text.{Bytes}

-- U+0009 to U+000D, and U+0020.
abbrev pub space1 : ℕ → Bool
space1 c = c == 0x20 || (leb 0x09 c && leb c 0x0d)

-- U+0085 and U+00A0.
abbrev pub space2 : ℕ → ℕ → Bool
space2 c d = c == 0xc2 && (d == 0x85 || d == 0xa0)

-- U+1680, U+2000 to U+200A, U+2028, U+2029, U+202F, U+205F and U+3000.
abbrev pub space3 : ℕ → ℕ → ℕ → Bool
space3 c d e =
    (c == 0xe1 && d == 0x9a && e == 0x80)
    || (c == 0xe2
        && d == 0x80
        && ((leb 0x80 e && leb e 0x8a) || e == 0xa8 || e == 0xa9 || e == 0xaf))
    || (c == 0xe2 && d == 0x81 && e == 0x9f)
    || (c == 0xe3 && d == 0x80 && e == 0x80)

module _ (two : ℕ → ℕ → Bool) (three : ℕ → ℕ → ℕ → Bool) where
  unfoldable pub trim_by : Bytes → Bytes
  trim_by [] = []
  trim_by (c ∷ []) = if space1 c then [] else c ∷ []
  trim_by (c ∷ d ∷ []) =
      let one = trim_by (d ∷ []) in if space1 c then one else if two c d then [] else c ∷ d ∷ []
  trim_by (c ∷ d ∷ e ∷ s) =
      let after1 = trim_by (d ∷ e ∷ s) in
      let after2 = trim_by (e ∷ s) in
      let after3 = trim_by s in
      if space1 c
      then after1
      else if two c d
      then after2
      else if three c d e
      then after3
      else c ∷ d ∷ e ∷ s

unfoldable pub trim_start : Bytes → Bytes
unfolding trim_by
trim_start = trim_by space2 space3

unfoldable pub trim_end : Bytes → Bytes
unfolding trim_by
trim_end s = reverse (trim_by (λ c d. space2 d c) (λ c d e. space3 e d c) (reverse s))

unfoldable pub trim : Bytes → Bytes
unfolding trim_start trim_end
trim s = trim_end (trim_start s)
