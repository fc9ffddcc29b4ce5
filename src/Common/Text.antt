-- ===== src/Common/Text.antt =====
-- Text as the bytes of its UTF-8 form, which is how `&str` measures and slices it.
use Prim.Native.Char.{code}
use Prim.Native.Nat.{ℕ, zero, suc, ◌+◌, ◌/◌, ◌%◌}
use Prim.Native.String.{String}
use mathlib.Core.Logic.{◌≢◌}
use mathlib.Core.Bool.{Bool, true, false, ◌&&◌, ◌||◌}
use mathlib.Core.List.{List, [], ◌∷◌, ◌++◌}
use mathlib.Core.Option.{Option, none, some}
use agentspace.Common.Tests.{if◌then◌else◌}
use agentspace.Common.Lists.{All}
use agentspace.Common.Equality.{◌==◌, nat_eq, list_eq}

abbrev pub Bytes : Type 0
Bytes = List ℕ

-- The bytes of an ASCII literal.
abbrev pub codes : String → Bytes
codes String.[] = []
codes (String.◌∷◌ c s) = code c ∷ codes s

abbrev pub Lacks : ℕ → Bytes → Type 0
Lacks b = All (λ c. c ≢ b)

-- `text.starts_with(prefix)`, the prefix first.
unfoldable pub starts_with : Bytes → Bytes → Bool
starts_with [] s = true
starts_with (p ∷ ps) [] = false
starts_with (p ∷ ps) (c ∷ s) = p == c && starts_with ps s

-- `text.strip_prefix(prefix)`, the prefix first.
unfoldable pub strip_prefix : Bytes → Bytes → Option Bytes
strip_prefix [] s = some s
strip_prefix (p ∷ ps) [] = none
strip_prefix (p ∷ ps) (c ∷ s) = let rest = strip_prefix ps s in if p == c then rest else none

abbrev pub prepend : ℕ → Option Bytes → Option Bytes
prepend c none = none
prepend c (some s) = some (c ∷ s)

-- `text.strip_suffix(suffix)`, the suffix first.
unfoldable pub strip_suffix : Bytes → Bytes → Option Bytes
strip_suffix p [] = if p == [] then some [] else none
strip_suffix p (c ∷ s) =
    let rest = prepend c (strip_suffix p s) in if p == (c ∷ s) then some [] else rest

-- `text.contains(byte)`
unfoldable pub contains_byte : ℕ → Bytes → Bool
contains_byte b [] = false
contains_byte b (c ∷ s) = c == b || contains_byte b s

-- `text.contains(part)`
unfoldable pub contains_str : Bytes → Bytes → Bool
contains_str p [] = starts_with p []
contains_str p (c ∷ s) = starts_with p (c ∷ s) || contains_str p s

abbrev pub shift : Option ℕ → Option ℕ
shift none = none
shift (some n) = some (suc n)

-- `text.find(byte)`: the offset of the first occurrence.
unfoldable pub find_byte : ℕ → Bytes → Option ℕ
find_byte b [] = none
find_byte b (c ∷ s) = let rest = shift (find_byte b s) in if c == b then some 0 else rest

abbrev pub push_head : ℕ → List Bytes → List Bytes
push_head c [] = (c ∷ []) ∷ []
push_head c (p ∷ ps) = (c ∷ p) ∷ ps

-- `text.split(sep)`
unfoldable pub split : ℕ → Bytes → List Bytes
split sep [] = [] ∷ []
split sep (c ∷ s) = let rest = split sep s in if c == sep then [] ∷ rest else push_head c rest

-- `parts.join(sep)`
unfoldable pub join : ℕ → List Bytes → Bytes
join sep [] = []
join sep (p ∷ []) = p
join sep (p ∷ q ∷ ps) = p ++ sep ∷ join sep (q ∷ ps)

abbrev digit : ℕ → ℕ
digit n = b'0' + n % 10

-- The decimal digits of a number but for the last, of which a 64-bit number has at most 19.
unfoldable pub leading_digits : ℕ → ℕ → Bytes
leading_digits zero n = []
leading_digits (suc fuel) n =
    let rest = leading_digits fuel (n / 10) in if n == 0 then [] else rest ++ digit n ∷ []

-- `format!("{n}")` of a 64-bit number.
unfoldable pub decimal : ℕ → Bytes
unfolding leading_digits
decimal n = leading_digits 19 (n / 10) ++ digit n ∷ []
