-- ===== src/Base/Space.antt =====
-- strings.TrimSpace on UTF-8: the code points of Unicode's White_Space, and the argument of a command.
use Prim.Native.Nat.{ℕ, zero, suc}
use mathlib.Core.Option.{Option, none, some}
use mathlib.Core.List.{List, [], ◌∷◌, map}
use gdrive_bot.Base.Tests.{◌==◌, if◌then◌else◌}
use gdrive_bot.Base.Lists.{length}
use gdrive_bot.Base.Text.{Str, has_prefix, drop_prefix}

-- U+0009 to U+000D, U+0020, U+0085, U+00A0, U+1680, U+2000 to U+200A, U+2028, U+2029, U+202F, U+205F
-- and U+3000
abbrev spaces : List Str
spaces =
    (9 ∷ [])
    ∷ (10 ∷ [])
    ∷ (11 ∷ [])
    ∷ (12 ∷ [])
    ∷ (13 ∷ [])
    ∷ (32 ∷ [])
    ∷ (194 ∷ 133 ∷ [])
    ∷ (194 ∷ 160 ∷ [])
    ∷ (225 ∷ 154 ∷ 128 ∷ [])
    ∷ (226 ∷ 128 ∷ 128 ∷ [])
    ∷ (226 ∷ 128 ∷ 129 ∷ [])
    ∷ (226 ∷ 128 ∷ 130 ∷ [])
    ∷ (226 ∷ 128 ∷ 131 ∷ [])
    ∷ (226 ∷ 128 ∷ 132 ∷ [])
    ∷ (226 ∷ 128 ∷ 133 ∷ [])
    ∷ (226 ∷ 128 ∷ 134 ∷ [])
    ∷ (226 ∷ 128 ∷ 135 ∷ [])
    ∷ (226 ∷ 128 ∷ 136 ∷ [])
    ∷ (226 ∷ 128 ∷ 137 ∷ [])
    ∷ (226 ∷ 128 ∷ 138 ∷ [])
    ∷ (226 ∷ 128 ∷ 168 ∷ [])
    ∷ (226 ∷ 128 ∷ 169 ∷ [])
    ∷ (226 ∷ 128 ∷ 175 ∷ [])
    ∷ (226 ∷ 129 ∷ 159 ∷ [])
    ∷ (227 ∷ 128 ∷ 128 ∷ [])
    ∷ []

abbrev reversed : Str → Str → Str
reversed acc [] = acc
reversed acc (c ∷ s) = reversed (c ∷ acc) s

-- the rest behind the first of the prefixes that is there
unfoldable pub drop_any : List Str → Str → Option Str
unfolding has_prefix drop_prefix
drop_any [] s = none
drop_any (p ∷ ps) s = if has_prefix s p then some (drop_prefix p s) else drop_any ps s

-- as many as there are; each takes a byte at least
unfoldable pub drop_all : ℕ → List Str → Str → Str
unfolding drop_any
drop_all zero ps s = s
drop_all (suc n) ps s = elim (drop_any ps s) [ none ↦ s | some rest ↦ drop_all n ps rest ]

-- strings.TrimSpace
unfoldable pub trim_space : Str → Str
unfolding drop_all
trim_space s =
    let left = drop_all (length s) spaces s in
    reversed [] (drop_all (length left) (map (reversed []) spaces) (reversed [] left))

-- what stands behind the first space, as by strings.SplitN(s, " ", 2)
unfoldable pub behind_space : Str → Str
behind_space [] = []
behind_space (c ∷ s) = if c == 32 then s else behind_space s
