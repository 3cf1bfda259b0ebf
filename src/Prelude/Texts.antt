-- ===== src/Prelude/Texts.antt =====
-- Texts as lists of characters, with the functions of Go's `strings` that the workers share.
use Prim.Native.Char.{Char, code}
use Prim.Native.String.{String}
use text.Mathlib.TextBridge.{of_list}
use emailservice_worker.Prelude.Tests.{◌==◌, if◌then◌else◌}
use mathlib.Core.Bool.{Bool, true, false, ◌||◌}
use mathlib.Core.Option.{Option, none, some}
use mathlib.Core.List.{List, [], ◌∷◌}

abbrev pub Text : Type 0
Text = List Char

abbrev pub to_chars : String → Text
to_chars String.[] = []
to_chars (String.◌∷◌ c s) = c ∷ to_chars s

-- The rest after a prefix.
unfoldable pub strip_prefix : Text → Text → Option Text
strip_prefix [] s = some s
strip_prefix (p ∷ ps) [] = none
strip_prefix (p ∷ ps) (c ∷ s) = if code p == code c then strip_prefix ps s else none

abbrev pub is_some {ℓ} : {A : Type ℓ} → Option A → Bool
is_some none = false
is_some (some a) = true

same_chars : Text → Text → Bool
same_chars [] [] = true
same_chars (a ∷ s) (b ∷ t) = if code a == code b then same_chars s t else false
same_chars _ _ = false

-- `strings.HasPrefix`, `strings.HasSuffix` and `strings.Contains`
abbrev pub has_prefix : Text → Text → Bool
has_prefix s p = is_some (strip_prefix p s)

unfoldable pub has_suffix : Text → Text → Bool
unfolding same_chars
has_suffix [] p = same_chars [] p
has_suffix (c ∷ s) p = same_chars (c ∷ s) p || has_suffix s p

unfoldable pub contains : Text → Text → Bool
unfolding strip_prefix
contains [] p = has_prefix [] p
contains (c ∷ s) p = has_prefix (c ∷ s) p || contains s p

abbrev pub of_chars : Text → String
of_chars s = of_list s

-- `strings.TrimPrefix(s, p)`, where the prefix is there
unfoldable pub cut_prefix : String → String → Option String
unfolding strip_prefix
cut_prefix p s = elim (strip_prefix (to_chars p) (to_chars s)) [
  | none ↦ none
  | some rest ↦ some (of_chars rest)
]

-- `strings.SplitN(s, ".", 2)`: what stands before the first dot, and what follows it, if it is there.
unfoldable pub split_dot : Text → Text × Option Text
split_dot [] = ([], none)
split_dot (c ∷ s) =
    let rest = split_dot s in if code c == b'.' then ([], some s) else (c ∷ rest.0, rest.1)
