-- ===== src/Prelude/Assoc.antt =====
-- Go maps with string keys, as association lists: a missing key reads as `none`.
use mathlib.Core.Option.{Option, none, some}
use mathlib.Core.List.{List, [], ◌∷◌}
use opens.Prelude.Tests.{if◌then◌else◌}
use opens.Prelude.Text.{Bytes, eq_bytes}

abbrev pub Map {ℓ} : Type ℓ → Type ℓ
Map V = List (Bytes × V)

-- v, ok := m[k]
unfoldable pub lookup {ℓ} : {V : Type ℓ} → Bytes → Map V → Option V
lookup k [] = none
lookup k ((j, v) ∷ m) = if eq_bytes j k then some v else lookup k m
