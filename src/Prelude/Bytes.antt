-- ===== src/Prelude/Bytes.antt =====
-- Go strings and byte slices: lists of byte values. Literals are ASCII.
use Prim.Native.Char.{code}
use Prim.Native.Nat.{ℕ}
use Prim.Native.String.{String}
use mathlib.Core.Path.{◌≡◌, refl}
use mathlib.Core.Logic.{◌↔◌}
use mathlib.Core.Bool.{Bool, true, false, ◌&&◌}
use mathlib.Core.Option.{Option, none, some}
use mathlib.Core.List.{List, [], ◌∷◌, ◌++◌}
use native.Mathlib.Omega.{arith}
use netwingfs.Prelude.Tests.{◌==◌, if◌then◌else◌}

abbrev pub Bytes : Type 0
Bytes = List ℕ

-- The bytes of an ASCII literal.
abbrev pub codes : String → Bytes
codes String.[] = []
codes (String.◌∷◌ c s) = code c ∷ codes s

-- `==` on strings.
unfoldable pub bytes_eq : Bytes → Bytes → Bool
bytes_eq [] [] = true
bytes_eq (a ∷ s) (b ∷ t) = (a == b) && bytes_eq s t
bytes_eq _ _ = false

pub bytes_eq_sound : (s t : Bytes) → bytes_eq s t ≡ true → s ≡ t
unfolding bytes_eq
bytes_eq_sound [] [] h = refl
bytes_eq_sound [] (b ∷ t) h = cc
bytes_eq_sound (a ∷ s) [] h = cc
bytes_eq_sound (a ∷ s) (b ∷ t) h = ground (arith, bytes_eq_sound s t)

pub bytes_eq_refl : (s : Bytes) → bytes_eq s s ≡ true
unfolding bytes_eq
bytes_eq_refl [] = refl
bytes_eq_refl (a ∷ s) = ground (arith, bytes_eq_refl s)

pub bytes_eq_iff : (s t : Bytes) → (bytes_eq s t ≡ true) ↔ (s ≡ t)
bytes_eq_iff s t = (bytes_eq_sound s t, λ e. rw e (bytes_eq_refl t))

-- `strings.HasPrefix` and `bytes.HasPrefix`; the rest of the text after the prefix, if it is there.
unfoldable pub strip_prefix : Bytes → Bytes → Option Bytes
strip_prefix [] t = some t
strip_prefix (a ∷ p) [] = none
strip_prefix (a ∷ p) (b ∷ t) = if a == b then strip_prefix p t else none

unfoldable pub has_prefix : Bytes → Bytes → Bool
unfolding strip_prefix
has_prefix t p = elim (strip_prefix p t) [ none ↦ false | some _ ↦ true ]

pub strip_prefix-append : (p t : Bytes) → strip_prefix p (p ++ t) ≡ some t
unfolding strip_prefix
strip_prefix-append [] t = refl
strip_prefix-append (a ∷ p) t = ground (arith, strip_prefix-append p t)

pub strip_prefix_sound : (p t r : Bytes) → strip_prefix p t ≡ some r → t ≡ p ++ r
unfolding strip_prefix
strip_prefix_sound [] t r h = ground arith
strip_prefix_sound (a ∷ p) [] r h = cc
strip_prefix_sound (a ∷ p) (b ∷ t) r h = ground (arith, strip_prefix_sound p t r)
