-- ===== src/Prelude/Text.antt =====
-- Equality of texts, which are lists of bytes.
use Prim.Native.Nat.{ℕ}
use mathlib.Core.Path.{◌≡◌, refl, ap₂}
use mathlib.Core.Bool.{Bool, true, false, ◌&&◌}
use mathlib.Core.List.{List, [], ◌∷◌}
use native.Mathlib.Omega.{arith}
use file_server.Prelude.Tests.{◌==◌, ==_iff}

abbrev pub Bytes : Type 0
Bytes = List ℕ

unfoldable pub same_text : Bytes → Bytes → Bool
same_text [] [] = true
same_text [] (b ∷ bs) = false
same_text (a ∷ rest) [] = false
same_text (a ∷ rest) (b ∷ bs) = a == b && same_text rest bs

pub same_text_refl : (t : Bytes) → same_text t t ≡ true
unfolding same_text
same_text_refl [] = refl
same_text_refl (b ∷ bs) = ground (arith, same_text_refl bs)

pub same_text_eq : (s t : Bytes) → same_text s t ≡ true → s ≡ t
unfolding same_text
same_text_eq [] [] h = refl
same_text_eq [] (b ∷ bs) h = absurd (cc)
same_text_eq (a ∷ rest) [] h = absurd (cc)
same_text_eq (a ∷ rest) (b ∷ bs) h =
    ap₂ ◌∷◌ ((==_iff a b).0 (ground arith)) (same_text_eq rest bs (ground arith))
