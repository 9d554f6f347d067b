-- ===== src/Prelude/Strings.antt =====
-- Byte strings compared.
use mathlib.Core.List.{[], ◌∷◌}
use mathlib.Core.Bool.{Bool, true, false, ◌&&◌}
use ferriot.Prelude.Tests.{◌==◌}
use ferriot.Prelude.Lists.{Bytes}

-- The lengths are equal, and memcmp finds no difference.
unfoldable pub same_bytes : Bytes → Bytes → Bool
same_bytes [] [] = true
same_bytes [] (b ∷ bs) = false
same_bytes (a ∷ as') [] = false
same_bytes (a ∷ as') (b ∷ bs) = a == b && same_bytes as' bs
