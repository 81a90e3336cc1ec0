-- ===== src/Base/Text.antt =====
-- C strings in arrays: what `strncpy` writes, read back.
use Prim.Native.Nat.{ℕ, zero, suc, ◌≤◌}
use mathlib.Core.Path.{◌≡◌, refl}
use mathlib.Core.Logic.{◌≢◌}
use mathlib.Core.List.{List, [], ◌∷◌}
use native.Mathlib.Omega.{arith}
use esp32_s3_rap.Base.Lists.{length, take, replicate, All}
use esp32_s3_rap.Base.Memory.{strncpy, c_str}

abbrev pub IsChar : ℕ → Type 0
IsChar c = c ≢ 0

-- No NUL in it.
abbrev pub IsText : List ℕ → Type 0
IsText text = All IsChar text

c_str-replicate : (n : ℕ) → c_str (replicate n 0) ≡ []
unfolding c_str
c_str-replicate zero = refl
c_str-replicate (suc n) = refl

pub c_str-strncpy :
    (text : List ℕ) (n : ℕ) → IsText text → length text ≤ n → c_str (strncpy text n) ≡ text
unfolding c_str strncpy
c_str-strncpy [] n plain fits = c_str-replicate n
c_str-strncpy (c ∷ text) zero plain fits = absurd (omega arith)
c_str-strncpy (c ∷ text) (suc n) plain fits =
    let rest = c_str-strncpy text n plain.1 (omega arith) in let char = plain.0 in ground arith

pub take-strncpy :
    (text : List ℕ) (n : ℕ)
    → IsText text
    → length text ≤ n
    → take (length text) (strncpy text n) ≡ text
unfolding strncpy
take-strncpy [] n plain fits = refl
take-strncpy (c ∷ text) zero plain fits = absurd (omega arith)
take-strncpy (c ∷ text) (suc n) plain fits =
    let rest = take-strncpy text n plain.1 (omega arith) in let char = plain.0 in ground arith
