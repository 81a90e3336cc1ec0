-- ===== src/Base/Memory.antt =====
-- What the source uses of the C library and of the machine: unsigned words that wrap, little-endian
-- bytes, `strncpy`, `strlen`, and the decimal text that `%u` prints.
use Prim.Native.Nat.{ℕ, zero, suc, ◌+◌, ◌-◌, ◌*◌, ◌/◌, ◌%◌, ◌^◌, ◌≤◌}
use mathlib.Core.Path.{◌≡◌, refl}
use mathlib.Core.List.{List, [], ◌∷◌}
use native.Mathlib.Omega.{arith}
use esp32_s3_rap.Base.Tests.{ltb, ◌==◌, if◌then◌else◌}
use esp32_s3_rap.Base.Lists.{length, replicate, length-replicate, get_or}

abbrev pub u8 : ℕ → ℕ
u8 n = n % 2 ^ 8

abbrev pub u16 : ℕ → ℕ
u16 n = n % 2 ^ 16

abbrev pub u32 : ℕ → ℕ
u32 n = n % 2 ^ 32

-- `a - b` on `uint32_t`.
abbrev pub sub32 : ℕ → ℕ → ℕ
sub32 a b = (a + 2 ^ 32 - b) % 2 ^ 32

-- `uint16_t` and `uint32_t` in memory, least significant byte first.
abbrev pub le16 : ℕ → List ℕ
le16 n = n % 256 ∷ n / 256 % 256 ∷ []

abbrev pub le32 : ℕ → List ℕ
le32 n = n % 256 ∷ n / 256 % 256 ∷ n / 65536 % 256 ∷ n / 16777216 % 256 ∷ []

abbrev pub read16 : List ℕ → ℕ → ℕ
read16 bytes i = get_or bytes i 0 + 256 * get_or bytes (i + 1) 0

abbrev pub read32 : List ℕ → ℕ → ℕ
read32 bytes i = read16 bytes i + 65536 * read16 bytes (i + 2)

-- `strncpy(dst, src, n)`: the `n` bytes written, padded with NUL. The end of the list is read as a
-- NUL.
unfoldable pub strncpy : List ℕ → ℕ → List ℕ
strncpy [] n = replicate n 0
strncpy (c ∷ src) zero = []
strncpy (c ∷ src) (suc n) =
    let copied = c ∷ strncpy src n in if c == 0 then replicate (suc n) 0 else copied

-- The bytes before the first NUL.
unfoldable pub c_str : List ℕ → List ℕ
c_str [] = []
c_str (c ∷ s) = let more = c ∷ c_str s in if c == 0 then [] else more

pub length-strncpy : (src : List ℕ) (n : ℕ) → length (strncpy src n) ≡ n
unfolding strncpy
length-strncpy [] n = length-replicate n 0
length-strncpy (c ∷ src) zero = refl
length-strncpy (c ∷ src) (suc n) =
    ground (arith, length-strncpy src n, length-replicate {A = ℕ} n 0)

abbrev pub digit : ℕ → ℕ
digit k = 48 + k % 10

-- `%u` of a `uint8_t`.
unfoldable pub decimal : ℕ → List ℕ
decimal n =
    if ltb n 10
    then digit n ∷ []
    else if ltb n 100
    then digit (n / 10) ∷ digit n ∷ []
    else digit (n / 100) ∷ digit (n / 10) ∷ digit n ∷ []

pub length-decimal : (n : ℕ) → (1 ≤ length (decimal n)) × (length (decimal n) ≤ 3)
unfolding decimal
length-decimal n = ground arith
