-- ===== src/Base/Slices.antt =====
-- Pieces of lists: `take`, `drop` and `++` against one another.
use native.Mathlib.Decide.{dec_le}
use Prim.Native.Nat.{ℕ, zero, suc, ◌+◌, ◌≤◌, min}
use mathlib.Core.Path.{◌≡◌, refl, sym, ap}
use mathlib.Core.List.{List, [], ◌∷◌, ◌++◌}
use native.Mathlib.Omega.{arith}
use esp32_s3_rap.Base.Lists.{length, take, drop}

pub take_all : (n : ℕ) (xs : List ℕ) → length xs ≤ n → take n xs ≡ xs
take_all zero [] h = refl
take_all (suc n) [] h = refl
take_all zero (x ∷ xs) h = absurd (omega arith)
take_all (suc n) (x ∷ xs) h = ap (λ l. x ∷ l) (take_all n xs (omega arith))

pub take-min : (k n : ℕ) (xs : List ℕ) → length xs ≤ n → take (min k n) xs ≡ take k xs
take-min k n xs h = elim (dec_le k n) [
  | yes p ↦ let e : min k n ≡ k = omega arith in rw e
  | no p ↦ let e : min k n ≡ n = omega arith in rw (e, take_all n xs h, take_all k xs (omega arith))
]

pub take-add : (a b : ℕ) (xs : List ℕ) → take (a + b) xs ≡ take a xs ++ take b (drop a xs)
take-add zero b xs = let e : zero + b ≡ b = omega arith in rw e
take-add (suc a) b [] = rw (take_all (suc a + b) [] (omega arith), take_all b [] (omega arith))
take-add (suc a) b (x ∷ xs) =
    let e : suc a + b ≡ suc (a + b) = omega arith in rw e (ap (λ l. x ∷ l) (take-add a b xs))

pub drop-nil : (n : ℕ) → drop {A = ℕ} n [] ≡ []
drop-nil zero = refl
drop-nil (suc n) = refl

pub drop-add : (a b : ℕ) (xs : List ℕ) → drop (a + b) xs ≡ drop b (drop a xs)
drop-add zero b xs = let e : zero + b ≡ b = omega arith in rw e
drop-add (suc a) b [] = rw (drop-nil (suc a + b), drop-nil b)
drop-add (suc a) b (x ∷ xs) =
    let e : suc a + b ≡ suc (a + b) = omega arith in rw e (drop-add a b xs)

pub append_split :
    (xs ys zs ws : List ℕ)
    → xs ++ ys ≡ zs ++ ws
    → length zs ≤ length xs
    → (us : List ℕ) × (xs ≡ zs ++ us) × (ws ≡ us ++ ys)
append_split xs ys [] ws e fits = (xs, refl, sym e)
append_split [] ys (z ∷ zs) ws e fits = absurd (omega arith)
append_split (x ∷ xs) ys (z ∷ zs) ws e fits =
    let same : x ≡ z = cc in
    let tails : xs ++ ys ≡ zs ++ ws = cc in
    let (us, left, right) = append_split xs ys zs ws tails (omega arith) in (us, cc, right)

pub take-append_le : (n : ℕ) (xs ys : List ℕ) → n ≤ length xs → take n (xs ++ ys) ≡ take n xs
take-append_le zero xs ys h = refl
take-append_le (suc n) [] ys h = absurd (omega arith)
take-append_le (suc n) (x ∷ xs) ys h = ap (λ l. x ∷ l) (take-append_le n xs ys (omega arith))

pub take-append_add : (xs ys : List ℕ) (n : ℕ) → take (length xs + n) (xs ++ ys) ≡ xs ++ take n ys
take-append_add [] ys n = let e : 0 + n ≡ n = omega arith in rw e
take-append_add (x ∷ xs) ys n =
    let e : suc (length xs) + n ≡ suc (length xs + n) = omega arith in
    rw e (ap (λ l. x ∷ l) (take-append_add xs ys n))

pub take-take : (m n : ℕ) (xs : List ℕ) → take m (take n xs) ≡ take (min m n) xs
take-take zero n xs = let e : min 0 n ≡ 0 = omega arith in rw e
take-take (suc m) zero xs = let e : min (suc m) 0 ≡ 0 = omega arith in rw e
take-take (suc m) (suc n) [] = let e : min (suc m) (suc n) ≡ suc (min m n) = omega arith in rw e
take-take (suc m) (suc n) (x ∷ xs) =
    let e : min (suc m) (suc n) ≡ suc (min m n) = omega arith in
    rw e (ap (λ l. x ∷ l) (take-take m n xs))
