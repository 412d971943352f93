-- ===== src/Quorum/Counting.antt =====
-- How many items of a list pass a test.
use blockchain_application.Prelude.{
  ℕ, ◌+◌, ◌≤◌, ◌<◌, ◌≡◌, refl, Bool, true, ◌&&◌, not, List, [], ◌∷◌, length, arith, if◌then◌else◌,
  In, inl, inr, Bool-cases,
}

abbrev pub count : {A : Type 0} → (A → Bool) → List A → ℕ
count p [] = 0
count p (x ∷ xs) = (if p x then 1 else 0) + count p xs

-- An item of the list that passes the test.
abbrev pub Finds : {A : Type 0} → (A → Bool) → List A → Type 0
Finds {A} p xs = (x : A) × In x xs × (p x ≡ true)

module _ {A : Type 0} where
  pub count-and :
      (p q : A → Bool) (xs : List A)
      → count p xs + count q xs ≤ length xs + count (λ x. p x && q x) xs
  count-and p q [] = omega arith
  count-and p q (x ∷ xs) = ground (arith, count-and p q xs)

  pub count-without :
      (p q : A → Bool) (xs : List A) → count p xs ≤ count (λ x. p x && not (q x)) xs + count q xs
  count-without p q [] = omega arith
  count-without p q (x ∷ xs) = ground (arith, count-without p q xs)

  pub count-le : (p : A → Bool) (xs : List A) → count p xs ≤ length xs
  count-le p [] = omega arith
  count-le p (x ∷ xs) = ground (arith, count-le p xs)

  pub some_of_count : (p : A → Bool) (xs : List A) → 0 < count p xs → Finds p xs
  some_of_count p [] h = absurd (omega arith)
  some_of_count p (x ∷ xs) h = elim (Bool-cases (p x)) [
    | inl here ↦ (x, inl refl, here)
    | inr later ↦ let (y, m, e) = some_of_count p xs (ground arith) in (y, inr m, e)
  ]
