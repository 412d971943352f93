-- ===== src/Harness/Report/Singles.antt =====
-- `len(set(xs)) == 1` in the checks of src/main.py: exactly when there is an item, and all items
-- are equal.
use blockchain_application.Prelude.{
  ◌≡◌, refl, true, List, [], ◌∷◌, arith, length, contains, Eq, string_eq, nat_eq,
}
use blockchain_application.Harness.Report.{distinct, is_single}

module _ {ℓ} {A : Type ℓ} ⦃e : Eq A⦄ where
  contains-distinct : (xs : List A) (x : A) → contains (distinct xs) x ≡ contains xs x
  unfolding distinct
  contains-distinct [] x = refl
  contains-distinct (y ∷ xs) x = ground (arith, contains-distinct xs x, contains-distinct xs y)

  only :
      (ys : List A) (x y : A) → length ys ≡ 1 → contains ys x ≡ true → contains ys y ≡ true → x ≡ y
  only [] x y h p q = absurd (omega arith)
  only (z ∷ []) x y h p q = ground arith
  only (z ∷ w ∷ ys) x y h p q = absurd (omega arith)

  -- In a list that passes, any two items are equal.
  pub is_single-eq :
      (xs : List A) (x y : A)
      → is_single xs ≡ true
      → contains xs x ≡ true
      → contains xs y ≡ true
      → x ≡ y
  unfolding is_single
  is_single-eq xs x y h p q =
      only (distinct xs) x y (ground arith) (rw (contains-distinct xs x) p)
        (rw (contains-distinct xs y) q)

  distinct-constant :
      (xs : List A) (x : A)
      → ((y : A) → contains xs y ≡ true → y ≡ x)
      → length (distinct (x ∷ xs)) ≡ 1
  unfolding distinct
  distinct-constant [] x all = refl
  distinct-constant (y ∷ xs) x all =
      let here : y ≡ x = all y (ground arith) in
      let rest = distinct-constant xs x (λ z h. all z (ground arith)) in
      ground (arith, here, rest, contains-distinct xs x)

  -- A list of equal items that is not empty passes.
  pub is_single-all :
      (xs : List A) (x : A)
      → contains xs x ≡ true
      → ((y : A) → contains xs y ≡ true → y ≡ x)
      → is_single xs ≡ true
  unfolding is_single
  is_single-all [] x p all = absurd (ground arith)
  is_single-all (y ∷ xs) x p all =
      let first : y ≡ x = all y (ground arith) in
      let one = distinct-constant xs y (λ z h. rw first (all z (ground arith))) in
      ground (arith, one)
