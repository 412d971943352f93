-- ===== src/Prelude/Dict.antt =====
-- Python's `dict`, in insertion order.
use mathlib.Core.Path.{◌≡◌, refl}
use mathlib.Core.Bool.{Bool, true, false}
use mathlib.Core.Option.{Option, none, some}
use mathlib.Core.List.{List, [], ◌∷◌, map}
use native.Mathlib.Omega.{arith}
use mathlib.Core.Logic.{inl, inr}
use blockchain_application.Prelude.Tests.{if◌then◌else◌, Bool-cases}
use blockchain_application.Prelude.Lists.{All}
use blockchain_application.Prelude.Equality.{Eq, ◌==◌}

abbrev pub Dict {ℓ κ} : Type ℓ → Type κ → Type (ℓ ⊔ κ)
Dict K V = List (K × V)

module _ {ℓ κ} {K : Type ℓ} {V : Type κ} where
  abbrev pub keys : Dict K V → List K
  keys d = map (λ (k, _). k) d

  abbrev pub values : Dict K V → List V
  values d = map (λ (_, v). v) d

module _ {ℓ κ} {K : Type ℓ} {V : Type κ} ⦃e : Eq K⦄ where
  unfoldable pub lookup : K → Dict K V → Option V
  lookup k [] = none
  lookup k ((j, v) ∷ d) = if k == j then some v else lookup k d

  -- `k in d`
  unfoldable pub has : K → Dict K V → Bool
  unfolding lookup
  has k d = elim (lookup k d) [ none ↦ false | some _ ↦ true ]

  -- `d.get(k, v)`
  unfoldable pub get_or : K → V → Dict K V → V
  unfolding lookup
  get_or k v d = elim (lookup k d) [ none ↦ v | some w ↦ w ]

  -- `d[k] = v`
  unfoldable pub insert : K → V → Dict K V → Dict K V
  insert k v [] = (k, v) ∷ []
  insert k v ((j, w) ∷ d) = if k == j then (j, v) ∷ d else (j, w) ∷ insert k v d

  -- `d.setdefault(k, v)`, without its result
  unfoldable pub set_default : K → V → Dict K V → Dict K V
  unfolding has insert
  set_default k v d = if has k d then d else insert k v d

  -- `d.pop(k, None)` and `del d[k]`, without their result
  unfoldable pub erase : K → Dict K V → Dict K V
  erase k [] = []
  erase k ((j, w) ∷ d) = let rest = erase k d in if k == j then rest else (j, w) ∷ rest

  pub lookup-nil : (k : K) (v : V) → lookup k [] ≡ some v → ⊥
  unfolding lookup
  lookup-nil k v e = cc

  pub get_or-some : (k : K) (v w : V) (d : Dict K V) → lookup k d ≡ some w → get_or k v d ≡ w
  unfolding get_or
  get_or-some k v w d e = ground arith

  pub get_or-none : (k : K) (v : V) (d : Dict K V) → lookup k d ≡ none → get_or k v d ≡ v
  unfolding get_or
  get_or-none k v d e = ground arith

  pub lookup-insert :
      (j k : K) (v : V) (d : Dict K V)
      → lookup j (insert k v d) ≡ (if j == k then some v else lookup j d)
  unfolding insert lookup
  lookup-insert j k v [] = refl
  lookup-insert j k v ((i, w) ∷ d) = ground (arith, lookup-insert j k v d)

  pub get_or-insert :
      (j k : K) (v w : V) (d : Dict K V)
      → get_or j v (insert k w d) ≡ (if j == k then w else get_or j v d)
  unfolding get_or
  get_or-insert j k v w d = ground (arith, lookup-insert j k w d)

  pub lookup-erase :
      (j k : K) (d : Dict K V) → lookup j (erase k d) ≡ (if j == k then none else lookup j d)
  unfolding erase lookup
  lookup-erase j k [] = ground arith
  lookup-erase j k (_ ∷ d) = ground (arith, lookup-erase j k d)

  pub lookup-set_default :
      (j k : K) (v : V) (d : Dict K V)
      → lookup j (set_default k v d) ≡ (if j == k then some (get_or k v d) else lookup j d)
  unfolding set_default has get_or
  lookup-set_default j k v d = ground (arith, lookup-insert j k v d)

  abbrev pub NodupKeys : Dict K V → Type κ
  NodupKeys [] = Unit
  NodupKeys ((k, _) ∷ d) = (lookup k d ≡ none) × NodupKeys d

  pub insert-NodupKeys : (k : K) (v : V) (d : Dict K V) → NodupKeys d → NodupKeys (insert k v d)
  unfolding insert lookup
  insert-NodupKeys k v [] h = (refl, tt)
  insert-NodupKeys k v ((j, w) ∷ d) (fresh, u) =
      ground (arith, insert-NodupKeys k v d u, lookup-insert j k v d)

  -- What holds of all items of a dict.
  module _ {ι} (P : K × V → Type ι) where
    pub All-insert : (k : K) (v : V) (d : Dict K V) → P (k, v) → All P d → All P (insert k v d)
    unfolding insert
    All-insert k v [] new all = (new, tt)
    All-insert k v ((j, w) ∷ d) new (here, all) = elim (Bool-cases (k == j)) [
      | inl same ↦ let is : j ≡ k = ground arith in rw same (rw is new, all)
      | inr other ↦ rw other (here, All-insert k v d new all)
    ]

    pub All-lookup : (k : K) (v : V) (d : Dict K V) → lookup k d ≡ some v → All P d → P (k, v)
    unfolding lookup
    All-lookup k v [] e all = absurd (ground arith)
    All-lookup k v ((j, w) ∷ d) e (here, all) = elim (Bool-cases (k == j)) [
      | inl same ↦
          let is : k ≡ j = ground arith in let it : v ≡ w = ground arith in rw (is, it) here
      | inr other ↦ All-lookup k v d (ground arith) all
    ]
