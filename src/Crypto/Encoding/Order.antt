-- ===== src/Crypto/Encoding/Order.antt =====
-- `sort_keys=True` of `json.dumps` (src/crypto/encoding.py): the order in which a dict's keys were
-- inserted does not matter.
use text.Mathlib.TextEquality.{Char-path}
use blockchain_application.Prelude.{
  map, ◌++◌, ℕ, ◌≡◌, refl, ap, sym, ◌∙◌, String, Bool, true, false, none, some, List, [], ◌∷◌,
  arith, ◌==◌, string_eq, nat_eq, Bool-cases, inl, inr,
}
use blockchain_application.Prelude.Dict
use blockchain_application.Prelude.Dict.{Dict, NodupKeys, lookup-erase}
use blockchain_application.Crypto.Text.{Bytes, codes, lex_ltb}
use blockchain_application.Crypto.Encoding.{
  insert_key, sort_keys, dict, str, to_fields, dumps, dump_fields, canonical_bytes, join,
  render_field,
}

lex_ltb_trans : (a b c : List ℕ) → lex_ltb a b ≡ true → lex_ltb b c ≡ true → lex_ltb a c ≡ true
unfolding lex_ltb
lex_ltb_trans [] [] c p q = absurd (ground arith)
lex_ltb_trans [] (y ∷ b) [] p q = absurd (ground arith)
lex_ltb_trans [] (y ∷ b) (z ∷ c) p q = refl
lex_ltb_trans (x ∷ a) [] c p q = absurd (ground arith)
lex_ltb_trans (x ∷ a) (y ∷ b) [] p q = absurd (ground arith)
lex_ltb_trans (x ∷ a) (y ∷ b) (z ∷ c) p q = ground (arith, lex_ltb_trans a b c)

lex_ltb_asymm : (a b : List ℕ) → lex_ltb a b ≡ true → lex_ltb b a ≡ false
unfolding lex_ltb
lex_ltb_asymm [] [] p = absurd (ground arith)
lex_ltb_asymm [] (y ∷ b) p = refl
lex_ltb_asymm (x ∷ a) [] p = absurd (ground arith)
lex_ltb_asymm (x ∷ a) (y ∷ b) p = ground (arith, lex_ltb_asymm a b)

-- Of two different texts one comes first.
lex_ltb_total : (a b : List ℕ) → lex_ltb a b ≡ false → lex_ltb b a ≡ false → a ≡ b
unfolding lex_ltb
lex_ltb_total [] [] p q = refl
lex_ltb_total [] (y ∷ b) p q = absurd (ground arith)
lex_ltb_total (x ∷ a) [] p q = absurd (ground arith)
lex_ltb_total (x ∷ a) (y ∷ b) p q = ground (arith, lex_ltb_total a b)

codes_inj : (s t : String) → codes s ≡ codes t → s ≡ t
codes_inj String.[] String.[] e = refl
codes_inj String.[] (String.◌∷◌ d t) e = absurd (ground arith)
codes_inj (String.◌∷◌ c s) String.[] e = absurd (ground arith)
codes_inj (String.◌∷◌ c s) (String.◌∷◌ d t) e =
    let same : c ≡ d = Char-path c d (ground arith) in
    let rest : s ≡ t = codes_inj s t (ground arith) in rw (same, rest) refl

abbrev precedes : String → String → Bool
precedes j k = lex_ltb (codes j) (codes k)

precedes_total : (j k : String) → precedes j k ≡ false → precedes k j ≡ false → j ≡ k
precedes_total j k p q = codes_inj j k (lex_ltb_total (codes j) (codes k) p q)

module _ {ℓ} {A : Type ℓ} where
  -- Two insertions commute when the earlier key is inserted first or second.
  insert_key_swap :
      (j k : String) (v w : A) (l : List (String × A))
      → precedes j k ≡ true
      → insert_key j v (insert_key k w l) ≡ insert_key k w (insert_key j v l)
  unfolding insert_key
  insert_key_swap j k v w [] p = ground (arith, lex_ltb_asymm (codes j) (codes k))
  insert_key_swap j k v w ((i, u) ∷ l) p = ground (
    arith,
    insert_key_swap j k v w l,
    lex_ltb_asymm (codes j) (codes k),
    lex_ltb_trans (codes j) (codes k) (codes i),
  )

  insert_key_comm :
      (j k : String) (v w : A) (l : List (String × A))
      → (j == k) ≡ false
      → insert_key j v (insert_key k w l) ≡ insert_key k w (insert_key j v l)
  insert_key_comm j k v w l apart = elim (Bool-cases (precedes j k)) [
    | inl before ↦ insert_key_swap j k v w l before
    | inr not_before ↦ elim (Bool-cases (precedes k j)) [
      | inl after ↦ sym (insert_key_swap k j w v l after)
      | inr not_after ↦ let same = precedes_total j k not_before not_after in absurd (ground arith)
    ]
  ]

  erase-absent : (k : String) (d : Dict String A) → Dict.lookup k d ≡ none → Dict.erase k d ≡ d
  unfolding Dict.erase Dict.lookup
  erase-absent k [] e = refl
  erase-absent k ((j, v) ∷ d) e = ground (arith, erase-absent k d)

  erase-NodupKeys : (k : String) (d : Dict String A) → NodupKeys d → NodupKeys (Dict.erase k d)
  unfolding Dict.erase
  erase-NodupKeys k [] once = tt
  erase-NodupKeys k ((j, v) ∷ d) (new, once) = elim (Bool-cases (k == j)) [
    | inl same ↦ rw same (erase-NodupKeys k d once)
    | inr other ↦ rw other (ground (arith, lookup-erase j k d), erase-NodupKeys k d once)
  ]

  sort_keys-erase :
      (k : String) (v : A) (d : Dict String A)
      → NodupKeys d
      → Dict.lookup k d ≡ some v
      → sort_keys d ≡ insert_key k v (sort_keys (Dict.erase k d))
  unfolding sort_keys Dict.erase Dict.lookup
  sort_keys-erase k v [] once e = absurd (ground arith)
  sort_keys-erase k v ((j, w) ∷ d) (new, once) e = elim (Bool-cases (k == j)) [
    | inl same ↦
        let is : k ≡ j = ground arith in
        let it : v ≡ w = ground arith in
        let gone : Dict.erase k d ≡ d = erase-absent k d (rw is new) in
        rw (same, gone) (rw (is, it) refl)
    | inr other ↦
        rw (other, sort_keys-erase k v d once (ground arith))
          (insert_key_comm j k w v (sort_keys (Dict.erase k d)) (ground arith))
  ]

  -- Two dicts with no key twice that give each key the same value have the same sorted list.
  pub sort_keys-eq :
      (d e : Dict String A)
      → NodupKeys d
      → NodupKeys e
      → ((k : String) → Dict.lookup k d ≡ Dict.lookup k e)
      → sort_keys d ≡ sort_keys e
  unfolding sort_keys Dict.lookup
  sort_keys-eq [] [] once once' same = refl
  sort_keys-eq [] ((k, v) ∷ e) once once' same = absurd (ground (arith, same k))
  sort_keys-eq ((k, v) ∷ d) e (new, once) once' same =
      let here : Dict.lookup k e ≡ some v = ground (arith, same k) in
      ap (insert_key k v) (
        sort_keys-eq d (Dict.erase k e) once (erase-NodupKeys k e once')
          (λ j. ground (arith, same j, lookup-erase j k e, new)))
      ∙ sym (sort_keys-erase k v e once' here)

rendered : (d : Dict String String) → List (String × Bytes)
unfolding dumps
rendered d = dump_fields (to_fields d)

lookup-rendered :
    (k : String) (d : Dict String String)
    → Dict.lookup k (rendered d)
      ≡ elim (Dict.lookup k d) [ none ↦ none | some v ↦ some (dumps (str v)) ]
unfolding rendered dumps Dict.lookup
lookup-rendered k [] = refl
lookup-rendered k ((j, v) ∷ d) = ground (arith, lookup-rendered k d)

rendered-NodupKeys : (d : Dict String String) → NodupKeys d → NodupKeys (rendered d)
unfolding rendered dumps
rendered-NodupKeys [] once = tt
rendered-NodupKeys ((j, v) ∷ d) (new, once) =
    (ground (arith, lookup-rendered j d), rendered-NodupKeys d once)

-- Two dicts of texts that are the same as maps have the same encoding.
pub canonical_bytes-eq :
    (d e : Dict String String)
    → NodupKeys d
    → NodupKeys e
    → ((k : String) → Dict.lookup k d ≡ Dict.lookup k e)
    → canonical_bytes (dict (to_fields d)) ≡ canonical_bytes (dict (to_fields e))
unfolding canonical_bytes dumps rendered
canonical_bytes-eq d e once once' same =
    let sorted =
      sort_keys-eq (rendered d) (rendered e) (rendered-NodupKeys d once)
        (rendered-NodupKeys e once')
        (λ k. ground (arith, lookup-rendered k d, lookup-rendered k e, same k)) in
    ap (λ l. b'{' ∷ (join (map render_field l) ++ (b'}' ∷ []))) sorted
