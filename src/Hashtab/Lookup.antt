-- ===== src/Hashtab/Lookup.antt =====
-- A look at all the slots of a table, which the searches are compared with.
use a2ps.Prelude.{
  ℕ, zero, suc, ◌≡◌, sym, ◌∙◌, ap, subst, inl, inr, Bool, Bool-cases, true, false, List, [], ◌∷◌,
  Option, Option-cases, none, some, some_inj, get_or,
}
use a2ps.Hashtab.{Slot, empty, deleted, item, Keys, matches}

-- What the table relies on: the comparison is an equivalence that the hash functions respect, and
-- that holds of an item and itself.
pub record Lawful {ℓ} {A : Type ℓ} (keys : Keys A) : Type ℓ where
  pub same-equal : (a b : A) → keys.is_same a b ≡ true → keys.is_equal a b ≡ true
  pub equal_refl : (a : A) → keys.is_equal a a ≡ true
  pub equal_symm : (a b : A) → keys.is_equal a b ≡ true → keys.is_equal b a ≡ true
  pub equal_trans :
      (a b c : A) → keys.is_equal a b ≡ true → keys.is_equal b c ≡ true → keys.is_equal a c ≡ true
  pub hash_1-equal : (a b : A) → keys.is_equal a b ≡ true → keys.hash_1 a ≡ keys.hash_1 b
  pub hash_2-equal : (a b : A) → keys.is_equal a b ≡ true → keys.hash_2 a ≡ keys.hash_2 b

abbrev item_or {ℓ} : {A : Type ℓ} → A → Slot A → A
item_or d (item a) = a
item_or d _ = d

pub item_inj {ℓ} : {A : Type ℓ} {a b : A} → item a ≡ item b → a ≡ b
item_inj {a} e = ap (item_or a) e

abbrev is_empty {ℓ} : {A : Type ℓ} → Slot A → Bool
is_empty empty = true
is_empty _ = false

pub empty-ne-item {ℓ} : {A : Type ℓ} {a : A} (s : Slot A) → s ≡ empty → s ≡ item a → ⊥
empty-ne-item s e h = cc

module _ {ℓ} {A : Type ℓ} (keys : Keys A) where
  -- The first item that matches the key, in the order of the slots
  unfoldable pub lookup : A → List (Slot A) → Option A
  lookup key [] = none
  lookup key (empty ∷ vec) = lookup key vec
  lookup key (deleted ∷ vec) = lookup key vec
  lookup key (item a ∷ vec) = elim (matches keys key a) [ true ↦ some a | false ↦ lookup key vec ]

  module _ (key : A) where
    pub lookup-eq-some :
        (vec : List (Slot A)) (a : A)
        → lookup key vec ≡ some a
        → (i : ℕ) × (get_or vec i empty ≡ item a) × (matches keys key a ≡ true)
    unfolding lookup
    lookup-eq-some [] a h = cc
    lookup-eq-some (empty ∷ vec) a h = let (i, g, m) = lookup-eq-some vec a h in (suc i, g, m)
    lookup-eq-some (deleted ∷ vec) a h = let (i, g, m) = lookup-eq-some vec a h in (suc i, g, m)
    lookup-eq-some (item b ∷ vec) a h = elim (Bool-cases (matches keys key b)) [
      | inl e ↦
          let same : b ≡ a = some_inj (rw (e, lookup) at h) in
          (0, ap item same, subst (λ x. matches keys key x ≡ true) same e)
      | inr e ↦ let (i, g, m) = lookup-eq-some vec a (rw (e, lookup) at h) in (suc i, g, m)
    ]

    passed :
        (b : A) (vec : List (Slot A))
        → matches keys key b ≡ false
        → ((i : ℕ) (a : A) → get_or vec i empty ≡ item a → matches keys key a ≡ false)
        → (i : ℕ) (a : A) → get_or (item b ∷ vec) i empty ≡ item a
        → matches keys key a ≡ false
    passed b vec e h zero a g = subst (λ x. matches keys key x ≡ false) (item_inj g) e
    passed b vec e h (suc i) a g = h i a g

    pub lookup-eq-none :
        (vec : List (Slot A))
        → lookup key vec ≡ none
        → (i : ℕ) (a : A) → get_or vec i empty ≡ item a
        → matches keys key a ≡ false
    unfolding lookup
    lookup-eq-none [] h i a g = cc
    lookup-eq-none (empty ∷ vec) h zero a g = cc
    lookup-eq-none (deleted ∷ vec) h zero a g = cc
    lookup-eq-none (empty ∷ vec) h (suc i) a g = lookup-eq-none vec h i a g
    lookup-eq-none (deleted ∷ vec) h (suc i) a g = lookup-eq-none vec h i a g
    lookup-eq-none (item b ∷ vec) h i a g = elim (Bool-cases (matches keys key b)) [
      | inl e ↦ let bad : some b ≡ none = rw (e, lookup) at h in cc
      | inr e ↦ passed b vec e (lookup-eq-none vec (rw (e, lookup) at h)) i a g
    ]

    -- Where no item matches, none is looked up.
    pub lookup-none :
        (vec : List (Slot A))
        → ((i : ℕ) (a : A) → get_or vec i empty ≡ item a → matches keys key a ≡ false)
        → lookup key vec ≡ none
    lookup-none vec h = elim (Option-cases (lookup key vec)) [
      | inl e ↦ e
      | inr (b, e) ↦ let (j, g, m) = lookup-eq-some vec b e in let differs = h j b g in cc
    ]

    -- Where all items that match are in one slot, the one there is looked up.
    pub lookup-at :
        (vec : List (Slot A)) (i : ℕ) (a : A)
        → get_or vec i empty ≡ item a
        → matches keys key a ≡ true
        → ((j : ℕ) (b : A) → get_or vec j empty ≡ item b → matches keys key b ≡ true → j ≡ i)
        → lookup key vec ≡ some a
    lookup-at vec i a g m only = elim (Option-cases (lookup key vec)) [
      | inl e ↦ let differs = lookup-eq-none vec e i a g in cc
      | inr (b, e) ↦
          let (j, gb, mb) = lookup-eq-some vec b e in
          let here = ap (λ n. get_or vec n empty) (only j b gb mb) in
          let same : item b ≡ item a = sym gb ∙ here ∙ g in e ∙ ap some (item_inj same)
    ]
