-- ===== src/Hashtab/Examples.antt =====
-- The finite map, at a table of eight slots.
use a2ps.Prelude.{
  ℕ, zero, suc, ◌+◌, ◌*◌, ◌<◌, ◌==◌, ==_iff, ◌≡◌, refl, sym, ◌∙◌, ap, subst, ◌≢◌, true, ◌⊎◌, inl,
  inr, [], ◌∷◌, none, some, some_or, get_or, if◌then◌else◌, arith,
}
use a2ps.Hashtab.{
  empty, deleted, item, HashTable, matches, hash_init, hash_find_item, hash_insert, hash_delete,
}
use a2ps.Hashtab.Tests.{numbers}
use a2ps.Hashtab.Trace.{slot_of}
use a2ps.Hashtab.Lookup.{Lawful, lookup, item_inj}
use a2ps.Hashtab.Find.{InOrder, Reached, hash_find_item-lookup}
use a2ps.Hashtab.Create.{hash_init-InOrder}
use a2ps.Hashtab.Room.{used}
use a2ps.Hashtab.Map.{hash_insert-lookup, hash_delete-lookup}

equal : (a b : ℕ) → a == b ≡ true → a ≡ b
equal a b h = (==_iff a b).0 h

numbers-Lawful : Lawful numbers
numbers-Lawful = record {
  same-equal = λ a b h. h;
  equal_refl = λ a. ground arith;
  equal_symm = λ a b h. (==_iff b a).1 (sym (equal a b h));
  equal_trans = λ a b c h h'. (==_iff a c).1 (equal a b h ∙ equal b c h');
  hash_1-equal = λ a b h. equal a b h;
  hash_2-equal = λ a b h. ap (λ n. n * 3) (equal a b h);
}

-- 13 was moved on from the slot of 5, and a mark follows.
abbrev eight : HashTable ℕ
eight = record {
  ht_vec = empty ∷ empty ∷ empty ∷ empty ∷ item 13 ∷ item 5 ∷ deleted ∷ empty ∷ [];
  ht_size = 8;
  ht_capacity = 8;
  ht_fill = 2;
  ht_collisions = 0;
  ht_lookups = 0;
  ht_rehashes = 2;
}

-- Where the items are
eight-item :
    (i a : ℕ) → get_or eight.ht_vec i empty ≡ item a → ((i ≡ 4) × (a ≡ 13)) ⊎ ((i ≡ 5) × (a ≡ 5))
eight-item zero a h = cc
eight-item (suc zero) a h = cc
eight-item (suc (suc zero)) a h = cc
eight-item (suc (suc (suc zero))) a h = cc
eight-item (suc (suc (suc (suc zero)))) a h = inl (refl, sym (item_inj h))
eight-item (suc (suc (suc (suc (suc zero))))) a h = inr (refl, sym (item_inj h))
eight-item (suc (suc (suc (suc (suc (suc zero)))))) a h = cc
eight-item (suc (suc (suc (suc (suc (suc (suc zero))))))) a h = cc
eight-item (suc (suc (suc (suc (suc (suc (suc (suc i)))))))) a h = cc

first_used : (t : ℕ) → t < 1 → slot_of numbers eight.ht_vec 8 13 t ≢ empty
first_used zero l e = cc
first_used (suc t) l e = absurd (omega arith)

eight-Reached :
    (i a : ℕ) → ((i ≡ 4) × (a ≡ 13)) ⊎ ((i ≡ 5) × (a ≡ 5)) → Reached numbers eight.ht_vec 8 a i
eight-Reached i a (inl (here, e)) =
    subst (λ x. Reached numbers eight.ht_vec 8 x i) (sym e) (1, sym here, first_used)
eight-Reached i a (inr (here, e)) =
    subst (λ x. Reached numbers eight.ht_vec 8 x i) (sym e)
      (0, sym here, λ t l. absurd (omega arith))

at_most_one :
    {i j a b : ℕ}
    → ((i ≡ 4) × (a ≡ 13)) ⊎ ((i ≡ 5) × (a ≡ 5))
    → ((j ≡ 4) × (b ≡ 13)) ⊎ ((j ≡ 5) × (b ≡ 5))
    → a ≡ b
    → i ≡ j
at_most_one h h' e = omega arith

eight-single :
    (i j a b : ℕ)
    → get_or eight.ht_vec i empty ≡ item a
    → get_or eight.ht_vec j empty ≡ item b
    → a == b ≡ true
    → i ≡ j
eight-single i j a b h h' e = at_most_one (eight-item i a h) (eight-item j b h') (equal a b e)

eight-InOrder : InOrder numbers 3 eight
eight-InOrder = record {
  sized = record { few = omega arith; power = refl };
  long = refl;
  reached = λ i a h. eight-Reached i a (eight-item i a h);
  single = eight-single;
  free = 0;
  free_within = omega arith;
  is_free = refl;
}

eight_room : used eight.ht_vec + 1 < 8
unfolding used
eight_room = omega arith

hash_find_item-lookup_example :
    (n : ℕ) × (hash_find_item numbers eight 13
      ≡ some (
        lookup numbers 13 eight.ht_vec,
        record eight { ht_lookups = eight.ht_lookups + 1; ht_collisions = n },
      ))
hash_find_item-lookup_example =
    hash_find_item-lookup numbers numbers-Lawful 3 eight eight-InOrder 13

hash_insert-lookup_example :
    (k' : ℕ) × (ht' : HashTable ℕ) × (hash_insert numbers eight 14
      ≡ some (some_or 14 (lookup numbers 14 eight.ht_vec), ht'))
    × InOrder numbers k' ht'
    × (lookup numbers 5 ht'.ht_vec
        ≡ (if matches numbers 5 14 then some 14 else lookup numbers 5 eight.ht_vec))
hash_insert-lookup_example =
    hash_insert-lookup numbers numbers-Lawful 3 eight eight-InOrder 14 5 (ground arith) refl
      (omega arith) eight_room

hash_delete-lookup_example :
    (ht' : HashTable ℕ) × (hash_delete numbers eight 5 ≡ some (lookup numbers 5 eight.ht_vec, ht'))
    × InOrder numbers 3 ht'
    × (lookup numbers 13 ht'.ht_vec
        ≡ (if matches numbers 13 5 then none else lookup numbers 13 eight.ht_vec))
hash_delete-lookup_example = hash_delete-lookup numbers numbers-Lawful 3 eight eight-InOrder 5 13

hash_init-InOrder_example :
    (k : ℕ) × InOrder numbers k (hash_init 100)
    × (lookup numbers 5 (hash_init {A = ℕ} 100).ht_vec ≡ none)
hash_init-InOrder_example = hash_init-InOrder numbers 100 5 (omega arith)
