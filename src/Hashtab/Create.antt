-- ===== src/Hashtab/Create.antt =====
-- A new table, as the finite map that maps nothing.
use a2ps.Prelude.{
  ℕ, ◌^◌, ◌<◌, ◌≡◌, sym, ◌∙◌, ap, List, none, get_or, length, length-replicate, replicate,
}
use a2ps.Hashtab.{Slot, empty, item, Keys, hash_init}
use a2ps.Hashtab.Lookup.{lookup, lookup-none, empty-ne-item}
use a2ps.Hashtab.Find.{InOrder}
use a2ps.Hashtab.Size.{hash_init-Sized, get_or-replicate}

module _ {ℓ} {A : Type ℓ} (keys : Keys A) where
  all_empty :
      (vec : List (Slot A)) (n i : ℕ) (a : A)
      → vec ≡ replicate n empty
      → get_or vec i empty ≡ item a
      → ⊥
  all_empty vec n i a e h =
      empty-ne-item (get_or vec i empty) (ap (λ v. get_or v i empty) e ∙ get_or-replicate n i empty)
        h

  -- A new table, of a size less than 2 ^ 63, is in order, and nothing is found in it.
  pub hash_init-InOrder :
      (size : ℕ) (q : A)
      → size < 2 ^ 63
      → (k : ℕ) × InOrder keys k (hash_init size)
        × (lookup keys q (hash_init {A = A} size).ht_vec ≡ none)
  hash_init-InOrder size q small =
      let (k, sized, some_slot, all) = hash_init-Sized {A = A} size small in
      (
        k,
        record {
          sized = sized;
          long = ap length all ∙ length-replicate (2 ^ k) empty ∙ sym sized.power;
          reached = λ i a h. absurd (all_empty _ (2 ^ k) i a all h);
          single = λ i j a b h h' e. absurd (all_empty _ (2 ^ k) i a all h);
          free = 0;
          free_within = some_slot;
          is_free = ap (λ v. get_or v 0 empty) all ∙ get_or-replicate (2 ^ k) 0 empty;
        },
        lookup-none keys q (hash_init {A = A} size).ht_vec
            (λ i a h. absurd (all_empty _ (2 ^ k) i a all h)),
      )
