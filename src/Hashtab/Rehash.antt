-- ===== src/Hashtab/Rehash.antt =====
-- hash_rehash: the items are put into a table of twice the size.
use native.Mathlib.Nat.{two-pow-succ, mod-eq_of_lt, pow-le-pow_right}
use a2ps.Prelude.{
  ℕ, suc, ◌+◌, ◌-◌, ◌*◌, ◌/◌, ◌%◌, ◌^◌, ◌<◌, ◌≤◌, ◌≡◌, refl, sym, ◌∙◌, ap, arith, some, get_or,
  replicate, length-replicate, length, All,
}
use a2ps.Hashtab.{empty, item, Keys, HashTable, hash_rehash}
use a2ps.Hashtab.Ends.{Sized}
use a2ps.Hashtab.Lookup.{Lawful, lookup, lookup-none, empty-ne-item}
use a2ps.Hashtab.Find.{InOrder}
use a2ps.Hashtab.Size.{get_or-replicate}
use a2ps.Hashtab.Room.{used-le, used-replicate}
use a2ps.Hashtab.Copy.{IsOther, All-replicate, first_some, first_some-none, copy_slots-Copies}

module _ {ℓ} {A : Type ℓ} (keys : Keys A) (lawful : Lawful keys) where
  fresh_all : (size i : ℕ) (a : A) → get_or (replicate size empty) i empty ≡ item a → ⊥
  fresh_all size i a h =
      empty-ne-item (get_or (replicate size empty) i empty) (get_or-replicate size i empty) h

  doubled :
      (k : ℕ) (ht : HashTable A) → Sized k ht → k ≤ 62 → ht.ht_size * 2 % 2 ^ 64 ≡ ht.ht_size * 2
  doubled k ht sized few =
      let small : 2 ^ k ≤ 2 ^ 62 = pow-le-pow_right (omega arith) few in
      mod-eq_of_lt (omega (arith, sized.power, small))

  -- The table that the items are copied into
  fresh-InOrder :
      (k : ℕ) (ht : HashTable A)
      → Sized k ht
      → k ≤ 62
      → (fresh : HashTable A) → fresh.ht_size ≡ ht.ht_size * 2 % 2 ^ 64
      → fresh.ht_vec ≡ replicate (ht.ht_size * 2 % 2 ^ 64) empty
      → 0 < ht.ht_size * 2 % 2 ^ 64
      → InOrder keys (suc k) fresh
  fresh-InOrder k ht sized few fresh e all some_slot =
      let at = λ (i : ℕ). ap (λ v. get_or v i empty) all in
      record {
        sized = record {
          few = omega arith;
          power = e ∙ doubled k ht sized few ∙ omega (arith, sized.power, two-pow-succ k);
        };
        long = ap length all ∙ length-replicate (ht.ht_size * 2 % 2 ^ 64) empty ∙ sym e;
        reached = λ i a h. absurd (fresh_all (ht.ht_size * 2 % 2 ^ 64) i a (sym (at i) ∙ h));
        single =
            λ i j a b h h' m. absurd (fresh_all (ht.ht_size * 2 % 2 ^ 64) i a (sym (at i) ∙ h));
        free = 0;
        free_within = omega (arith, e, some_slot);
        is_free = at 0 ∙ get_or-replicate (ht.ht_size * 2 % 2 ^ 64) 0 empty;
      }

  -- hash_rehash ends, in a table of up to 2 ^ 62 slots that is in order, whatever deletion marks
  -- it holds, if the mark is equal to no item: the table has twice the size and is in order, and
  -- every key finds what it found before.
  pub hash_rehash-lookup :
      (k : ℕ) (ht : HashTable A) (q : A)
      → InOrder keys k ht
      → All (IsOther keys) ht.ht_vec
      → k ≤ 62
      → (ht' : HashTable A) × (hash_rehash keys ht ≡ some ht')
        × InOrder keys (suc k) ht'
        × (lookup keys q ht'.ht_vec ≡ lookup keys q ht.ht_vec)
  unfolding hash_rehash
  hash_rehash-lookup k ht q order others few =
      let size = ht.ht_size * 2 % 2 ^ 64 in
      let double = doubled k ht order.sized few in
      let fresh = record ht {
        ht_size = size;
        ht_rehashes = (ht.ht_rehashes + 1) % 2 ^ 32;
        ht_capacity = size - size / 16;
        ht_vec = replicate size empty;
      } in
      let order0 =
        fresh-InOrder k ht order.sized few fresh refl refl
          (omega (arith, order.free_within, double)) in
      let copies =
        copy_slots-Copies keys lawful q (suc k) ht.ht_vec fresh order0 order.single others
          (All-replicate (IsOther keys) size empty tt)
          (omega (
            arith,
            used-le ht.ht_vec,
            used-replicate A size,
            order.long,
            order.free_within,
            double,
          )) in
      (
        copies.copied,
        copies.ends,
        copies.in_order,
        copies.finds
            ∙ ap (first_some (lookup keys q ht.ht_vec))
                (lookup-none keys q (replicate size empty) (λ i a h. absurd (fresh_all size i a h)))
            ∙ first_some-none (lookup keys q ht.ht_vec),
      )
