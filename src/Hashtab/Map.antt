-- ===== src/Hashtab/Map.antt =====
-- The table as a finite map from keys to items: what hash_insert and hash_delete do to it.
use a2ps.Prelude.{
  All, ℕ, ◌+◌, ◌-◌, ◌<◌, ◌≡◌, refl, sym, ◌∙◌, ap, inl, inr, Bool-cases, true, false, Option, none,
  some, some_or, get_or, if◌then◌else◌, suc, leb, Bool, ◌≤◌,
}
use a2ps.Hashtab.{
  ◌>>=◌, hash_rehash, Slot, empty, deleted, item, Keys, HashTable, matches, item_of, inserted,
  rehash_if_full, hash_insert_at, hash_insert, hash_delete_at, hash_delete, removed,
}
use a2ps.Hashtab.Probe.{Slot-cases}
use a2ps.Hashtab.Lookup.{Lawful, lookup, lookup-eq-some}
use a2ps.Hashtab.Delete.{InOrder-delete, lookup-delete, lookup-same_none}
use a2ps.Hashtab.Find.{InOrder, found_slot, Stops-lookup}
use a2ps.Hashtab.Room.{used, spare_slot}
use a2ps.Hashtab.Copy.{IsOther, All-set}
use a2ps.Hashtab.Rehash.{hash_rehash-lookup}
use a2ps.Hashtab.Insert.{changed, InOrder-insert, lookup-insert}

module _ {ℓ} {A : Type ℓ} (keys : Keys A) where
  -- The end of hash_insert_at
  abbrev finish : A × HashTable A → Option (A × HashTable A)
  finish p = rehash_if_full keys p.1 >>= λ ht. some (p.0, ht)

  -- hash_insert_at, in terms of what it writes
  insert_at-finish :
      (ht : HashTable A) (new : A) (i : ℕ)
      → hash_insert_at keys ht new i ≡ finish (inserted keys new i (get_or ht.ht_vec i empty) ht)
  unfolding hash_insert_at
  insert_at-finish ht new i = refl

  abbrev fill_after : Slot A → HashTable A → ℕ
  fill_after (item a) ht = ht.ht_fill
  fill_after _ ht = ht.ht_fill + 1

  inserted-changed :
      (new : A) (i : ℕ) (s : Slot A) (ht : HashTable A)
      → inserted keys new i s ht ≡ (
        some_or new (item_of s),
        changed i (item new) (fill_after s ht) ht.ht_lookups ht.ht_collisions ht,
      )
  inserted-changed new i empty ht = refl
  inserted-changed new i deleted ht = refl
  inserted-changed new i (item a) ht = refl

  module _ (lawful : Lawful keys) (q : A) where
    -- A table in order, small enough to be doubled, is in order behind hash_insert_at.
    record Finishes (old : A) (ht : HashTable A) (r : Option (A × HashTable A)) : Type ℓ where
      size : ℕ
      table : HashTable A
      ends : r ≡ some (old, table)
      in_order : InOrder keys size table
      finds : lookup keys q table.ht_vec ≡ lookup keys q ht.ht_vec

    finish-Finishes :
        (k : ℕ) (old : A) (ht : HashTable A)
        → InOrder keys k ht
        → All (IsOther keys) ht.ht_vec
        → k ≤ 62
        → Finishes old ht (finish (old, ht))
    finish-Finishes k old ht order others few =
        let go_on = λ (r : Option (HashTable A)). r >>= λ ht. some (old, ht) in
        let choose =
          λ (b : Bool). go_on (elim b [ true ↦ hash_rehash keys ht | false ↦ some ht ]) in
        elim (Bool-cases (leb ht.ht_capacity ht.ht_fill)) [
          | inl full ↦
              let (ht', e, order', same) = hash_rehash-lookup keys lawful k ht q order others few in
              record {
                size = suc k;
                table = ht';
                ends = ap choose full ∙ ap go_on e;
                in_order = order';
                finds = same;
              }
          | inr not_full ↦ record {
            size = k;
            table = ht;
            ends = ap choose not_full;
            in_order = order;
            finds = refl;
          }
        ]

  module _ (lawful : Lawful keys) (k : ℕ) (ht : HashTable A) (order : InOrder keys k ht) where
    -- In a table of up to 2 ^ 62 slots that is in order, and has two empty slots, hash_insert ends:
    -- it returns the item that was equal to the new one, or else the new one, and leaves a table
    -- in order, enlarged or not, in which the keys that match the new item find it, and all others
    -- what they found before. The comparison is an equivalence that the hash functions respect, and
    -- the deletion mark is equal to none of the items.
    pub hash_insert-lookup :
        (new q : A)
        → All (IsOther keys) ht.ht_vec
        → matches keys keys.mark new ≡ false
        → k ≤ 62
        → used ht.ht_vec + 1 < ht.ht_size
        → (k' : ℕ) × (ht' : HashTable A) × (hash_insert keys ht new
            ≡ some (some_or new (lookup keys new ht.ht_vec), ht'))
          × InOrder keys k' ht'
          × (lookup keys q ht'.ht_vec
              ≡ (if matches keys q new then some new else lookup keys q ht.ht_vec))
    unfolding hash_insert
    hash_insert-lookup new q others differs few room =
        let (spare, l, other, e) = spare_slot keys lawful k ht order room in
        let (i, n, found, within, st) = found_slot keys lawful k ht order new in
        let ht1 = record ht { ht_lookups = ht.ht_lookups + 1; ht_collisions = n } in
        let s = get_or ht.ht_vec i empty in
        let fill = fill_after s ht1 in
        let written = changed i (item new) fill (ht.ht_lookups + 1) n ht in
        let after =
          InOrder-insert keys lawful k ht order new i within st fill (ht.ht_lookups + 1) n spare l
            other e in
        let stored = Stops-lookup keys lawful k ht order new i st in
        let bound =
          ap (λ r. r >>= λ (p : ℕ × HashTable A). hash_insert_at keys p.1 new p.0) found in
        let rest =
          finish-Finishes lawful q k (some_or new (item_of s)) written after
            (All-set (IsOther keys) ht.ht_vec i (item new) others differs) few in
        (
          rest.size,
          rest.table,
          bound
              ∙ insert_at-finish ht1 new i
              ∙ ap finish (inserted-changed new i s ht1)
              ∙ rest.ends
              ∙ ap (λ o. some (some_or new o, rest.table)) stored,
          rest.in_order,
          rest.finds
              ∙ lookup-insert keys lawful k ht order new i within st fill (ht.ht_lookups + 1) n
                  after q,
        )

    -- The statistics do not matter for the order.
    order_counted :
        (lookups collisions : ℕ)
        → InOrder keys k (record ht { ht_lookups = lookups; ht_collisions = collisions })
    order_counted lookups collisions = record {
      sized = record { few = order.sized.few; power = order.sized.power };
      long = order.long;
      reached = order.reached;
      single = order.single;
      free = order.free;
      free_within = order.free_within;
      is_free = order.is_free;
    }

    not_there :
        (key q : A)
        → lookup keys key ht.ht_vec ≡ none
        → lookup keys q ht.ht_vec ≡ (if matches keys q key then none else lookup keys q ht.ht_vec)
    not_there key q h = elim (Bool-cases (matches keys q key)) [
      | inl m ↦ lookup-same_none keys lawful k ht order q key m h ∙ rw m
      | inr m ↦ rw m
    ]

    -- In a table that is in order, hash_delete ends: it returns the item that was found for the
    -- key, if any, and leaves a table in order, in which the keys that match the deleted one find
    -- nothing, and all others what they found before. The comparison is an equivalence that the
    -- hash functions respect.
    pub hash_delete-lookup :
        (key q : A)
        → (ht' : HashTable A) × (hash_delete keys ht key ≡ some (lookup keys key ht.ht_vec, ht'))
          × InOrder keys k ht'
          × (lookup keys q ht'.ht_vec
              ≡ (if matches keys q key then none else lookup keys q ht.ht_vec))
    unfolding hash_delete hash_delete_at
    hash_delete-lookup key q =
        let (i, n, found, within, st) = found_slot keys lawful k ht order key in
        let ht1 = record ht { ht_lookups = ht.ht_lookups + 1; ht_collisions = n } in
        let stored = Stops-lookup keys lawful k ht order key i st in
        let bound =
          ap (λ r. r >>= λ (p : ℕ × HashTable A). some (hash_delete_at keys p.1 p.0)) found in
        let deletes = λ (s : Slot A) (e : get_or ht.ht_vec i empty ≡ s).
          bound ∙ ap (λ s. some (removed keys i s ht1)) e in
        let same = order_counted (ht.ht_lookups + 1) n in
        elim (Slot-cases (get_or ht.ht_vec i empty)) [
          | inl e ↦
              let missing = sym stored ∙ ap item_of e in
              (
                ht1,
                deletes empty e ∙ ap (λ o. some (o, ht1)) (sym missing),
                same,
                not_there key q missing,
              )
          | inr (inl e) ↦
              let missing = sym stored ∙ ap item_of e in
              (
                ht1,
                deletes deleted e ∙ ap (λ o. some (o, ht1)) (sym missing),
                same,
                not_there key q missing,
              )
          | inr (inr (a, e)) ↦
              let there = sym stored ∙ ap item_of e in
              let m = (lookup-eq-some keys key ht.ht_vec a there).2 in
              let ht' = changed i deleted (ht.ht_fill - 1) (ht.ht_lookups + 1) n ht in
              (
                ht',
                deletes (item a) e ∙ ap (λ o. some (o, ht')) (sym there),
                InOrder-delete keys lawful k ht order key i within a e m (ht.ht_fill - 1)
                    (ht.ht_lookups + 1) n,
                lookup-delete keys lawful k ht order key i within a e m q,
              )
        ]
