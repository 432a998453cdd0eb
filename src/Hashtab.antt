-- ===== src/Hashtab.antt =====
-- src/liba2ps/hashtab.c, hashtab.h: hash tables with open addressing, double hashing and deletion
-- marks.
--
-- Items are values of any type. The functions of the caller are the fields of Keys, and `mark` is
-- what these functions find at the address of hash_deleted_item, which hash_rehash gives them as
-- if it were an item. The loop of hash_find_slot runs on the size of the table as its fuel, and
-- has no result without it. Sorting what is dumped is qsort, and left out.
pub mod Inverse
pub mod Probe
pub mod Ends
pub mod Trace
pub mod Lookup
pub mod Find
pub mod Change
pub mod Insert
pub mod Delete
pub mod Map
pub mod Create
pub mod Room
pub mod Copy
pub mod Rehash
pub mod Size
pub mod Tests
pub mod Examples
use a2ps.Prelude.{
  ℕ, zero, suc, ◌+◌, ◌-◌, ◌*◌, ◌/◌, ◌%◌, ◌^◌, ◌==◌, bit_or, ltb, leb, Bool, true, false, not, ◌||◌,
  List, [], ◌∷◌, Option, none, some, get_or, set, replicate, if◌then◌else◌,
}

pub data Slot {ℓ} (A : Type ℓ) : Type ℓ where
  empty deleted : Slot A
  item : A → Slot A

-- ht_hash_1, ht_hash_2, `key == *slot` and `(*ht->ht_compare) (key, *slot) == 0`
pub record Keys {ℓ} (A : Type ℓ) : Type ℓ where
  pub hash_1 : A → ℕ
  pub hash_2 : A → ℕ
  pub is_same : A → A → Bool
  pub is_equal : A → A → Bool
  pub mark : A

pub record HashTable {ℓ} (A : Type ℓ) : Type ℓ where
  pub ht_vec : List (Slot A)
  pub ht_size : ℕ
  pub ht_capacity : ℕ
  pub ht_fill : ℕ
  pub ht_collisions : ℕ
  pub ht_lookups : ℕ
  pub ht_rehashes : ℕ

abbrev pub is_vacant {ℓ} : {A : Type ℓ} → Slot A → Bool
is_vacant (item a) = false
is_vacant _ = true

abbrev pub item_of {ℓ} : {A : Type ℓ} → Slot A → Option A
item_of (item a) = some a
item_of _ = none

infixl 5 ◌>>=◌
abbrev pub ◌>>=◌ {ℓ κ} : {A : Type ℓ} {B : Type κ} → Option A → (A → Option B) → Option B
none >>= f = none
some a >>= f = f a

-- `while (rough)`: every round halves it.
abbrev pub round_from : ℕ → ℕ → ℕ → ℕ
round_from zero rough round = round
round_from (suc fuel) rough round =
    let rest = round_from fuel (rough / 2) (round * 2 % 2 ^ 64) in
    if rough == 0 then round else rest

unfoldable pub round_up_2 : ℕ → ℕ
round_up_2 rough = round_from rough rough 1

unfoldable pub hash_init {ℓ} : {A : Type ℓ} → ℕ → HashTable A
hash_init size =
    let round = round_up_2 size in
    let ht_size = if ltb (128 * 1024) round then round / 2 else round in
    record {
      ht_vec = replicate ht_size empty;
      ht_size = ht_size;
      ht_capacity = ht_size * 15 % 2 ^ 64 / 16;
      ht_fill = 0;
      ht_collisions = 0;
      ht_lookups = 0;
      ht_rehashes = 0;
    }

-- `if (deleted_slot == 0) deleted_slot = slot`
abbrev pub first_deleted : Option ℕ → ℕ → Option ℕ
first_deleted none i = some i
first_deleted (some d) i = some d

-- `deleted_slot ? deleted_slot : slot`
abbrev pub vacant_slot : Option ℕ → ℕ → ℕ
vacant_slot none i = i
vacant_slot (some d) i = d

module _ {ℓ} {A : Type ℓ} (keys : Keys A) where
  abbrev pub matches : A → A → Bool
  matches key a = keys.is_same key a || keys.is_equal key a

  -- `(*ht->ht_hash_2) (key) | 1`
  abbrev pub increment : A → ℕ
  increment key = bit_or (keys.hash_2 key) 1

  -- The loop of hash_find_slot: the slot and the number of collisions
  unfoldable pub probe : List (Slot A) → ℕ → A → ℕ → ℕ → Option ℕ → ℕ → Option (ℕ × ℕ)
  probe vec size key zero hash_1 deleted_slot collisions = none
  probe vec size key (suc fuel) hash_1 deleted_slot collisions =
      let i = hash_1 % size in
      let next_hash = (i + increment key) % 2 ^ 64 in
      elim (get_or vec i empty) [
        | empty ↦ some (vacant_slot deleted_slot i, collisions)
        | deleted ↦ probe vec size key fuel next_hash (first_deleted deleted_slot i) collisions
        | item a ↦ elim (matches key a) [
          | true ↦ some (i, collisions)
          | false ↦ probe vec size key fuel next_hash deleted_slot (collisions + 1)
        ]
      ]

  -- The slot is given by its index.
  unfoldable pub hash_find_slot : HashTable A → A → Option (ℕ × HashTable A)
  hash_find_slot ht key = do
    (i, n) ← probe ht.ht_vec ht.ht_size key ht.ht_size (keys.hash_1 key) none ht.ht_collisions
    some (i, record ht { ht_lookups = ht.ht_lookups + 1; ht_collisions = n })

  unfoldable pub hash_find_item : HashTable A → A → Option (Option A × HashTable A)
  hash_find_item ht key = do
    (i, ht') ← hash_find_slot ht key
    some (item_of (get_or ht'.ht_vec i empty), ht')

  abbrev pub put : ℕ → Slot A → HashTable A → HashTable A
  put i slot ht = record ht { ht_vec = set ht.ht_vec i slot }

  -- The loop of hash_rehash: a deletion mark is copied as if it were an item.
  unfoldable pub copy_slots : List (Slot A) → HashTable A → Option (HashTable A)
  copy_slots [] ht = some ht
  copy_slots (empty ∷ old) ht = copy_slots old ht
  copy_slots (deleted ∷ old) ht = do
    (i, ht') ← hash_find_slot ht keys.mark
    copy_slots old (put i deleted ht')
  copy_slots (item a ∷ old) ht = do
    (i, ht') ← hash_find_slot ht a
    copy_slots old (put i (item a) ht')

  unfoldable pub hash_rehash : HashTable A → Option (HashTable A)
  hash_rehash ht =
      let size = ht.ht_size * 2 % 2 ^ 64 in
      copy_slots ht.ht_vec (record ht {
        ht_size = size;
        ht_rehashes = (ht.ht_rehashes + 1) % 2 ^ 32;
        ht_capacity = size - size / 16;
        ht_vec = replicate size empty;
      })

  -- What hash_insert_at returns, and the table before it is tested for being full
  abbrev pub inserted : A → ℕ → Slot A → HashTable A → A × HashTable A
  inserted new i (item old) ht = (old, put i (item new) ht)
  inserted new i _ ht = (new, put i (item new) (record ht { ht_fill = ht.ht_fill + 1 }))

  abbrev pub rehash_if_full : HashTable A → Option (HashTable A)
  rehash_if_full ht = elim (leb ht.ht_capacity ht.ht_fill) [
    | true ↦ hash_rehash ht
    | false ↦ some ht
  ]

  unfoldable pub hash_insert_at : HashTable A → A → ℕ → Option (A × HashTable A)
  hash_insert_at ht new i =
      let (old_item, ht') = inserted new i (get_or ht.ht_vec i empty) ht in
      do ht'' ← rehash_if_full ht'; some (old_item, ht'')

  unfoldable pub hash_insert : HashTable A → A → Option (A × HashTable A)
  hash_insert ht new = do (i, ht') ← hash_find_slot ht new; hash_insert_at ht' new i

  unfoldable pub hash_load : HashTable A → List A → Option (HashTable A)
  hash_load ht [] = some ht
  hash_load ht (a ∷ items) = do (_, ht') ← hash_insert ht a; hash_load ht' items

  abbrev pub removed : ℕ → Slot A → HashTable A → Option A × HashTable A
  removed i (item old) ht = (some old, put i deleted (record ht { ht_fill = ht.ht_fill - 1 }))
  removed i _ ht = (none, ht)

  unfoldable pub hash_delete_at : HashTable A → ℕ → Option A × HashTable A
  hash_delete_at ht i = removed i (get_or ht.ht_vec i empty) ht

  unfoldable pub hash_delete : HashTable A → A → Option (Option A × HashTable A)
  hash_delete ht key = do (i, ht') ← hash_find_slot ht key; some (hash_delete_at ht' i)

unfoldable pub hash_delete_items {ℓ} : {A : Type ℓ} → HashTable A → HashTable A
hash_delete_items ht = record ht {
  ht_vec = replicate ht.ht_size empty;
  ht_fill = 0;
  ht_collisions = 0;
  ht_lookups = 0;
  ht_rehashes = 0;
}

-- hash_dump without a comparison
unfoldable pub hash_dump {ℓ} : {A : Type ℓ} → List (Slot A) → List A
hash_dump [] = []
hash_dump (item a ∷ vec) = a ∷ hash_dump vec
hash_dump (_ ∷ vec) = hash_dump vec
