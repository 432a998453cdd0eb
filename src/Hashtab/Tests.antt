-- ===== src/Hashtab/Tests.antt =====
-- hashtab.c run on small tables of numbers, and its theorems there.
use a2ps.Prelude.{ℕ, ◌*◌, ◌==◌, ◌≡◌, refl, List, [], ◌∷◌, Option, none, some, arith}
use a2ps.Hashtab.{
  Slot, empty, deleted, item, Keys, HashTable, ◌>>=◌, probe, round_up_2, hash_init, hash_find_slot,
  hash_find_item, copy_slots, hash_rehash, hash_insert_at, hash_insert, hash_load, hash_delete_at,
  hash_delete, hash_delete_items, hash_dump,
}
use a2ps.Hashtab.Ends.{probe-hangs}

program : Unit {0}
unfolding probe round_up_2 hash_init hash_find_slot hash_find_item copy_slots hash_rehash
    hash_insert_at hash_insert hash_load hash_delete_at hash_delete hash_delete_items hash_dump
program = tt

abbrev pub numbers : Keys ℕ
numbers = record {
  hash_1 = λ n. n;
  hash_2 = λ n. n * 3;
  is_same = λ a b. a == b;
  is_equal = λ a b. a == b;
  mark = 1000;
}

abbrev small : HashTable ℕ
small = hash_init 1

abbrev vec_of : Option (HashTable ℕ) → List (Slot ℕ)
vec_of none = []
vec_of (some ht) = ht.ht_vec

-- The table grows while it is loaded.
loaded :
    vec_of (hash_load numbers small (5 ∷ 7 ∷ 6 ∷ 13 ∷ []))
    ≡ empty ∷ empty ∷ empty ∷ empty ∷ item 5 ∷ item 13 ∷ item 6 ∷ item 7 ∷ []
unfolding program
loaded = refl

abbrev come_and_go : HashTable ℕ → ℕ → Option (HashTable ℕ)
come_and_go ht n = do (_, a) ← hash_insert numbers ht n; (_, b) ← hash_delete numbers a n; some b

-- Four keys that come and go leave a table of marks, in which the search for a fifth never ends.
abbrev marks : Option (HashTable ℕ)
marks = do a ← come_and_go small 4; b ← come_and_go a 5; c ← come_and_go b 6; come_and_go c 7

marks_only : vec_of marks ≡ deleted ∷ deleted ∷ deleted ∷ deleted ∷ []
unfolding program
marks_only = refl

probe-hangs_example :
    probe numbers (deleted ∷ deleted ∷ deleted ∷ deleted ∷ []) 4 8 1000 8 none 0 ≡ none
probe-hangs_example =
    probe-hangs numbers (deleted ∷ deleted ∷ deleted ∷ deleted ∷ []) 8 1000 8 none 0 (omega arith)
      (ground arith)
