-- ===== src/Darray/Tests.antt =====
-- darray.c run on small arrays of numbers, and its theorems there.
use Prim.Native.Nat.{compare}
use a2ps.Prelude.{ℕ, ◌≤◌, ◌<◌, ◌≡◌, refl, ◌⊎◌, [], ◌∷◌, ◌++◌, none, some, true, false, ◌↔◌, arith}
use a2ps.Prelude.Outcome.{ok, exit, bad_insert, bad_remove, ◌>>=◌}
use a2ps.Darray.{
  Darray, linear, da_new, da_resize, da_clone, da_grow, make_room, da_append, da_insert_at,
  da_remove_at, shift_up, shift_down, copy, move_up, room_for, da_concat, da_prefix,
}
use a2ps.Darray.Scan.{
  is_sorted_from, da_is_sorted, equal_from, da_equal, da_cmp_equal, where_from, da_where,
  da_includes, unique_from, da_unique,
}
use a2ps.Darray.Bounds.{IsValid, view}
use a2ps.Darray.Create.{da_resize-Holds, da_clone_short}
use a2ps.Darray.Contents.{
  Holds, da_append-Holds, da_insert_at-Holds, da_remove_at-Holds, da_concat-Holds, da_prefix-Holds,
}
use a2ps.Darray.Edits.{insert_at, remove_at}
use a2ps.Darray.Search.{FirstHit, NoHit, AllPass, in_order, da_where-FirstHit, da_is_sorted_iff}
use a2ps.Darray.Merge.{
  da_1_wins, da_2_wins, da_merge, merge_rounds, merge_round, leave_smaller, skip_doubles,
  take_others,
}
use a2ps.Darray.Merging.{merge}
use a2ps.Darray.Merged.{da_merge-merge}
use a2ps.Darray.Unique.{dedup, da_unique-dedup}

program : Unit {0}
unfolding da_new da_resize da_clone da_grow make_room da_append da_insert_at da_remove_at shift_up
    shift_down copy move_up room_for da_concat da_prefix is_sorted_from da_is_sorted equal_from
    da_equal da_cmp_equal where_from da_where da_includes unique_from da_unique
program = tt

abbrev pair : Darray ℕ
pair = record {
  size = 2;
  original_size = 2;
  growth = linear;
  increment = 3;
  len = 2;
  content = 5 ∷ 5 ∷ [];
  cmp = compare;
  fresh = 0;
}

pair-IsValid : IsValid pair
pair-IsValid = record { fits = omega arith; backed = omega arith; sized = omega arith }

-- The size, then the elements: the array grows by three cells, then has the new element at its place.
insert_runs : (da_insert_at pair 7 1 >>= λ arr. ok (arr.size ∷ view arr)) ≡ ok (5 ∷ 5 ∷ 7 ∷ 5 ∷ [])
unfolding program
insert_runs = refl

remove_runs : (da_remove_at pair 0 >>= λ arr. ok (view arr)) ≡ ok (5 ∷ [])
unfolding program
remove_runs = refl

unique_runs : (da_unique (da_append pair 6) >>= λ arr. ok (view arr)) ≡ ok (5 ∷ 6 ∷ [])
unfolding program
unique_runs = refl

prefix_runs : view (da_prefix pair (da_append pair 9)) ≡ 5 ∷ 5 ∷ 9 ∷ 5 ∷ 5 ∷ []
unfolding program
prefix_runs = refl

where_runs : da_where (da_append pair 9) 9 ≡ some 2
unfolding program
where_runs = refl

da_append-Holds_example : Holds (da_append pair 7) (view pair ++ 7 ∷ [])
da_append-Holds_example = da_append-Holds pair pair-IsValid 7 (omega arith)

da_insert_at-Holds_example :
    ((1 ≤ pair.len)
      × ((arr' : Darray ℕ) × (da_insert_at pair 7 1 ≡ ok arr')
          × Holds arr' (insert_at (view pair) 1 7)))
    ⊎ ((pair.len < 1) × (da_insert_at pair 7 1 ≡ exit bad_insert))
da_insert_at-Holds_example = da_insert_at-Holds pair pair-IsValid 7 1 (omega arith)

da_remove_at-Holds_example :
    ((1 < pair.len)
      × ((arr' : Darray ℕ) × (da_remove_at pair 1 ≡ ok arr')
          × Holds arr' (remove_at (view pair) 1)))
    ⊎ ((pair.len ≤ 1) × (da_remove_at pair 1 ≡ exit bad_remove))
da_remove_at-Holds_example = da_remove_at-Holds pair pair-IsValid 1

da_concat-Holds_example : Holds (da_concat pair pair) (view pair ++ view pair)
da_concat-Holds_example = da_concat-Holds pair pair-IsValid pair pair-IsValid

da_prefix-Holds_example : Holds (da_prefix pair pair) (view pair ++ view pair)
da_prefix-Holds_example = da_prefix-Holds pair pair-IsValid pair pair-IsValid

da_unique-dedup_example :
    (arr' : Darray ℕ) × (da_unique pair ≡ ok arr') × Holds arr' (dedup pair.cmp (view pair))
da_unique-dedup_example = da_unique-dedup pair pair-IsValid

da_resize-Holds_example : Holds (da_resize pair 9) (view pair)
da_resize-Holds_example = da_resize-Holds pair 9 pair-IsValid

abbrev spare : Darray ℕ
spare = record pair { size = 3; content = 5 ∷ 5 ∷ 0 ∷ [] }

da_clone_short_example : (view (da_clone spare) ≡ view spare) × ¬ (IsValid (da_clone spare))
da_clone_short_example =
    da_clone_short spare (record { fits = omega arith; backed = omega arith; sized = omega arith })
      (omega arith)

da_where-FirstHit_example :
    ((k : ℕ) × (da_where pair 5 ≡ some k)
      × (da_includes pair 5 ≡ true)
      × (k < pair.len)
      × FirstHit pair 5 0 k)
    ⊎ ((da_where pair 5 ≡ none) × (da_includes pair 5 ≡ false) × NoHit pair 5 0 pair.len)
da_where-FirstHit_example = da_where-FirstHit pair 5

da_is_sorted_iff_example : (da_is_sorted pair ≡ true) ↔ AllPass (in_order pair) 1 pair.len
da_is_sorted_iff_example = da_is_sorted_iff pair

abbrev odd : Darray ℕ
odd = record pair { content = 1 ∷ 3 ∷ [] }

abbrev later : Darray ℕ
later = record pair { content = 2 ∷ 3 ∷ [] }

da_merge-merge_example :
    (b1 : Darray ℕ) × (da_merge odd later da_1_wins ≡ ok b1)
    × Holds b1 (merge compare da_1_wins (view odd) (view later))
da_merge-merge_example =
    da_merge-merge odd later da_1_wins
      (record { fits = omega arith; backed = omega arith; sized = omega arith })
      (record { fits = omega arith; backed = omega arith; sized = omega arith }) (omega arith)
      (refl, tt)

-- The policy da_2_wins keeps both of two equal elements.
keeps_both : merge compare da_2_wins (view odd) (view later) ≡ 1 ∷ 2 ∷ 3 ∷ 3 ∷ []
unfolding merge
keeps_both = refl

merge_runs : (da_merge odd later da_2_wins >>= λ arr. ok (view arr)) ≡ ok (1 ∷ 2 ∷ 3 ∷ 3 ∷ [])
unfolding program da_merge merge_rounds merge_round leave_smaller skip_doubles take_others
merge_runs = refl
