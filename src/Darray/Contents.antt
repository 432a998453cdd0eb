-- ===== src/Darray/Contents.antt =====
-- What the operations do to the list of elements, with the invariant that they keep.
use a2ps.Prelude.{
  ℕ, ◌+◌, ◌-◌, ◌≤◌, ◌<◌, ◌≡◌, ap, ◌∙◌, ◌⊎◌, inl, inr, Bool-cases, List, [], ◌∷◌, ◌++◌, set,
  length-set, ltb, leb, ltb→lt, ltb→le, leb→le, le→ltb, arith,
}
use a2ps.Prelude.Outcome.{ok, exit, bad_insert, bad_remove}
use a2ps.Darray.{
  Darray, da_append, da_insert_at, da_remove_at, removed, da_concat, da_prefix, make_room, room_for,
  shift_up, move_up,
}
use a2ps.Darray.Cells.{length-shift_up, length-shift_down, length-copy, length-move_up}
use a2ps.Darray.Edits.{
  insert_at, remove_at, take-insert, take-remove, take-set, take-concat, take-prefix,
}
use a2ps.Darray.Bounds.{IsValid, CanTake, view, make_room-Roomier, room_for-RoomyFor}

-- `arr` is valid and has these elements.
abbrev pub Holds : {A : Type 0} → Darray A → List A → Type 0
Holds arr xs = IsValid arr × (view arr ≡ xs)

module _ {A : Type 0} (arr : Darray A) (v : IsValid arr) where
  -- A valid array that has a free cell, or grows by at least one cell when it is full, stays
  -- valid when an element is appended, and the element comes behind the others.
  pub da_append-Holds : (x : A) → CanTake arr → Holds (da_append arr x) (view arr ++ x ∷ [])
  unfolding da_append
  da_append-Holds x c =
      let r = make_room-Roomier arr v c in
      let arr' = make_room arr in
      (
        record {
          fits = omega (arith, r.len_kept, r.free);
          backed = omega (arith, r.backed, length-set arr'.content arr'.len x);
          sized = omega (arith, r.free);
        },
        rw r.len_kept (
            take-set arr.fresh arr.len arr'.content x (omega (arith, r.free, r.backed))
            ∙ ap (λ xs. xs ++ x ∷ []) r.view_kept),
      )

  insert_result :
      (x : A) (w : ℕ)
      → CanTake arr
      → w ≤ arr.len
      → (arr' : Darray A) × (da_insert_at arr x w ≡ ok arr') × Holds arr' (insert_at (view arr) w x)
  unfolding da_insert_at
  insert_result x w c h =
      let r = make_room-Roomier arr v c in
      let arr' = make_room arr in
      let moved = shift_up arr.fresh w (arr'.len - w) arr'.content in
      (
        record arr' { content = set moved w x; len = arr'.len + 1 },
        rw (le→ltb arr.len w h),
        (
          record {
            fits = omega (arith, r.len_kept, r.free);
            backed = omega (
              arith,
              r.backed,
              length-set moved w x,
              length-shift_up arr.fresh w (arr'.len - w) arr'.content,
            );
            sized = omega (arith, r.free);
          },
          rw r.len_kept (
              take-insert arr.fresh arr.len w arr'.content x h (omega (arith, r.free, r.backed))
              ∙ ap (λ xs. insert_at xs w x) r.view_kept),
        ),
      )

  -- da_insert_at puts the element at the place asked for if that is not behind the end, and keeps
  -- the array valid; else the program exits.
  pub da_insert_at-Holds :
      (x : A) (w : ℕ)
      → CanTake arr
      → ((w ≤ arr.len)
          × ((arr' : Darray A) × (da_insert_at arr x w ≡ ok arr')
              × Holds arr' (insert_at (view arr) w x)))
        ⊎ ((arr.len < w) × (da_insert_at arr x w ≡ exit bad_insert))
  unfolding da_insert_at
  da_insert_at-Holds x w c = elim (Bool-cases (ltb arr.len w)) [
    | inl behind ↦ inr (ltb→lt arr.len w behind, rw behind)
    | inr within ↦ inl (ltb→le arr.len w within, insert_result x w c (ltb→le arr.len w within))
  ]

  pub removed-Holds : (w : ℕ) → w < arr.len → Holds (removed arr w) (remove_at (view arr) w)
  removed-Holds w h = (
    record {
      fits = omega (arith, v.fits);
      backed =
          omega (arith, v.backed, length-shift_down arr.fresh w (arr.len - (w + 1)) arr.content);
      sized = v.sized;
    },
    take-remove arr.fresh arr.len w arr.content h (omega (arith, v.fits, v.backed)),
  )

  -- da_remove_at takes the element at the place out if there is one, and keeps the array valid;
  -- else the program exits.
  pub da_remove_at-Holds :
      (w : ℕ)
      → ((w < arr.len)
          × ((arr' : Darray A) × (da_remove_at arr w ≡ ok arr')
              × Holds arr' (remove_at (view arr) w)))
        ⊎ ((arr.len ≤ w) × (da_remove_at arr w ≡ exit bad_remove))
  unfolding da_remove_at
  da_remove_at-Holds w = elim (Bool-cases (leb arr.len w)) [
    | inl behind ↦ inr (leb→le arr.len w behind, rw behind)
    | inr within ↦
        let h : w < arr.len = ground arith in inl (h, (removed arr w, rw within, removed-Holds w h))
  ]

  module _ (arr2 : Darray A) (v2 : IsValid arr2) where
    -- da_concat puts the elements of another array behind, and keeps the array valid.
    pub da_concat-Holds : Holds (da_concat arr arr2) (view arr ++ view arr2)
    unfolding da_concat
    da_concat-Holds =
        let r = room_for-RoomyFor arr (arr.len + arr2.len) v (omega arith) in
        let arr' = room_for arr (arr.len + arr2.len) in
        (
          record {
            fits = omega (arith, r.len_kept, r.enough);
            backed = omega (
              arith,
              r.backed,
              length-copy arr.fresh arr'.len 0 arr2.len arr2.content arr'.content,
            );
            sized = r.sized;
          },
          rw r.len_kept (
              take-concat arr.fresh arr.len arr2.len arr2.content arr'.content
                (omega (arith, r.enough, r.backed)) (omega (arith, v2.fits, v2.backed))
              ∙ ap (λ xs. xs ++ view arr2) r.view_kept),
        )

    -- da_prefix puts the elements of another array in front, and keeps the array valid.
    pub da_prefix-Holds : Holds (da_prefix arr arr2) (view arr2 ++ view arr)
    unfolding da_prefix
    da_prefix-Holds =
        let r = room_for-RoomyFor arr (arr.len + arr2.len) v (omega arith) in
        let arr' = room_for arr (arr.len + arr2.len) in
        (
          record {
            fits = omega (arith, r.len_kept, r.enough);
            backed = omega (
              arith,
              r.backed,
              length-move_up arr.fresh arr2.len arr'.len arr'.content,
              length-copy arr.fresh 0 0 arr2.len arr2.content
                  (move_up arr.fresh arr2.len arr'.len arr'.content),
            );
            sized = r.sized;
          },
          rw r.len_kept (
              take-prefix arr.fresh arr.len arr2.len arr2.content arr'.content
                (omega (arith, r.enough, r.backed)) (omega (arith, v2.fits, v2.backed))
              ∙ ap (λ xs. view arr2 ++ xs) r.view_kept),
        )
