-- ===== src/Darray/Bounds.antt =====
-- The invariant of an array, and the room that an insertion finds.
use a2ps.Prelude.{
  ℕ, ◌+◌, ◌*◌, ◌≤◌, ◌<◌, ◌≡◌, refl, inl, inr, Bool-cases, List, length, take, ltb, leb, arith,
  tests,
}
use a2ps.Darray.{
  Growth, steady, linear, geometrical, Darray, grow_by, da_grow, make_room, with_size, room_for,
}
use a2ps.Darray.Cells.{length-realloc, take-realloc}

-- `size` is not more than what is allocated, and the elements in use fit in it.
pub record IsValid {A : Type 0} (arr : Darray A) : Type 0 where
  pub fits : arr.len ≤ arr.size
  pub backed : arr.size ≤ length arr.content
  pub sized : 1 ≤ arr.size

-- There is a free cell in an array that cannot grow, or else a full one grows: by one cell at
-- least, or to twice its size at least.
abbrev pub CanTakeBy : Growth → ℕ → ℕ → ℕ → Type 0
CanTakeBy steady increment len size = len < size
CanTakeBy linear increment len size = 1 ≤ increment
CanTakeBy geometrical increment len size = 2 ≤ increment

abbrev pub CanTake : {A : Type 0} → Darray A → Type 0
CanTake arr = CanTakeBy arr.growth arr.increment arr.len arr.size

-- The elements in use, in order
abbrev pub view : {A : Type 0} → Darray A → List A
view arr = take arr.len arr.content

-- `new` has the elements of `old`, and a free cell.
pub record Roomier {A : Type 0} (old new : Darray A) : Type 0 where
  pub len_kept : new.len ≡ old.len
  pub growth_kept : new.growth ≡ old.growth
  pub increment_kept : new.increment ≡ old.increment
  pub view_kept : take old.len new.content ≡ take old.len old.content
  pub free : old.len < new.size
  pub backed : new.size ≤ length new.content

module _ {A : Type 0} (arr : Darray A) (v : IsValid arr) where
  with_size-Roomier : (size : ℕ) → arr.len < size → Roomier arr (with_size arr size)
  with_size-Roomier size h = record {
    len_kept = refl;
    growth_kept = refl;
    increment_kept = refl;
    view_kept =
        take-realloc arr.fresh arr.len size arr.content (omega arith)
          (omega (arith, v.fits, v.backed));
    free = h;
    backed = omega (arith, length-realloc arr.fresh size arr.content);
  }

  same-Roomier : arr.len < arr.size → Roomier arr arr
  same-Roomier h = record {
    len_kept = refl;
    growth_kept = refl;
    increment_kept = refl;
    view_kept = refl;
    free = h;
    backed = v.backed;
  }

grow_by-Roomier :
    {A : Type 0} (arr : Darray A) (g : Growth)
    → IsValid arr
    → CanTakeBy g arr.increment arr.len arr.size
    → Roomier arr (grow_by g arr)
grow_by-Roomier arr steady v g = same-Roomier arr v g
grow_by-Roomier arr linear v g =
    with_size-Roomier arr v (arr.size + arr.increment) (omega (arith, v.fits))
grow_by-Roomier arr geometrical v g =
    with_size-Roomier arr v (arr.size * arr.increment)
      (twice_more arr.len arr.size arr.increment v.fits v.sized g)
  where
    twice_more : (l s i : ℕ) → l ≤ s → 1 ≤ s → 2 ≤ i → l < s * i
    twice_more l s i h k g = grind arith

-- After make_room there is a free cell, and the elements are the same.
pub make_room-Roomier :
    {A : Type 0} (arr : Darray A) → IsValid arr → CanTake arr → Roomier arr (make_room arr)
unfolding make_room da_grow
make_room-Roomier arr v c = elim (Bool-cases (leb arr.size (arr.len + 1))) [
  | inl full ↦ rw full (grow_by-Roomier arr arr.growth v c)
  | inr spare ↦ rw spare (same-Roomier arr v (ground arith))
]

-- After the resizing of da_concat and da_prefix there are as many cells as elements to come.
pub record RoomyFor {A : Type 0} (n : ℕ) (old new : Darray A) : Type 0 where
  pub len_kept : new.len ≡ old.len
  pub view_kept : take old.len new.content ≡ take old.len old.content
  pub enough : n ≤ new.size
  pub sized : 1 ≤ new.size
  pub backed : new.size ≤ length new.content

pub room_for-RoomyFor :
    {A : Type 0} (arr : Darray A) (n : ℕ)
    → IsValid arr
    → arr.len ≤ n
    → RoomyFor n arr (room_for arr n)
unfolding room_for
room_for-RoomyFor arr n v h = elim (Bool-cases (ltb arr.size n)) [
  | inl small ↦
      let r = with_size-Roomier arr v (n + 1) (omega arith) in
      rw small (record {
        len_kept = refl;
        view_kept = r.view_kept;
        enough = omega arith;
        sized = omega arith;
        backed = r.backed;
      })
  | inr large ↦ rw large (record {
    len_kept = refl;
    view_kept = refl;
    enough = omega tests;
    sized = v.sized;
    backed = v.backed;
  })
]
