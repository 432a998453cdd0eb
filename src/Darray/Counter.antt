-- ===== src/Darray/Counter.antt =====
-- Counters in arrays: what is in front of one, and an insertion there.
use a2ps.Prelude.{
  ℕ, zero, suc, ◌+◌, ◌≤◌, ◌≡◌, refl, sym, ◌∙◌, ap, subst, true, false, List, [], ◌∷◌, ◌++◌, Option,
  none, some, ltb, le→ltb, lt→ltb, length, length-append, drop, get_or, append_assoc, arith,
  if◌then◌else◌, Bool-cases, inl, inr, leb, some_inj, set, ◌-◌,
}
use Prim.Native.Nat.{Ordering}
use a2ps.Prelude.Outcome.{ok, exit, bad_insert, ok_injective}
use a2ps.Darray.{
  Growth, steady, linear, geometrical, Darray, da_insert_at, make_room, da_grow, grow_by, shift_up,
}
use a2ps.Darray.Scan.{item}
use a2ps.Darray.Merge.{peek}
use a2ps.Darray.Cells.{get_or-take}
use a2ps.Darray.Edits.{insert_at}
use a2ps.Darray.Bounds.{IsValid, CanTake, CanTakeBy, view, make_room-Roomier}
use a2ps.Darray.Contents.{Holds, da_insert_at-Holds}
use a2ps.Darray.Unique.{length-view}

abbrev pub head {ℓ} : {A : Type ℓ} → List A → Option A
head [] = none
head (x ∷ xs) = some x

-- The array grows whenever it is full.
abbrev pub GrowsBy : Growth → ℕ → Type 0
GrowsBy steady increment = ⊥
GrowsBy linear increment = 1 ≤ increment
GrowsBy geometrical increment = 2 ≤ increment

abbrev pub Grows : {A : Type 0} → Darray A → Type 0
Grows arr = GrowsBy arr.growth arr.increment

GrowsBy-CanTakeBy :
    (g : Growth) (increment len size : ℕ) → GrowsBy g increment → CanTakeBy g increment len size
GrowsBy-CanTakeBy steady increment len size h = absurd h
GrowsBy-CanTakeBy linear increment len size h = h
GrowsBy-CanTakeBy geometrical increment len size h = h

-- What is in front of a counter
pub record Side {A : Type 0} (arr : Darray A) (c : ℕ) (rest : List A) : Type 0 where
  pub valid : IsValid arr
  pub unread : drop c (view arr) ≡ rest
  pub within : c + length rest ≡ arr.len

module _ {A : Type 0} where
  drop-get_or :
      (d : A) (xs : List A) (c : ℕ) {y : A} {ys : List A} → drop c xs ≡ y ∷ ys → get_or xs c d ≡ y
  drop-get_or d [] zero h = cc
  drop-get_or d [] (suc c) h = cc
  drop-get_or d (x ∷ xs) zero h = some_inj (ap head h)
  drop-get_or d (x ∷ xs) (suc c) h = drop-get_or d xs c h

  drop-next :
      (xs : List A) (c : ℕ) {y : A} {ys : List A} → drop c xs ≡ y ∷ ys → drop (suc c) xs ≡ ys
  drop-next [] zero h = cc
  drop-next [] (suc c) h = cc
  drop-next (x ∷ xs) zero h = ap (drop 1) h
  drop-next (x ∷ xs) (suc c) h = drop-next xs c h

  drop-pre : (pre post : List A) → drop (length pre) (pre ++ post) ≡ post
  drop-pre [] post = refl
  drop-pre (x ∷ pre) post = drop-pre pre post

  pub item-Side :
      (arr : Darray A) (c : ℕ) (y : A) (ys : List A) → Side arr c (y ∷ ys) → item arr c ≡ y
  item-Side arr c y ys s =
      let inside : ltb c arr.len ≡ true = lt→ltb c arr.len (omega (arith, s.within)) in
      ap (λ t. if t then get_or arr.content c arr.fresh else arr.fresh) (sym inside)
      ∙ sym (get_or-take arr.fresh arr.len arr.content c)
      ∙ drop-get_or arr.fresh (view arr) c s.unread

  pub peek-Side :
      (arr : Darray A) (c : ℕ) (rest : List A) → Side arr c rest → peek arr c ≡ head rest
  peek-Side arr c [] s = rw (le→ltb c arr.len (omega (arith, s.within))) refl
  peek-Side arr c (y ∷ ys) s =
      rw (lt→ltb c arr.len (omega (arith, s.within))) (ap some (item-Side arr c y ys s))

  pub next-Side :
      (arr : Darray A) (c : ℕ) (y : A) (ys : List A) → Side arr c (y ∷ ys) → Side arr (suc c) ys
  next-Side arr c y ys s = record {
    valid = s.valid;
    unread = drop-next (view arr) c s.unread;
    within = omega (arith, s.within);
  }

  -- A counter between what is behind it and what is in front
  pub record Between (cmp : A → A → Ordering) (arr : Darray A) (c : ℕ) (pre post : List A)
      : Type 0 where
    pub holds : Holds arr (pre ++ post)
    pub at : c ≡ length pre
    pub grows : Grows arr
    pub same_cmp : arr.cmp ≡ cmp

  pub Between-Side :
      {cmp : A → A → Ordering} (arr : Darray A) (c : ℕ) (pre post : List A)
      → Between cmp arr c pre post
      → Side arr c post
  Between-Side arr c pre post b = record {
    valid = b.holds.0;
    unread = ap (drop c) b.holds.1 ∙ ap (λ k. drop k (pre ++ post)) b.at ∙ drop-pre pre post;
    within =
        omega (arith, b.at, length-append pre post, length-view arr b.holds.0, ap length b.holds.1);
  }

  pub next-Between :
      {cmp : A → A → Ordering} (arr : Darray A) (c : ℕ) (pre : List A) (x : A) (post : List A)
      → Between cmp arr c pre (x ∷ post)
      → Between cmp arr (suc c) (pre ++ x ∷ []) post
  next-Between arr c pre x post b = record {
    holds = (b.holds.0, b.holds.1 ∙ sym (append_assoc pre (x ∷ []) post));
    at = omega (arith, b.at, length-append pre (x ∷ []));
    grows = b.grows;
    same_cmp = b.same_cmp;
  }

  -- What an insertion keeps besides the elements
  record Alike (old new : Darray A) : Type 0 where
    same_growth : new.growth ≡ old.growth
    same_increment : new.increment ≡ old.increment
    cmp_kept : new.cmp ≡ old.cmp
    one_more : new.len ≡ old.len + 1

  grow_by-cmp : (g : Growth) (arr : Darray A) → (grow_by g arr).cmp ≡ arr.cmp
  grow_by-cmp steady arr = refl
  grow_by-cmp linear arr = refl
  grow_by-cmp geometrical arr = refl

  make_room-cmp : (arr : Darray A) → (make_room arr).cmp ≡ arr.cmp
  unfolding make_room da_grow
  make_room-cmp arr = elim (Bool-cases (leb arr.size (arr.len + 1))) [
    | inl e ↦ rw e (grow_by-cmp arr.growth arr)
    | inr e ↦ rw e
  ]

  insert_at-pre :
      (pre post : List A) (x : A) → insert_at (pre ++ post) (length pre) x ≡ pre ++ x ∷ post
  insert_at-pre [] post x = refl
  insert_at-pre (y ∷ pre) post x = ap (◌∷◌ y) (insert_at-pre pre post x)

  insert-Alike :
      (arr new : Darray A) (x : A) (w : ℕ)
      → IsValid arr
      → CanTake arr
      → w ≤ arr.len
      → da_insert_at arr x w ≡ ok new
      → Alike arr new
  unfolding da_insert_at
  insert-Alike arr new x w v c h e =
      let r = make_room-Roomier arr v c in
      let room = make_room arr in
      let inside : ltb arr.len w ≡ false = le→ltb arr.len w h in
      let same = ok_injective (
        ap
          (λ t.
            if t
            then exit bad_insert
            else ok (record room {
              content = set (shift_up arr.fresh w (room.len - w) room.content) w x;
              len = room.len + 1;
            }))
          (sym inside)
        ∙ e) in
      subst (Alike arr) same (record {
        same_growth = r.growth_kept;
        same_increment = r.increment_kept;
        cmp_kept = make_room-cmp arr;
        one_more = omega (arith, r.len_kept);
      })

  -- An insertion at the counter
  pub insert-Between :
      {cmp : A → A → Ordering} (arr : Darray A) (c : ℕ) (pre post : List A) (x : A)
      → Between cmp arr c pre post
      → (new : Darray A) × (da_insert_at arr x c ≡ ok new)
        × Between cmp new c pre (x ∷ post)
        × (new.len ≡ arr.len + 1)
  insert-Between arr c pre post x b =
      let s = Between-Side arr c pre post b in
      let can = GrowsBy-CanTakeBy arr.growth arr.increment arr.len arr.size b.grows in
      elim (da_insert_at-Holds arr b.holds.0 x c can) [
        | inr (behind, e) ↦ absurd (omega (arith, s.within))
        | inl (inside, (new, done, h)) ↦
            let alike = insert-Alike arr new x c b.holds.0 can inside done in
            (
              new,
              done,
              record {
                holds = (
                  h.0,
                  h.1
                      ∙ ap (λ xs. insert_at xs c x) b.holds.1
                      ∙ ap (λ k. insert_at (pre ++ post) k x) b.at
                      ∙ insert_at-pre pre post x,
                );
                at = b.at;
                grows =
                    subst (λ g. GrowsBy g new.increment) (sym alike.same_growth)
                      (subst (GrowsBy arr.growth) (sym alike.same_increment) b.grows);
                same_cmp = alike.cmp_kept ∙ b.same_cmp;
              },
              alike.one_more,
            )
      ]
