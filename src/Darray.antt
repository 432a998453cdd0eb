-- ===== src/Darray.antt =====
-- liba2ps/darray.c and darray.h: dynamic arrays of pointers.
--
-- `content` has a list element for each allocated cell, written or not; `fresh` stands for what
-- a cell holds that was allocated and never written. A write outside the allocation, which C
-- leaves undefined, changes nothing here; `IsValid` (Darray/Bounds) says that there is none.
-- A comparison function is taken by the sign of its result. The name of the array and its
-- printing function serve messages only and are left out.
pub mod Cells
pub mod Bounds
pub mod Edits
pub mod Contents
pub mod Create
pub mod Scan
pub mod Search
pub mod Unique
pub mod Merge
pub mod Counter
pub mod Merging
pub mod Rounds
pub mod Doubles
pub mod Merged
pub mod Tests
use Prim.Native.Nat.{Ordering}
use a2ps.Prelude.{
  ℕ, zero, suc, ◌+◌, ◌-◌, ◌*◌, Bool, true, false, not, ◌&&◌, List, [], ◌∷◌, ◌++◌, Option, none,
  some, ltb, leb, ◌==◌, if◌then◌else◌, length, get_or, set, take, replicate,
}
use a2ps.Prelude.Outcome.{
  Outcome, ok, exit, invalid_size, invalid_increment, bad_insert, bad_remove,
}

pub data Growth : Type 0 where
  steady linear geometrical : Growth

pub record Darray (A : Type 0) : Type 0 where
  pub size : ℕ
  pub original_size : ℕ
  pub growth : Growth
  pub increment : ℕ
  pub len : ℕ
  pub content : List A
  pub cmp : A → A → Ordering
  pub fresh : A

abbrev pub is_steady : Growth → Bool
is_steady steady = true
is_steady linear = false
is_steady geometrical = false

abbrev pub is_eq : Ordering → Bool
is_eq Ordering.eq = true
is_eq Ordering.lt = false
is_eq Ordering.gt = false

abbrev pub is_lt : Ordering → Bool
is_lt Ordering.lt = true
is_lt Ordering.eq = false
is_lt Ordering.gt = false

module _ {A : Type 0} where
  unfoldable pub da_new : ℕ → Growth → ℕ → (A → A → Ordering) → A → Outcome (Darray A)
  da_new size growth increment cmp fresh =
      if size == 0
      then exit invalid_size
      else if increment == 0 && not (is_steady growth)
      then exit invalid_increment
      else ok (record {
        size = size;
        original_size = size;
        growth = growth;
        increment = increment;
        len = 0;
        content = replicate size fresh;
        cmp = cmp;
        fresh = fresh;
      })

  -- `xnrealloc (content, size, ..)`
  abbrev pub realloc : A → List A → ℕ → List A
  realloc fresh content size = take size content ++ replicate (size - length content) fresh

  unfoldable pub da_resize : Darray A → ℕ → Darray A
  da_resize arr size =
      if ltb (arr.len + 1) size
      then record arr { size = size; content = realloc arr.fresh arr.content size }
      else arr

  abbrev pub with_size : Darray A → ℕ → Darray A
  with_size arr size = record arr { size = size; content = realloc arr.fresh arr.content size }

  abbrev pub grow_by : Growth → Darray A → Darray A
  grow_by steady arr = arr
  grow_by linear arr = with_size arr (arr.size + arr.increment)
  grow_by geometrical arr = with_size arr (arr.size * arr.increment)

  unfoldable pub da_grow : Darray A → Darray A
  da_grow arr = grow_by arr.growth arr

  -- The copy has room for the elements in use, and the size of the original.
  unfoldable pub da_clone : Darray A → Darray A
  da_clone arr = record arr { content = take arr.len arr.content }

  abbrev pub da_is_full : Darray A → Bool
  da_is_full arr = leb arr.size (arr.len + 1)

  -- What da_append and da_insert_at do first
  unfoldable pub make_room : Darray A → Darray A
  make_room arr = if da_is_full arr then da_grow arr else arr

  unfoldable pub da_append : Darray A → A → Darray A
  da_append arr elem =
      let arr' = make_room arr in
      record arr' { content = set arr'.content arr'.len elem; len = arr'.len + 1 }

  -- `for (i = where + r; where < i; i--) content [i] = content [i - 1]`
  unfoldable pub shift_up : A → ℕ → ℕ → List A → List A
  shift_up fresh where' zero content = content
  shift_up fresh where' (suc r) content =
      shift_up fresh where' r (set content (where' + suc r) (get_or content (where' + r) fresh))

  unfoldable pub da_insert_at : Darray A → A → ℕ → Outcome (Darray A)
  da_insert_at arr elem where' =
      let arr' = make_room arr in
      let moved = shift_up arr.fresh where' (arr'.len - where') arr'.content in
      if ltb arr.len where'
      then exit bad_insert
      else ok (record arr' { content = set moved where' elem; len = arr'.len + 1 })

  -- `for (i = where + 1; i < where + 1 + r; i++) content [i - 1] = content [i]`
  unfoldable pub shift_down : A → ℕ → ℕ → List A → List A
  shift_down fresh where' zero content = content
  shift_down fresh where' (suc r) content =
      shift_down fresh (suc where') r (set content where' (get_or content (suc where') fresh))

  abbrev pub removed : Darray A → ℕ → Darray A
  removed arr where' = record arr {
    content = shift_down arr.fresh where' (arr.len - (where' + 1)) arr.content;
    len = arr.len - 1;
  }

  unfoldable pub da_remove_at : Darray A → ℕ → Outcome (Darray A)
  da_remove_at arr where' = if leb arr.len where' then exit bad_remove else ok (removed arr where')

  -- `for (i = 0; i < r; i++) content [at + i] = from [i]`, from `i` on
  unfoldable pub copy : A → ℕ → ℕ → ℕ → List A → List A → List A
  copy fresh at i zero from content = content
  copy fresh at i (suc r) from content =
      copy fresh at (suc i) r from (set content (at + i) (get_or from i fresh))

  -- The resizing of da_concat and da_prefix
  unfoldable pub room_for : Darray A → ℕ → Darray A
  room_for arr len = if ltb arr.size len then with_size arr (len + 1) else arr

  -- The second array is another one than the first.
  unfoldable pub da_concat : Darray A → Darray A → Darray A
  da_concat arr arr2 =
      let arr' = room_for arr (arr.len + arr2.len) in
      record arr' {
        content = copy arr.fresh arr'.len 0 arr2.len arr2.content arr'.content;
        len = arr'.len + arr2.len;
      }

  -- `for (i = r; i-- > 0;) content [i + by] = content [i]`
  unfoldable pub move_up : A → ℕ → ℕ → List A → List A
  move_up fresh by zero content = content
  move_up fresh by (suc r) content =
      move_up fresh by r (set content (r + by) (get_or content r fresh))

  unfoldable pub da_prefix : Darray A → Darray A → Darray A
  da_prefix arr arr2 =
      let arr' = room_for arr (arr.len + arr2.len) in
      let moved = move_up arr.fresh arr2.len arr'.len arr'.content in
      record arr' {
        content = copy arr.fresh 0 0 arr2.len arr2.content moved;
        len = arr'.len + arr2.len;
      }
