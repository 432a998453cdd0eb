-- ===== src/Hashtab/Copy.antt =====
-- The loop of hash_rehash: the slots of the old table are put into the new one.
use a2ps.Prelude.{
  ℕ, zero, suc, ◌+◌, ◌<◌, ◌≡◌, refl, sym, ◌∙◌, ap, subst, ◌⊎◌, inl, inr, arith, Bool, Bool-cases,
  true, false, List, [], ◌∷◌, Option, none, some, get_or, set, replicate, All, if◌then◌else◌,
}
use a2ps.Hashtab.{
  ◌>>=◌, Slot, empty, deleted, item, Keys, HashTable, matches, is_vacant, put, copy_slots,
}
use a2ps.Hashtab.Trace.{Stops, StopsEmpty, StopsFound}
use a2ps.Hashtab.Lookup.{Lawful, lookup, lookup-none}
use a2ps.Hashtab.Find.{InOrder, found_slot, matches-equal}
use a2ps.Hashtab.Insert.{changed, InOrder-insert, lookup-insert}
use a2ps.Hashtab.Room.{used, used-set, spare_slot, InOrder-mark, lookup-mark}

abbrev pub first_some {ℓ} : {A : Type ℓ} → Option A → Option A → Option A
first_some none o = o
first_some (some a) o = some a

pub first_some-none {ℓ} : {A : Type ℓ} (o : Option A) → first_some o none ≡ o
first_some-none none = refl
first_some-none (some a) = refl

-- The deletion mark is not equal to what is in the slot.
abbrev pub IsOther {ℓ} : {A : Type ℓ} → Keys A → Slot A → Type 0
IsOther keys (item a) = matches keys keys.mark a ≡ false
IsOther keys _ = Unit

other_at {ℓ} :
    {A : Type ℓ} (keys : Keys A) (vec : List (Slot A)) (i : ℕ) (a : A)
    → All (IsOther keys) vec
    → get_or vec i empty ≡ item a
    → matches keys keys.mark a ≡ false
other_at keys [] i a h g = cc
other_at keys (s ∷ vec) zero a h g = subst (IsOther keys) g h.0
other_at keys (s ∷ vec) (suc i) a h g = other_at keys vec i a h.1 g

pub All-set {ℓ} :
    {A : Type ℓ} (P : A → Type 0) (xs : List A) (i : ℕ) (v : A)
    → All P xs
    → P v
    → All P (set xs i v)
All-set P [] i v h p = tt
All-set P (x ∷ xs) zero v h p = (p, h.1)
All-set P (x ∷ xs) (suc i) v h p = (h.0, All-set P xs i v h.1 p)

pub All-replicate {ℓ} : {A : Type ℓ} (P : A → Type 0) (n : ℕ) (a : A) → P a → All P (replicate n a)
All-replicate P zero a p = tt
All-replicate P (suc n) a p = (p, All-replicate P n a p)

module _ {ℓ} {A : Type ℓ} (keys : Keys A) (lawful : Lawful keys) where
  -- No two items are equal.
  abbrev Single : List (Slot A) → Type ℓ
  Single old =
      (i j : ℕ) (a b : A)
      → get_or old i empty ≡ item a
      → get_or old j empty ≡ item b
      → keys.is_equal a b ≡ true
      → i ≡ j

  pub Single-tail : (s : Slot A) (old : List (Slot A)) → Single (s ∷ old) → Single old
  Single-tail s old h i j a b g g' e = let same = h (suc i) (suc j) a b g g' e in omega arith

  lookup-first :
      (q a : A) (old : List (Slot A))
      → matches keys q a ≡ true
      → lookup keys q (item a ∷ old) ≡ some a
  unfolding lookup
  lookup-first q a old m = rw (m, lookup)

  lookup-skip :
      (q a : A) (old : List (Slot A))
      → matches keys q a ≡ false
      → lookup keys q (item a ∷ old) ≡ lookup keys q old
  unfolding lookup
  lookup-skip q a old m = rw (m, lookup)

  -- The keys of the first item match no later one.
  lookup-tail :
      (q a : A) (old : List (Slot A))
      → Single (item a ∷ old)
      → matches keys q a ≡ true
      → lookup keys q old ≡ none
  lookup-tail q a old h m = lookup-none keys q old (λ j b g. elim (Bool-cases (matches keys q b)) [
    | inr differs ↦ differs
    | inl mb ↦
        let to_equal = matches-equal keys lawful in
        let same =
          lawful.equal_trans a q b (lawful.equal_symm q a (to_equal q a m)) (to_equal q b mb) in
        let clash : zero ≡ suc j = h zero (suc j) a b refl g same in absurd (omega arith)
  ])

  -- The mark is put into a vacant slot.
  mark_vacant :
      (vec : List (Slot A)) (size i : ℕ)
      → All (IsOther keys) vec
      → Stops keys vec size keys.mark i
      → is_vacant (get_or vec i empty) ≡ true
  mark_vacant vec size i others st = by_stop st.stops
    where
      by_stop :
          StopsEmpty keys vec size keys.mark i st.stop
            ⊎ StopsFound keys vec size keys.mark i st.stop
          → is_vacant (get_or vec i empty) ≡ true
      by_stop (inl s) = ap (λ n. is_vacant (get_or vec n empty)) s.taken ∙ s.vacant
      by_stop (inr s) =
          let no_match = other_at keys vec _ s.found others s.holds in
          let is_match = s.matching in cc

  module _ (q : A) (k : ℕ) where
    -- What copying the slots `old` into `ht` leaves
    pub record Copies (old : List (Slot A)) (ht : HashTable A) : Type ℓ where
      pub copied : HashTable A
      pub ends : copy_slots keys old ht ≡ some copied
      pub in_order : InOrder keys k copied
      pub finds :
          lookup keys q copied.ht_vec ≡ first_some (lookup keys q old) (lookup keys q ht.ht_vec)

    inserts :
        (a : A) (old vec vec' : List (Slot A)) (o : Option A)
        → Single (item a ∷ old)
        → lookup keys q vec' ≡ (if matches keys q a then some a else lookup keys q vec)
        → o ≡ first_some (lookup keys q old) (lookup keys q vec')
        → o ≡ first_some (lookup keys q (item a ∷ old)) (lookup keys q vec)
    inserts a old vec vec' o single now e =
        let chosen = λ (b : Bool). if b then some a else lookup keys q vec in
        let before = λ (x : Option A). first_some x (lookup keys q vec) in
        elim (Bool-cases (matches keys q a)) [
          | inl m ↦
              e
              ∙ ap (λ x. first_some x (lookup keys q vec')) (lookup-tail q a old single m)
              ∙ now
              ∙ ap chosen m
              ∙ sym (ap before (lookup-first q a old m))
          | inr m ↦
              e
              ∙ ap (first_some (lookup keys q old)) (now ∙ ap chosen m)
              ∙ sym (ap before (lookup-skip q a old m))
        ]

    pub copy_slots-Copies :
        (old : List (Slot A)) (ht : HashTable A)
        → InOrder keys k ht
        → Single old
        → All (IsOther keys) old
        → All (IsOther keys) ht.ht_vec
        → used old + used ht.ht_vec < ht.ht_size
        → Copies old ht
    unfolding copy_slots lookup used
    copy_slots-Copies [] ht order single others held room = record {
      copied = ht;
      ends = refl;
      in_order = order;
      finds = refl;
    }
    copy_slots-Copies (empty ∷ old) ht order single others held room =
        let rest =
          copy_slots-Copies old ht order (Single-tail empty old single) others.1 held room in
        record {
          copied = rest.copied;
          ends = rest.ends;
          in_order = rest.in_order;
          finds = rest.finds;
        }
    copy_slots-Copies (deleted ∷ old) ht order single others held room =
        let (i, n, found, within, st) = found_slot keys lawful k ht order keys.mark in
        let vacant = mark_vacant ht.ht_vec ht.ht_size i held st in
        let (spare, l, other, e) = spare_slot keys lawful k ht order (omega arith) in
        let ht1 = changed i deleted ht.ht_fill (ht.ht_lookups + 1) n ht in
        let order1 =
          InOrder-mark keys lawful k ht order i within vacant ht.ht_fill (ht.ht_lookups + 1) n spare
            l other e in
        let rest =
          copy_slots-Copies old ht1 order1 (Single-tail deleted old single) others.1
            (All-set (IsOther keys) ht.ht_vec i deleted held tt)
            (omega (arith, used-set ht.ht_vec i deleted)) in
        record {
          copied = rest.copied;
          ends =
              ap
                (λ r. r >>= λ (p : ℕ × HashTable A). copy_slots keys old (put keys p.0 deleted p.1))
                found
              ∙ rest.ends;
          in_order = rest.in_order;
          finds =
              rest.finds
              ∙ ap (first_some (lookup keys q old))
                  (lookup-mark keys lawful k ht order i within vacant q);
        }
    copy_slots-Copies (item a ∷ old) ht order single others held room =
        let (i, n, found, within, st) = found_slot keys lawful k ht order a in
        let (spare, l, other, e) = spare_slot keys lawful k ht order (omega arith) in
        let ht1 = changed i (item a) ht.ht_fill (ht.ht_lookups + 1) n ht in
        let order1 =
          InOrder-insert keys lawful k ht order a i within st ht.ht_fill (ht.ht_lookups + 1) n spare
            l other e in
        let now =
          lookup-insert keys lawful k ht order a i within st ht.ht_fill (ht.ht_lookups + 1) n order1
            q in
        let rest =
          copy_slots-Copies old ht1 order1 (Single-tail (item a) old single) others.1
            (All-set (IsOther keys) ht.ht_vec i (item a) held others.0)
            (omega (arith, used-set ht.ht_vec i (item a))) in
        record {
          copied = rest.copied;
          ends =
              ap
                (λ r.
                  r >>= λ (p : ℕ × HashTable A). copy_slots keys old (put keys p.0 (item a) p.1))
                found
              ∙ rest.ends;
          in_order = rest.in_order;
          finds = inserts a old ht.ht_vec ht1.ht_vec _ single now rest.finds;
        }
