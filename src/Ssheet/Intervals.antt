-- ===== src/Ssheet/Intervals.antt =====
-- The intervals of struct words: a search in that of a byte misses no rule that begins with it.
use a2ps.Prelude.{
  ℕ, suc, ◌+◌, ◌-◌, ◌≤◌, ◌<◌, ◌≡◌, refl, sym, ◌∙◌, subst, Bool, true, false, Bool-cases, inl, inr,
  ◌⊎◌, List, [], ◌∷◌, Option, none, some, some_inj, leb, leb→le, leb→gt, arith,
}
use a2ps.Ssheet.{
  Rule, Regexp, Words, words_new, index_strings, first_byte, note_rule, index_from, last_between,
  search_between, find_string,
}
use a2ps.Ssheet.Search.{At, Search, nothing, last_between-Search}
use a2ps.Ssheet.Tables.{Covers, index_from-Covers, max-bound}

index_from-strings : (i : ℕ) (rs : List Rule) (w : Words) → (index_from i rs w).strings ≡ w.strings
unfolding index_from
index_from-strings i [] w = refl
index_from-strings i (r ∷ rs) w = index_from-strings (suc i) rs (note_rule i r w)

index_from-regexps : (i : ℕ) (rs : List Rule) (w : Words) → (index_from i rs w).regexps ≡ w.regexps
unfolding index_from
index_from-regexps i [] w = refl
index_from-regexps i (r ∷ rs) w = index_from-regexps (suc i) rs (note_rule i r w)

-- Strings and regexps that words_finalize has indexed
abbrev pub indexed : List Rule → List Regexp → Words
indexed rs regexps = index_strings (record words_new { strings = rs; regexps = regexps })

pub indexed-regexps :
    (rs : List Rule) (regexps : List Regexp) → (indexed rs regexps).regexps ≡ regexps
unfolding index_strings
indexed-regexps rs regexps =
    index_from-regexps 0 rs (record words_new { strings = rs; regexps = regexps })

module _ (p : Rule → Bool) (rs : List Rule) (regexps : List Regexp) (c : ℕ) where
  abbrev Begins : Type 0
  Begins = (k : ℕ) (r : Rule) → At rs k r → p r ≡ true → first_byte r ≡ c

  -- A rule that passes begins with the byte, and is in its interval.
  passing-Covers :
      (k : ℕ) (r : Rule) → Begins → At rs k r → p r ≡ true → Covers (indexed rs regexps) c k
  unfolding index_strings words_new
  passing-Covers k r begins at_k e =
      let none_before : 0 + k ≡ k = omega arith in
      subst (λ d. Covers (indexed rs regexps) d k) (begins k r at_k e)
        (subst (Covers (indexed rs regexps) (first_byte r)) none_before (
          index_from-Covers 0 k r rs (record words_new { strings = rs; regexps = regexps }) at_k
            (λ x h. cc)))

  -- A rule that is not covered fails.
  uncovered :
      (k : ℕ) (r : Rule) → Begins → At rs k r → ¬ (Covers (indexed rs regexps) c k) → p r ≡ false
  uncovered k r begins at_k not_covered = elim (Bool-cases (p r)) [
    | inl e ↦ absurd (not_covered (passing-Covers k r begins at_k e))
    | inr e ↦ e
  ]

  interval-Search :
      (lo hi : Option ℕ)
      → Begins
      → (indexed rs regexps).min c ≡ lo
      → (indexed rs regexps).max c ≡ hi
      → Search p rs (search_between p rs lo hi)
  unfolding index_strings words_new last_between
  interval-Search none hi begins at_min at_max =
      nothing (λ k r at_k. uncovered k r begins at_k (λ h. differ (sym at_min ∙ h.at_min)))
    where
      differ : {x : ℕ} → none ≡ some x → ⊥
      differ e = cc
  interval-Search (some lo) none begins at_min at_max =
      nothing (λ k r at_k. uncovered k r begins at_k (λ h. differ (sym at_max ∙ h.at_max)))
    where
      differ : {x : ℕ} → none ≡ some x → ⊥
      differ e = cc
  interval-Search (some lo) (some hi) begins at_min at_max =
      let bound =
        max-bound c 0 hi rs (record words_new { strings = rs; regexps = regexps }) (λ y h. cc)
          at_max in
      elim (Bool-cases (leb lo (suc hi))) [
        | inl e ↦
            last_between-Search p rs lo (suc hi - lo) (omega (arith, leb→le lo (suc hi) e))
              (λ k r at_k side.
                uncovered k r begins at_k (λ h. out_of_it k side h (leb→le lo (suc hi) e)))
        | inr e ↦
            let none_left : suc hi - lo ≡ 0 = omega (arith, leb→gt lo (suc hi) e) in
            subst (λ n. Search p rs (last_between p rs lo n)) (sym none_left)
              (nothing
                (λ k r at_k. uncovered k r begins at_k (λ h. crossed k h (leb→gt lo (suc hi) e))))
      ]
    where
      same_lo : {k : ℕ} (h : Covers (indexed rs regexps) c k) → h.lo ≡ lo
      same_lo h = some_inj (sym h.at_min ∙ at_min)

      same_hi : {k : ℕ} (h : Covers (indexed rs regexps) c k) → h.hi ≡ hi
      same_hi h = some_inj (sym h.at_max ∙ at_max)

      out_of_it :
          (k : ℕ)
          → (k < lo) ⊎ (lo + (suc hi - lo) ≤ k)
          → Covers (indexed rs regexps) c k
          → lo ≤ suc hi
          → ⊥
      out_of_it k side h l = omega (arith, same_lo h, same_hi h, h.from, h.to)

      crossed : (k : ℕ) → Covers (indexed rs regexps) c k → suc hi < lo → ⊥
      crossed k h l = omega (arith, same_lo h, same_hi h, h.from, h.to)

  -- The search in the interval finds the last of all rules that pass, or tells that none does.
  pub find_string-Search : Begins → Search p rs (find_string p (indexed rs regexps) c)
  unfolding find_string index_strings words_new
  find_string-Search begins =
      let kept = index_from-strings 0 rs (record words_new { strings = rs; regexps = regexps }) in
      subst
        (λ strings.
          Search p rs
            (search_between p strings ((indexed rs regexps).min c) ((indexed rs regexps).max c)))
        (sym kept)
        (interval-Search ((indexed rs regexps).min c) ((indexed rs regexps).max c) begins refl refl)
