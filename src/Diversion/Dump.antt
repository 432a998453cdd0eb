-- ===== src/Diversion/Dump.antt =====
-- The dump of a diversion is what was written to it, with the values as they are then.
use a2ps.Prelude.{
  ℕ, zero, suc, ◌<◌, ◌≡◌, refl, sym, ◌∙◌, subst, some_inj, false, List, [], ◌∷◌, All, Option, some,
  arith,
}
use a2ps.Prelude.Decimal.{print_nat}
use a2ps.Diversion.{
  Derivation, nothing, delayed_size_t, delayed_string, delayed_routine, delayed_chunk, Output,
  output_new, Memory, underivation, output_dump,
}
use a2ps.Diversion.Pieces.{last, dump_pieces-Pieces}
use a2ps.Diversion.Perform.{
  Call, perform_all, meaning, IsSafe, IsBelow, RefersBelow, Makes, perform_all-Goes,
}

module _ (mem : Memory) where
  -- What a derivation stands for when a diversion with the number `k` makes `chunks k`
  abbrev pub derived : (ℕ → List ℕ) → Derivation → List ℕ
  derived chunks nothing = []
  derived chunks (delayed_size_t a) = print_nat (mem.size_ts a)
  derived chunks (delayed_string a) = mem.strings a
  derived chunks (delayed_routine a) = mem.routines a
  derived chunks (delayed_chunk k) = chunks k

  -- What the diversions that were written by `calls` make, with the ones within them to a depth
  abbrev pub chunks_of : (ℕ → List Call) → ℕ → ℕ → List ℕ
  chunks_of calls zero k = []
  chunks_of calls (suc depth) k = meaning (derived (chunks_of calls depth)) false (calls k)

  underivation-derived :
      (n : ℕ) (dump : ℕ → Option (List ℕ)) (chunks : ℕ → List ℕ) (d : Derivation)
      → ((k : ℕ) → k < n → dump k ≡ some (chunks k))
      → IsBelow n d
      → underivation mem dump d ≡ some (derived chunks d)
  underivation-derived n dump chunks nothing h below = refl
  underivation-derived n dump chunks (delayed_size_t a) h below = refl
  underivation-derived n dump chunks (delayed_string a) h below = refl
  underivation-derived n dump chunks (delayed_routine a) h below = refl
  underivation-derived n dump chunks (delayed_chunk k) h below = h k below

  All-derived :
      (n : ℕ) (dump : ℕ → Option (List ℕ)) (chunks : ℕ → List ℕ) (ds : List Derivation)
      → ((k : ℕ) → k < n → dump k ≡ some (chunks k))
      → All (IsBelow n) ds
      → All (λ d. underivation mem dump d ≡ some (derived chunks d)) ds
  All-derived n dump chunks [] h below = tt
  All-derived n dump chunks (d ∷ ds) h below =
      (underivation-derived n dump chunks d h below.0, All-derived n dump chunks ds h below.1)

  new-Makes : (value : Derivation → List ℕ) (n : ℕ) → Makes value n output_new []
  unfolding output_new
  new-Makes value n = record {
    pieces = last [] tt;
    below = tt;
    roomy = record {
      doubles = refl;
      by_two = refl;
      large = omega arith;
      ends_inside = omega arith;
    };
  }

  module _ (calls : ℕ → List Call) (outputs : ℕ → Output)
      (written : (k : ℕ) → perform_all output_new (calls k) ≡ some (outputs k))
      (safe : (k : ℕ) → All IsSafe (calls k))
      (earlier : (k : ℕ) → All (RefersBelow k) (calls k)) where
    -- A diversion that was written with numbers below `n` is dumped, if those are.
    dump-Makes :
        (n depth : ℕ) (cs : List Call) (out : Output)
        → ((k : ℕ)
            → k < n
            → output_dump outputs mem depth (outputs k) ≡ some (chunks_of calls depth k))
        → perform_all output_new cs ≡ some out
        → All IsSafe cs
        → All (RefersBelow n) cs
        → output_dump outputs mem (suc depth) out
          ≡ some (meaning (derived (chunks_of calls depth)) false cs)
    unfolding output_dump output_new
    dump-Makes n depth cs out h e s below =
        let value = derived (chunks_of calls depth) in
        let (out', done, m) =
          perform_all-Goes value n cs output_new [] (new-Makes value n) s below in
        let same : out' ≡ out = some_inj (sym done ∙ e) in
        let made = subst (λ o. Makes value n o (meaning value false cs)) same m in
        dump_pieces-Pieces (underivation mem (λ k. output_dump outputs mem depth (outputs k)))
          made.pieces
          (All-derived n (λ k. output_dump outputs mem depth (outputs k)) (chunks_of calls depth)
            out.derivations h made.below)

    chunks-dumped :
        (depth k : ℕ)
        → k < depth
        → output_dump outputs mem depth (outputs k) ≡ some (chunks_of calls depth k)
    chunks-dumped zero k h = absurd (omega arith)
    chunks-dumped (suc depth) k h =
        dump-Makes k depth (calls k) (outputs k) (λ i l. chunks-dumped depth i (omega arith))
          (written k) (safe k) (earlier k)

    -- A diversion that is written by any sequence of calls is dumped as what the calls show, in
    -- order, without what was sent to the void: texts and bytes as they were given, delayed values
    -- as they are when it is dumped, and other diversions as they are dumped themselves. No write
    -- exceeds the dynamic string, and the fuel is enough: if no text or byte holds a zero, each
    -- text is shorter than DS_MARGIN, the other diversions were written so too, and each of them,
    -- and the one that is dumped, dumps only diversions with smaller numbers.
    pub output_dump-meaning :
        (n : ℕ) (cs : List Call)
        → All IsSafe cs
        → All (RefersBelow n) cs
        → (out : Output) × (perform_all output_new cs ≡ some out)
          × (output_dump outputs mem (suc n) out
              ≡ some (meaning (derived (chunks_of calls n)) false cs))
    unfolding output_new
    output_dump-meaning n cs s below =
        let value = derived (chunks_of calls n) in
        let (out, done, m) =
          perform_all-Goes value n cs output_new [] (new-Makes value n) s below in
        (out, done, dump-Makes n n cs out (chunks-dumped n) done s below)
