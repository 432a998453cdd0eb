-- ===== src/Diversion/Perform.antt =====
-- Sequences of calls that write to a diversion, and what it holds behind them.
use a2ps.Prelude.{
  ℕ, ◌<◌, ◌≡◌, ◌≢◌, refl, sym, ◌∙◌, ap, subst, Bool, true, false, Bool-cases, ◌⊎◌, inl, inr, List,
  [], ◌∷◌, ◌++◌, append_assoc, append-nil, All, All-append, Option, none, some, length,
  if◌then◌else◌,
}
use a2ps.Diversion.{
  Dstring, Derivation, delayed_chunk, Output, output_formatted, output_char, output_delayed,
  output_to_void, with_chunk, with_derivation, ds_strccat, ds_margin,
}
use a2ps.Diversion.Pieces.{NoZero, Pieces, text-Pieces, derivation-Pieces}
use a2ps.Diversion.Room.{Roomy, Stores, ds_unsafe_cat_vsprintf-Stores, ds_strccat-Stores}

-- The calls: output with an expanded format, output_char, one of the output_delayed routines, and
-- output_to_void
pub data Call : Type 0 where
  text : List ℕ → Call
  char : ℕ → Call
  delayed : Derivation → Call
  to_void : Bool → Call

abbrev pub perform : Output → Call → Option Output
perform out (text t) = output_formatted out t
perform out (char c) = output_char out c
perform out (delayed d) = output_delayed out d
perform out (to_void forget) = some (output_to_void out forget)

abbrev pub and_then : Option Output → (Output → Option Output) → Option Output
and_then none f = none
and_then (some out) f = f out

unfoldable pub perform_all : Output → List Call → Option Output
perform_all out [] = some out
perform_all out (c ∷ cs) = and_then (perform out c) (λ o. perform_all o cs)

-- What a call shows of its own
abbrev pub shown : (Derivation → List ℕ) → Call → List ℕ
shown value (text t) = t
shown value (char c) = c ∷ []
shown value (delayed d) = value d
shown value (to_void forget) = []

abbrev pub forgets : Bool → Call → Bool
forgets forget (to_void flag) = flag
forgets forget _ = forget

-- What the calls show in order, with what is sent to the void left out
abbrev pub meaning : (Derivation → List ℕ) → Bool → List Call → List ℕ
meaning value forget [] = []
meaning value forget (c ∷ cs) =
    (if forget then [] else shown value c) ++ meaning value (forgets forget c) cs

-- No text holds a zero byte, and none is so long that one growth may not be enough.
abbrev pub IsSafe : Call → Type 0
IsSafe (text t) = NoZero t × (length t < ds_margin)
IsSafe (char c) = c ≢ 0
IsSafe _ = Unit

-- Only diversions with smaller numbers are dumped within.
abbrev pub IsBelow : ℕ → Derivation → Type 0
IsBelow n (delayed_chunk k) = k < n
IsBelow n _ = Unit

abbrev pub RefersBelow : ℕ → Call → Type 0
RefersBelow n (delayed d) = IsBelow n d
RefersBelow n _ = Unit

-- A diversion that makes `made` when it is dumped
pub record Makes (value : Derivation → List ℕ) (n : ℕ) (out : Output) (made : List ℕ) : Type 0 where
  pub pieces : Pieces value out.chunk.content out.derivations made
  pub below : All (IsBelow n) out.derivations
  pub roomy : Roomy out.chunk

module _ (value : Derivation → List ℕ) (n : ℕ) where
  -- The result of a call
  abbrev pub Goes : Bool → List ℕ → Option Output → Type 0
  Goes forget made result =
      (out : Output) × (result ≡ some out) × Makes value n out made × (out.to_void ≡ forget)

  -- The content was stored, and the pieces go with it.
  with_chunk-Goes :
      (out : Output) (content made : List ℕ) {r : Option Dstring}
      → Makes value n out made
      → Stores content r
      → (made' : List ℕ) → Pieces value content out.derivations made'
      → Goes out.to_void made' (with_chunk out r)
  with_chunk-Goes out content made m (s, e, roomy, kept) made' p = (
    record out { chunk = s },
    ap (with_chunk out) e,
    record {
      pieces = subst (λ c. Pieces value c out.derivations made') (sym kept) p;
      below = m.below;
      roomy = roomy;
    },
    refl,
  )

  -- Nothing happens in a diversion that forgets.
  unless_forgetting :
      (out : Output) (made t : List ℕ) (r : Option Output)
      → Makes value n out made
      → (out.to_void ≡ false → Goes out.to_void (made ++ t) r)
      → Goes out.to_void
          (made ++ (if out.to_void then [] else t))
          (if out.to_void then some out else r)
  unless_forgetting out made t r m goes = elim (Bool-cases out.to_void) [
    | inl e ↦
        subst (λ f. Goes out.to_void (made ++ (if f then [] else t)) (if f then some out else r))
          (sym e) ((out, refl, subst (Makes value n out) (sym (append-nil made)) m, refl))
    | inr e ↦
        subst (λ f. Goes out.to_void (made ++ (if f then [] else t)) (if f then some out else r))
          (sym e) (goes e)
  ]

  derivation-Goes :
      (out : Output) (made : List ℕ) (d : Derivation)
      → Makes value n out made
      → IsBelow n d
      → out.to_void ≡ false
      → Goes out.to_void (made ++ value d) (with_derivation d (output_char out 0))
  unfolding output_char
  derivation-Goes out made d m below e =
      let (s, stored, roomy, kept) = ds_strccat-Stores out.chunk 0 m.roomy in
      let written : with_derivation d
            (if out.to_void then some out else with_chunk out (ds_strccat out.chunk 0))
          ≡ some (record out { chunk = s; derivations = out.derivations ++ d ∷ [] }) =
        ap
          (λ t. with_derivation d (if t then some out else with_chunk out (ds_strccat out.chunk 0)))
          e
        ∙ ap (λ r. with_derivation d (with_chunk out r)) stored in
      (
        record out { chunk = s; derivations = out.derivations ++ d ∷ [] },
        written,
        record {
          pieces =
              subst (λ c. Pieces value c (out.derivations ++ d ∷ []) (made ++ value d)) (sym kept)
                (derivation-Pieces d m.pieces);
          below = All-append (IsBelow n) out.derivations (d ∷ []) m.below (below, tt);
          roomy = roomy;
        },
        refl,
      )

  perform-Goes :
      (out : Output) (made : List ℕ) (c : Call)
      → Makes value n out made
      → IsSafe c
      → RefersBelow n c
      → Goes
          (forgets out.to_void c)
          (made ++ (if out.to_void then [] else shown value c))
          (perform out c)
  unfolding output_formatted output_char output_delayed
  perform-Goes out made (to_void flag) m safe below =
      let same : made ++ (if out.to_void then [] else []) ≡ made =
        same_made (Bool-cases out.to_void) in
      (
        record out { to_void = flag },
        refl,
        record {
          pieces = subst (Pieces value out.chunk.content out.derivations) (sym same) m.pieces;
          below = m.below;
          roomy = m.roomy;
        },
        refl,
      )
    where
      same_made :
          (out.to_void ≡ true) ⊎ (out.to_void ≡ false)
          → made ++ (if out.to_void then [] else []) ≡ made
      same_made (inl e) = rw e (append-nil made)
      same_made (inr e) = rw e (append-nil made)
  perform-Goes out made (text t) m safe below = unless_forgetting out made t _ m λ _.
      with_chunk-Goes out (out.chunk.content ++ t) made m
        (ds_unsafe_cat_vsprintf-Stores out.chunk t m.roomy safe.1) (made ++ t)
        (text-Pieces t safe.0 m.pieces)
  perform-Goes out made (char c) m safe below = unless_forgetting out made (c ∷ []) _ m λ _.
      with_chunk-Goes out (out.chunk.content ++ c ∷ []) made m
        (ds_strccat-Stores out.chunk c m.roomy) (made ++ c ∷ [])
        (text-Pieces (c ∷ []) (safe, tt) m.pieces)
  perform-Goes out made (delayed d) m safe below =
      unless_forgetting out made (value d) _ m λ e. derivation-Goes out made d m below e

  -- A sequence of calls adds its meaning.
  pub perform_all-Goes :
      (cs : List Call) (out : Output) (made : List ℕ)
      → Makes value n out made
      → All IsSafe cs
      → All (RefersBelow n) cs
      → (out' : Output) × (perform_all out cs ≡ some out')
        × Makes value n out' (made ++ meaning value out.to_void cs)
  unfolding perform_all
  perform_all-Goes [] out made m safe below =
      (out, refl, subst (Makes value n out) (sym (append-nil made)) m)
  perform_all-Goes (c ∷ cs) out made m safe below =
      let shown_now = if out.to_void then [] else shown value c in
      let (out1, done, m1, flag) = perform-Goes out made c m safe.0 below.0 in
      let (out2, rest, m2) = perform_all-Goes cs out1 (made ++ shown_now) m1 safe.1 below.1 in
      (
        out2,
        ap (λ o. and_then o (λ o. perform_all o cs)) done ∙ rest,
        subst (Makes value n out2)
            (append_assoc made shown_now (meaning value out1.to_void cs)
              ∙ ap (λ f. made ++ (shown_now ++ meaning value f cs)) flag)
            m2,
      )
