-- ===== src/Diversion/Tests.antt =====
-- A diversion with values that are filled in later, dumped.
use a2ps.Prelude.{ℕ, zero, suc, ◌≡◌, refl, true, false, List, [], ◌∷◌, All, some, arith}
use a2ps.Prelude.Decimal.{print_nat, print_digits}
use a2ps.Diversion.{
  Output, output_new, output_formatted, Memory, delayed_size_t, delayed_chunk, output_dump,
  ds_unsafe_cat_vsprintf, ds_geometrical, min_content,
}
use a2ps.Diversion.Perform.{
  Call, text, char, delayed, to_void, perform_all, meaning, IsSafe, RefersBelow,
}
use a2ps.Diversion.Dump.{derived, chunks_of, output_dump-meaning}

-- The setup, which is number 0, holds `ab`.
abbrev calls : ℕ → List Call
calls zero = text (b'a' ∷ b'b' ∷ []) ∷ []
calls (suc k) = []

abbrev outputs : ℕ → Output
outputs zero = record {
  chunk = record {
    size = min_content;
    growth = ds_geometrical;
    increment = 2;
    content = b'a' ∷ b'b' ∷ [];
  };
  derivations = [];
  to_void = false;
}
outputs (suc k) = output_new

calls-outputs : (k : ℕ) → perform_all output_new (calls k) ≡ some (outputs k)
unfolding perform_all output_new output_formatted ds_unsafe_cat_vsprintf
calls-outputs zero = refl
calls-outputs (suc k) = refl

calls-IsSafe : (k : ℕ) → All IsSafe (calls k)
calls-IsSafe zero = ground arith
calls-IsSafe (suc k) = tt

calls-RefersBelow : (k : ℕ) → All (RefersBelow k) (calls k)
calls-RefersBelow zero = (tt, tt)
calls-RefersBelow (suc k) = tt

-- Twelve pages are counted when the diversion is dumped.
abbrev counted : Memory
counted = record { size_ts = λ a. 12; strings = λ a. []; routines = λ a. [] }

-- `x`, the count, a `y` that is lost, the setup, and the end of the line
abbrev page : List Call
page =
    text (b'x' ∷ [])
    ∷ delayed (delayed_size_t 0)
    ∷ to_void true
    ∷ text (b'y' ∷ [])
    ∷ to_void false
    ∷ delayed (delayed_chunk 0)
    ∷ char b'\n'
    ∷ []

output_dump-meaning_example :
    (out : Output) × (perform_all output_new page ≡ some out)
    × (output_dump outputs counted 2 out
        ≡ some (meaning (derived counted (chunks_of counted calls 1)) false page))
output_dump-meaning_example =
    output_dump-meaning counted calls outputs calls-outputs calls-IsSafe calls-RefersBelow 1 page
      (ground arith) (ground arith)

shows :
    meaning (derived counted (chunks_of counted calls 1)) false page
    ≡ b'x' ∷ b'1' ∷ b'2' ∷ b'a' ∷ b'b' ∷ b'\n' ∷ []
unfolding print_nat print_digits
shows = refl
