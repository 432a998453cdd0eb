-- ===== src/Diversion.antt =====
-- liba2ps/output.c and dstring.c: diversions, which keep what is written together with the places
-- of values that are not known yet, and their dumping.
--
-- The content of a dynamic string ends where its list ends, where C has a zero; a write behind
-- `size` has no result. A diversion is named by a number, and so are the size_t's, the strings and
-- the routines that are read when it is dumped. What the formats of output expand to is given as
-- text. The derivations are the elements of their dynamic array.
pub mod Pieces
pub mod Room
pub mod Perform
pub mod Dump
pub mod Tests
use a2ps.Prelude.{
  ℕ, zero, suc, ◌+◌, ◌*◌, ◌==◌, Bool, true, false, List, [], ◌∷◌, ◌++◌, Option, none, some, ltb,
  leb, if◌then◌else◌, length,
}
use a2ps.Prelude.Decimal.{print_nat}

pub data DsGrowth : Type 0 where
  ds_steady ds_linear ds_geometrical : DsGrowth

pub record Dstring : Type 0 where
  pub size : ℕ
  pub growth : DsGrowth
  pub increment : ℕ
  pub content : List ℕ

-- The size that ds_grow leaves
abbrev pub grown : DsGrowth → ℕ → ℕ → ℕ
grown ds_steady size increment = size
grown ds_linear size increment = size + increment
grown ds_geometrical size increment = size * increment

abbrev pub ds_grow : Dstring → Dstring
ds_grow s = record s { size = grown s.growth s.size s.increment }

-- A write of the whole content and the zero behind it
abbrev pub store_content : List ℕ → Dstring → Option Dstring
store_content content s =
    if leb (length content + 1) s.size then some (record s { content = content }) else none

unfoldable pub ds_strccat : Dstring → ℕ → Option Dstring
ds_strccat s c =
    store_content (s.content ++ c ∷ []) (if leb s.size (length s.content + 2) then ds_grow s else s)

abbrev pub ds_margin : ℕ
ds_margin = 1024

unfoldable pub ds_unsafe_cat_vsprintf : Dstring → List ℕ → Option Dstring
ds_unsafe_cat_vsprintf s text =
    store_content (s.content ++ text)
      (if ltb s.size (length s.content + ds_margin) then ds_grow s else s)

-- The addresses of values, and the names of other diversions
pub data Derivation : Type 0 where
  nothing : Derivation
  delayed_size_t delayed_string delayed_routine delayed_chunk : ℕ → Derivation

-- struct output
pub record Output : Type 0 where
  pub chunk : Dstring
  pub derivations : List Derivation
  pub to_void : Bool

abbrev pub min_content : ℕ
min_content = 1024 * 50

unfoldable pub output_new : Output
output_new = record {
  chunk = record { size = min_content; growth = ds_geometrical; increment = 2; content = [] };
  derivations = [];
  to_void = false;
}

abbrev pub with_chunk : Output → Option Dstring → Option Output
with_chunk out none = none
with_chunk out (some chunk) = some (record out { chunk = chunk })

-- output, behind the expansion of its format
unfoldable pub output_formatted : Output → List ℕ → Option Output
output_formatted out text =
    if out.to_void then some out else with_chunk out (ds_unsafe_cat_vsprintf out.chunk text)

unfoldable pub output_char : Output → ℕ → Option Output
output_char out c = if out.to_void then some out else with_chunk out (ds_strccat out.chunk c)

abbrev pub output_to_void : Output → Bool → Output
output_to_void out forget = record out { to_void = forget }

abbrev pub with_derivation : Derivation → Option Output → Option Output
with_derivation d none = none
with_derivation d (some out) = some (record out { derivations = out.derivations ++ d ∷ [] })

-- output_delayed_size_t, and the same for the other kinds of derivations
unfoldable pub output_delayed : Output → Derivation → Option Output
output_delayed out d = if out.to_void then some out else with_derivation d (output_char out 0)

-- What is read when a diversion is dumped; a routine is what it writes.
pub record Memory : Type 0 where
  pub size_ts : ℕ → ℕ
  pub strings : ℕ → List ℕ
  pub routines : ℕ → List ℕ

-- What fputs writes of a piece, and what stands behind the zero that ends it
abbrev pub before_zero : List ℕ → List ℕ
before_zero [] = []
before_zero (c ∷ cs) = let rest = before_zero cs in if c == 0 then [] else c ∷ rest

abbrev pub behind_zero : List ℕ → List ℕ
behind_zero [] = []
behind_zero (c ∷ cs) = let rest = behind_zero cs in if c == 0 then cs else rest

-- `dump` dumps another diversion.
abbrev pub underivation : Memory → (ℕ → Option (List ℕ)) → Derivation → Option (List ℕ)
underivation mem dump nothing = some []
underivation mem dump (delayed_size_t a) = some (print_nat (mem.size_ts a))
underivation mem dump (delayed_string a) = some (mem.strings a)
underivation mem dump (delayed_routine a) = some (mem.routines a)
underivation mem dump (delayed_chunk k) = dump k

-- One text behind the other, if both are there
abbrev pub joined : Option (List ℕ) → Option (List ℕ) → Option (List ℕ)
joined none rest = none
joined (some text) none = none
joined (some text) (some rest) = some (text ++ rest)

unfoldable pub dump_pieces :
    (Derivation → Option (List ℕ)) → List ℕ → List Derivation → Option (List ℕ)
dump_pieces value piece [] = some (before_zero piece)
dump_pieces value piece (d ∷ ds) =
    joined (some (before_zero piece)) (joined (value d) (dump_pieces value (behind_zero piece) ds))

-- The diversions that are dumped within each other use up fuel.
unfoldable pub output_dump : (ℕ → Output) → Memory → ℕ → Output → Option (List ℕ)
output_dump outputs mem zero out = none
output_dump outputs mem (suc fuel) out =
    dump_pieces (underivation mem (λ k. output_dump outputs mem fuel (outputs k))) out.chunk.content
      out.derivations
