-- ===== src/Ssheet/Colours.antt =====
-- What the printing with a style sheet that only chooses faces leaves.
use a2ps.Prelude.{ℕ, ◌+◌, ◌≡◌, List, [], ◌∷◌, ◌++◌}
use a2ps.Buffer.Lines.{line_of}
use a2ps.PsGen.{Settings, Job}
use a2ps.PsGen.Print.{ps_print_char, ps_print_string}
use a2ps.Read.{set_lines}
use a2ps.Ssheet.{Fface, FacedString}
use a2ps.Ssheet.Match.{plain_rhs}
use a2ps.Ssheet.Plainly.{unflagged}

-- The whole match, in a face with no flag
abbrev pub Decorates : List FacedString → Type 0
Decorates rhs = (face : ℕ) × (rhs ≡ plain_rhs (unflagged face))

abbrev pub IsUnflagged : Fface → Type 0
IsUnflagged f = f.flags ≡ 0

-- `text`, the rest of line number `n`, is printed byte by byte, each in some face, and then the
-- lines behind it, each under its number; the number of the line behind the last is set as well.
pub data Coloured (s : Settings) : ℕ → List ℕ → List (List ℕ) → Job → Job → Type 0 where
  byte :
      {n c : ℕ} {cs : List ℕ} {bodies : List (List ℕ)} {j j' : Job} (face : ℕ)
      → Coloured s n cs bodies (ps_print_char s c face j) j'
      → Coloured s n (c ∷ cs) bodies j j'
  next_line :
      {n : ℕ} {body : List ℕ} {bodies : List (List ℕ)} {j j' : Job}
      → Coloured s (n + 1) (line_of body) bodies (set_lines (n + 1) j) j'
      → Coloured s n [] (body ∷ bodies) j j'
  no_more : {n : ℕ} {j : Job} → Coloured s n [] [] j (set_lines (n + 1) j)

pub bytes-Coloured :
    (s : Settings) (n : ℕ) (cs rest : List ℕ) (bodies : List (List ℕ)) (face : ℕ) (j j' : Job)
    → Coloured s n rest bodies (ps_print_string s cs face j) j'
    → Coloured s n (cs ++ rest) bodies j j'
unfolding ps_print_string
bytes-Coloured s n [] rest bodies face j j' h = h
bytes-Coloured s n (c ∷ cs) rest bodies face j j' h =
    byte face (bytes-Coloured s n cs rest bodies face (ps_print_char s c face j) j' h)
