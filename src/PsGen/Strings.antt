-- ===== src/PsGen/Strings.antt =====
-- The strings in what is written: a token says whether it stands inside one.
pub mod Pages
pub mod Lines
pub mod Text
pub mod Runs
pub mod Files
use a2ps.Prelude.{
  Bool, true, false, not, List, [], ◌∷◌, Option, none, some, if◌then◌else◌, ◌≡◌, refl, ◌&&◌, ◌||◌,
  ◌==◌, ◌*◌,
}
use a2ps.Escape.{escape_text}
use a2ps.PsGen.{
  Status, counted, count_nonprinting, widths, Settings, Job, Place, Token, when, output,
  output_to_void, set_status, output_marker, output_mark, output_mark_if, open_string, no_number,
  line_number, text, change_face, change_string, show_face, close_face, end_line_face, show_string,
  close_string, end_line_string, tab_to, mark_end, command, is_empty, right_header, water_mark,
  Command,
}
use a2ps.PsGen.Char.{if-cases, when-cases}

-- Whether a token stands in a string, and whether a string is open behind it
abbrev wants : Token → Bool
wants open_string = false
wants no_number = false
wants (line_number n) = false
wants (tab_to n) = false
wants (command c) = false
wants _ = true

abbrev leaves : Token → Bool
leaves open_string = true
leaves no_number = true
leaves (line_number n) = true
leaves (tab_to n) = true
leaves (text t) = true
leaves (change_face f) = true
leaves change_string = true
leaves _ = false

-- The tokens, the latest first, are in order, and `inside` tells whether a string is open.
pub data Written : Bool → List Token → Type 0 where
  nothing : Written false []
  next : (t : Token) {ts : List Token} → Written (wants t) ts → Written (leaves t) (t ∷ ts)

-- What reached the output is in order; `inside` tells whether a string would be open if no output
-- had been dropped.
unfoldable pub IsWritten : Bool → Job → Type 0
IsWritten inside j = Written (if j.to_void then false else inside) j.divertion

put :
    (void : Bool) (t : Token) (ts : List Token)
    → Written (if void then false else wants t) ts
    → Written (if void then false else leaves t) (if void then ts else t ∷ ts)
put true t ts h = h
put false t ts h = next t h

pub output-IsWritten :
    (t : Token) (j : Job) → IsWritten (wants t) j → IsWritten (leaves t) (output t j)
unfolding IsWritten output
output-IsWritten t j h = put j.to_void t j.divertion h

-- What is outside of strings stays so, whatever is dropped from now on.
close :
    (void void' : Bool) (ts : List Token)
    → Written (if void then false else false) ts
    → Written (if void' then false else false) ts
close true true ts h = h
close true false ts h = h
close false true ts h = h
close false false ts h = h

pub output_to_void-IsWritten :
    (forget : Bool) (j : Job) → IsWritten false j → IsWritten false (output_to_void forget j)
unfolding IsWritten
output_to_void-IsWritten forget j h = close j.to_void forget j.divertion h

abbrev pub Closes : (Job → Job) → Type 0
Closes f = (j : Job) → IsWritten false j → IsWritten false (f j)

pub when-Closes : (b : Bool) (f : Job → Job) → Closes f → Closes (when b f)
unfolding when
when-Closes true f k j h = k j h
when-Closes false f k j h = h

pub command-Closes : (c : Command) → Closes (output (command c))
command-Closes c j h = output-IsWritten (command c) j h

pub set_status-IsWritten :
    (inside : Bool) (f : Status → Status) (j : Job)
    → IsWritten inside j
    → IsWritten inside (set_status f j)
unfolding IsWritten
set_status-IsWritten inside f j h = h

marker-IsWritten :
    (s : Settings) (place : Place) (j : Job)
    → IsWritten true j
    → IsWritten true (output_marker s place j)
unfolding output_marker
marker-IsWritten s place j h =
    output-IsWritten (text (escape_text s.unprintable_format (widths s j) (s.marker place))) _
      (set_status-IsWritten true (counted (count_nonprinting s j (s.marker place))) j h)

pub marked-Closes :
    (s : Settings) (place : Place)
    → Closes (λ j. output (mark_end place) (output_marker s place (output open_string j)))
marked-Closes s place j h =
    output-IsWritten (mark_end place) _
      (marker-IsWritten s place _ (output-IsWritten open_string j h))

pub mark-Closes : (s : Settings) (place : Place) → Closes (output_mark s place)
unfolding output_mark
mark-Closes s place j h =
    if-cases (IsWritten false) (is_empty (s.marker place)) _ _ (λ _. command-Closes _ j h)
      (λ _. marked-Closes s place j h)

pub mark_if-Closes : (s : Settings) (place : Place) → Closes (output_mark_if s place)
unfolding output_mark_if
mark_if-Closes s place = when-Closes (not (is_empty (s.marker place))) _ (marked-Closes s place)
