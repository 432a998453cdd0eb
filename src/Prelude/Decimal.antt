-- ===== src/Prelude/Decimal.antt =====
-- Decimal numbers as text: what `%d` of sprintf writes and what atoi reads, on lists of bytes.
use Prim.Native.Nat.{ℕ, zero, suc, ◌+◌, ◌-◌, ◌*◌, ◌/◌, ◌%◌, ◌<◌}
use mathlib.Core.Path.{◌≡◌, refl, ◌∙◌, ap, subst}
use mathlib.Core.Bool.{Bool, true, false, ◌&&◌}
use mathlib.Core.List.{List, [], ◌∷◌, ◌++◌}
use native.Mathlib.Omega.{arith}
use mathlib.Core.Logic.{inl, inr}
use a2ps.Prelude.Tests.{leb, ltb, if◌then◌else◌, Bool-cases, ltb→lt, tests}

abbrev pub is_digit : ℕ → Bool
is_digit c = leb b'0' c && leb c b'9'

-- `while (isdigit (*cp)) cp++`
unfoldable pub skip_digits : List ℕ → List ℕ
skip_digits [] = []
skip_digits (c ∷ cs) = if is_digit c then skip_digits cs else c ∷ cs

-- The digits that atoi accumulates from the front of its text; 0 if there are none.
unfoldable pub read_digits : ℕ → List ℕ → ℕ
read_digits acc [] = acc
read_digits acc (c ∷ cs) = if is_digit c then read_digits (acc * 10 + (c - b'0')) cs else acc

abbrev pub atoi : List ℕ → ℕ
atoi = read_digits 0

-- The digits of `n`, most significant first, before `rest`; the fuel bounds their number.
unfoldable pub print_digits : ℕ → ℕ → List ℕ → List ℕ
print_digits zero n rest = rest
print_digits (suc fuel) n rest =
    let more = print_digits fuel (n / 10) ((b'0' + n % 10) ∷ rest) in
    if ltb n 10 then (b'0' + n) ∷ rest else more

-- `sprintf (buf, "%zu", n)`
unfoldable pub print_nat : ℕ → List ℕ
unfolding print_digits
print_nat n = print_digits (n + 1) n []

-- Whatever is not a digit, or nothing, stops the reading.
abbrev pub Stops : List ℕ → Type 0
Stops [] = Unit {0}
Stops (c ∷ cs) = is_digit c ≡ false

pub data Digits : List ℕ → Type 0 where
  nil : Digits []
  cons : {c : ℕ} {cs : List ℕ} → is_digit c ≡ true → Digits cs → Digits (c ∷ cs)

is_digit_add : (d : ℕ) → d < 10 → is_digit (b'0' + d) ≡ true
is_digit_add d h = ground arith

print_digits-Digits : (f n : ℕ) (rest : List ℕ) → Digits rest → Digits (print_digits f n rest)
unfolding print_digits
print_digits-Digits zero n rest d = d
print_digits-Digits (suc f) n rest d = elim (Bool-cases (ltb n 10)) [
  | inl small ↦ rw small (cons (is_digit_add n (ltb→lt n 10 small)) d)
  | inr big ↦
      rw big (print_digits-Digits f (n / 10) _ (cons (is_digit_add (n % 10) (omega arith)) d))
]

pub print_nat-Digits : (n : ℕ) → Digits (print_nat n)
unfolding print_nat
print_nat-Digits n = print_digits-Digits (n + 1) n [] nil

-- The digits of `n` come before `rest`, and reading goes on there with the number that they make.
print_digits-append :
    (f n : ℕ) (rest more : List ℕ) → print_digits f n rest ++ more ≡ print_digits f n (rest ++ more)
unfolding print_digits
print_digits-append zero n rest more = refl
print_digits-append (suc f) n rest more = elim (Bool-cases (ltb n 10)) [
  | inl small ↦ rw small
  | inr big ↦ rw big (print_digits-append f (n / 10) _ more)
]

read_digits-print_digits :
    (f n : ℕ) (rest : List ℕ) → n < f → read_digits 0 (print_digits f n rest) ≡ read_digits n rest
unfolding print_digits read_digits
read_digits-print_digits zero n rest h = elim h [ ]
read_digits-print_digits (suc f) n rest h = elim (Bool-cases (ltb n 10)) [
  | inl small ↦
      rw (small, is_digit_add n (ltb→lt n 10 small)) (ap (λ k. read_digits k rest) (omega arith))
  | inr big ↦ rw big (
      read_digits-print_digits f (n / 10) ((b'0' + n % 10) ∷ rest) (omega tests)
      ∙ rw (is_digit_add (n % 10) (omega arith)) (ap (λ k. read_digits k rest) (omega arith)))
]

read_digits-Stops : (n : ℕ) (rest : List ℕ) → Stops rest → read_digits n rest ≡ n
unfolding read_digits
read_digits-Stops n [] s = refl
read_digits-Stops n (c ∷ cs) s = rw s

-- atoi reads back what sprintf wrote, whatever text that is no digit follows.
pub atoi-print_nat : (n : ℕ) (rest : List ℕ) → Stops rest → atoi (print_nat n ++ rest) ≡ n
unfolding print_nat
atoi-print_nat n rest s =
    rw (print_digits-append (n + 1) n [] rest)
      (read_digits-print_digits (n + 1) n rest (omega arith) ∙ read_digits-Stops n rest s)

pub skip_digits-Stops : (rest : List ℕ) → Stops rest → skip_digits rest ≡ rest
unfolding skip_digits
skip_digits-Stops [] s = refl
skip_digits-Stops (c ∷ cs) s = rw s

pub skip_digits-append :
    {ds : List ℕ} (rest : List ℕ) → Digits ds → Stops rest → skip_digits (ds ++ rest) ≡ rest
unfolding skip_digits
skip_digits-append rest nil s = skip_digits-Stops rest s
skip_digits-append rest (cons h d) s = rw h (skip_digits-append rest d s)

Digits-head : {c : ℕ} {cs : List ℕ} → Digits (c ∷ cs) → is_digit c ≡ true
Digits-head (cons h d) = h

print_digits_cons :
    (f n : ℕ) (rest : List ℕ) → (c : ℕ) × (cs : List ℕ) × (print_digits (suc f) n rest ≡ c ∷ cs)
unfolding print_digits
print_digits_cons zero n rest = elim (Bool-cases (ltb n 10)) [
  | inl small ↦ (b'0' + n, rest, rw small)
  | inr big ↦ (b'0' + n % 10, rest, rw big)
]
print_digits_cons (suc f) n rest = elim (Bool-cases (ltb n 10)) [
  | inl small ↦ (b'0' + n, rest, rw small)
  | inr big ↦ rw big (print_digits_cons f (n / 10) ((b'0' + n % 10) ∷ rest))
]

-- A printed number begins with a digit.
pub print_nat_cons :
    (n : ℕ) → (c : ℕ) × (cs : List ℕ) × (print_nat n ≡ c ∷ cs) × (is_digit c ≡ true)
unfolding print_nat
print_nat_cons n =
    let (c, cs, e) = print_digits_cons n n [] in
    let e' : print_nat n ≡ c ∷ cs =
      rw (← e) (ap (λ k. print_digits k n []) {y = suc n} (omega arith)) in
    (c, cs, e', Digits-head (subst Digits e' (print_nat-Digits n)))
