-- ===== src/Identity/Ttl/Durations.antt =====
-- What a duration that is written out means.
use aca_social.Base.{
  ℕ, zero, suc, ◌+◌, ◌-◌, ◌*◌, ◌/◌, ◌%◌, ◌≡◌, ◌≤◌, ◌<◌, refl, ◌∙◌, ap, Bool, true, false, some,
  none, List, [], ◌∷◌, ◌++◌, Option, All, arith, if◌then◌else◌, or_else, ◌==◌, ltb,
}
use aca_social.Mentions.{is_space}
use aca_social.Identity.Ttl.{
  ahead, is_digit, parse_digits, skip_spaces, parse_signed, parse_int, init, last, in_unit,
  parse_ttl, signed, exact_below, round_unless, double,
}

-- The decimal digits of a number below `10 ^ (fuel + 1)`, of any number that is at most `fuel`.
unfoldable pub decimal : ℕ → ℕ → List ℕ
decimal zero n = (48 + n) ∷ []
decimal (suc fuel) n =
    let leading = decimal fuel (n / 10) in
    if ltb n 10 then (48 + n) ∷ [] else leading ++ (48 + n % 10) ∷ []

-- The units, and the seconds that each stands for.
pub data TimeUnit : Type 0 where
  second minute hour day : TimeUnit

abbrev pub letter : TimeUnit → ℕ
letter TimeUnit.second = 115
letter TimeUnit.minute = 109
letter TimeUnit.hour = 104
letter TimeUnit.day = 100

abbrev pub seconds : TimeUnit → ℕ
seconds TimeUnit.second = 1
seconds TimeUnit.minute = 60
seconds TimeUnit.hour = 3600
seconds TimeUnit.day = 86400

abbrev IsDigits : List ℕ → Type 0
IsDigits cs = All (λ c. is_digit c ≡ true) cs

parse_digits-append :
    (cs : List ℕ) (acc : Option ℕ) (c : ℕ)
    → IsDigits cs
    → is_digit c ≡ true
    → parse_digits acc (cs ++ c ∷ []) ≡ some (or_else (parse_digits acc cs) 0 * 10 + (c - 48))
unfolding parse_digits
parse_digits-append [] acc c all digit = rw digit refl
parse_digits-append (d ∷ cs) acc c (first, all) digit =
    rw first (parse_digits-append cs _ c all digit)

digit-is_digit : (d : ℕ) → ltb d 10 ≡ true → is_digit (48 + d) ≡ true
digit-is_digit d h = ground arith

append-IsDigits : (cs : List ℕ) (c : ℕ) → IsDigits cs → is_digit c ≡ true → IsDigits (cs ++ c ∷ [])
append-IsDigits [] c all digit = (digit, tt)
append-IsDigits (d ∷ cs) c (first, all) digit = (first, append-IsDigits cs c all digit)

-- What is proved of the digits of `n`: they are digits, they start with one, and they parse to `n`.
abbrev Prints : ℕ → List ℕ → Type 0
Prints n cs = IsDigits cs × (parse_digits none cs ≡ some n)

one_digit : (n : ℕ) → ltb n 10 ≡ true → Prints n ((48 + n) ∷ [])
unfolding parse_digits
one_digit n h =
    let digit = digit-is_digit n h in
    let same : 0 * 10 + (48 + n - 48) ≡ n = omega arith in ((digit, tt), rw digit (ap some same))

more_digits : (n : ℕ) (cs : List ℕ) → Prints (n / 10) cs → Prints n (cs ++ (48 + n % 10) ∷ [])
more_digits n cs (all, parsed) =
    let digit : is_digit (48 + n % 10) ≡ true = digit-is_digit (n % 10) (ground arith) in
    let same : n / 10 * 10 + (48 + n % 10 - 48) ≡ n = omega arith in
    (
      append-IsDigits cs _ all digit,
      parse_digits-append cs none _ all digit
          ∙ ap (λ o. some (or_else o 0 * 10 + (48 + n % 10 - 48))) parsed
          ∙ ap some same,
    )

decimal-Prints : (fuel n : ℕ) → n ≤ fuel → Prints n (decimal fuel n)
unfolding decimal
decimal-Prints zero n h = one_digit n (ground arith)
decimal-Prints (suc fuel) n h =
    printed (ltb n 10) refl λ e. decimal-Prints fuel (n / 10) (ground arith)
  where
    printed :
        (b : Bool)
        → ltb n 10 ≡ b
        → (ltb n 10 ≡ false → Prints (n / 10) (decimal fuel (n / 10)))
        → Prints n (if b then (48 + n) ∷ [] else decimal fuel (n / 10) ++ (48 + n % 10) ∷ [])
    printed true e shorter = one_digit n e
    printed false e shorter = more_digits n _ (shorter e)

init-append : (cs : List ℕ) (c : ℕ) → init (cs ++ c ∷ []) ≡ cs
unfolding init
init-append [] c = refl
init-append (d ∷ []) c = refl
init-append (d ∷ e ∷ cs) c = ap (λ r. d ∷ r) (init-append (e ∷ cs) c)

last-append : (d : ℕ) (cs : List ℕ) (c : ℕ) → last d (cs ++ c ∷ []) ≡ c
unfolding last
last-append d [] c = refl
last-append d (e ∷ cs) c = last-append e cs c

double_exact : (n : ℕ) → n < exact_below → double n ≡ n
double_exact n h =
    let small : ltb n exact_below ≡ true = ground arith in ap (λ b. round_unless b n) small

-- Digits are read as they are: a digit is no space and no sign.
parse_int-digits :
    (cs : List ℕ) (n : ℕ)
    → n < exact_below
    → IsDigits cs
    → parse_digits none cs ≡ some n
    → parse_int cs ≡ some (ahead n)
unfolding parse_int parse_signed skip_spaces parse_digits
parse_int-digits [] n exact all parsed = absurd (cc)
parse_int-digits (c ∷ cs) n exact (digit, all) parsed =
    let not_space : is_space c ≡ false = ground arith in
    let not_minus : (c == 45) ≡ false = ground arith in
    let not_plus : (c == 43) ≡ false = ground arith in
    rw (not_space, not_minus, not_plus)
      (ap (signed ahead) parsed ∙ ap (λ k. some (ahead k)) (double_exact n exact))

in_unit-letter :
    (unit : TimeUnit) (n : ℕ)
    → n * seconds unit < exact_below
    → in_unit (letter unit) (some (ahead n)) ≡ ahead (n * seconds unit)
unfolding in_unit
in_unit-letter TimeUnit.second n exact = ap ahead (omega arith)
in_unit-letter TimeUnit.minute n exact = ap ahead (double_exact (n * 60) exact)
in_unit-letter TimeUnit.hour n exact = ap ahead (double_exact (n * 3600) exact)
in_unit-letter TimeUnit.day n exact = ap ahead (double_exact (n * 86400) exact)

fewer_units : (unit : TimeUnit) (n : ℕ) → n * seconds unit < exact_below → n < exact_below
fewer_units TimeUnit.second n h = omega arith
fewer_units TimeUnit.minute n h = omega arith
fewer_units TimeUnit.hour n h = omega arith
fewer_units TimeUnit.day n h = omega arith

parse_ttl-parts : (cs : List ℕ) (c : ℕ) → parse_ttl (cs ++ c ∷ []) ≡ in_unit c (parse_int cs)
unfolding parse_ttl last
parse_ttl-parts [] c = ap (λ r. in_unit c (parse_int r)) (init-append [] c)
parse_ttl-parts (d ∷ cs) c =
    ap (λ u. in_unit u (parse_int (init (d ∷ cs ++ c ∷ [])))) (last-append d cs c)
    ∙ ap (λ r. in_unit c (parse_int r)) (init-append (d ∷ cs) c)

-- A duration that is written as the decimal digits of a number and the letter of a unit is that
-- number of units in seconds, if these are fewer than 2 ^ 53, below which the doubles of JavaScript
-- are exact.
pub parse_ttl-decimal :
    (n : ℕ) (unit : TimeUnit)
    → n * seconds unit < exact_below
    → parse_ttl (decimal n n ++ letter unit ∷ []) ≡ ahead (n * seconds unit)
parse_ttl-decimal n unit exact =
    let (all, parsed) = decimal-Prints n n (omega arith) in
    parse_ttl-parts (decimal n n) (letter unit)
    ∙ ap (in_unit (letter unit))
        (parse_int-digits (decimal n n) n (fewer_units unit n exact) all parsed)
    ∙ in_unit-letter unit n exact
