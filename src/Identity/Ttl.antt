-- ===== src/Identity/Ttl.antt =====
-- services/identity-service/src/common/parse-ttl.util.ts: a duration such as "15m" in seconds. A text
-- is the list of its character codes. A number is a double of JavaScript: an integer is exact below
-- 2 ^ 53, and rounded from there on. Integers that are too large for a double are not modelled.
pub mod Durations
use aca_social.Base.{
  ℕ, ◌+◌, ◌-◌, ◌*◌, ◌/◌, ◌%◌, zero, suc, ltb, Bool, true, false, ◌&&◌, Option, none, some, List, [],
  ◌∷◌, ◌==◌, leb, if◌then◌else◌, or_else,
}
use aca_social.Mentions.{is_space}

-- A number of seconds, which a text with a sign can make negative.
pub data Seconds : Type 0 where
  ahead ago : ℕ → Seconds

-- 2 ^ 53
abbrev pub exact_below : ℕ
exact_below = 9007199254740992

-- An integer to the nearest multiple of `unit`, and to an even one if two are as near.
abbrev pub round_to : ℕ → ℕ → ℕ
round_to unit n =
    let below = n / unit in
    let rest = n % unit * 2 in
    if ltb rest unit
    then below * unit
    else if ltb unit rest
    then (below + 1) * unit
    else (below + below % 2) * unit

-- The integer in 53 binary digits; `unit` is the first power of two for which they are enough. A double
-- has exponents up to 2 ^ 971, which bounds the fuel.
unfoldable pub round_from : ℕ → ℕ → ℕ → ℕ
round_from zero unit n = n
round_from (suc fuel) unit n =
    let further = round_from fuel (unit * 2) n in
    if ltb n (exact_below * unit) then round_to unit n else further

abbrev pub round_unless : Bool → ℕ → ℕ
round_unless true n = n
round_unless false n = round_from 971 2 n

-- The double that is nearest to an integer.
abbrev pub double : ℕ → ℕ
double n = round_unless (ltb n exact_below) n

abbrev pub is_digit : ℕ → Bool
is_digit c = leb 48 c && leb c 57

-- The digits at the start of a text, after `acc`; none if there is no digit.
unfoldable pub parse_digits : Option ℕ → List ℕ → Option ℕ
parse_digits acc [] = acc
parse_digits acc (c ∷ cs) =
    let more = parse_digits (some (or_else acc 0 * 10 + (c - 48))) cs in
    if is_digit c then more else acc

unfoldable pub skip_spaces : List ℕ → List ℕ
skip_spaces [] = []
skip_spaces (c ∷ cs) = let rest = skip_spaces cs in if is_space c then rest else c ∷ cs

abbrev pub signed : (ℕ → Seconds) → Option ℕ → Option Seconds
signed sign none = none
signed sign (some n) = some (sign (double n))

unfoldable pub parse_signed : List ℕ → Option Seconds
parse_signed [] = none
parse_signed (c ∷ cs) =
    if c == 45
    then signed ago (parse_digits none cs)
    else signed ahead (parse_digits none (if c == 43 then cs else c ∷ cs))

-- `parseInt(text, 10)`, with none for NaN
unfoldable pub parse_int : List ℕ → Option Seconds
parse_int cs = parse_signed (skip_spaces cs)

-- `text.slice(0, -1)`
unfoldable pub init : List ℕ → List ℕ
init [] = []
init (c ∷ []) = []
init (c ∷ d ∷ cs) = c ∷ init (d ∷ cs)

-- `text.slice(-1)`, of a text that is not empty
unfoldable pub last : ℕ → List ℕ → ℕ
last c [] = c
last c (d ∷ cs) = last d cs

abbrev pub times : ℕ → Seconds → Seconds
times k (ahead n) = ahead (double (n * k))
times k (ago n) = ago (double (n * k))

-- 's', 'm', 'h' and 'd'
unfoldable pub in_unit : ℕ → Option Seconds → Seconds
in_unit unit none = ahead 900
in_unit unit (some value) =
    if unit == 115
    then value
    else if unit == 109
    then times 60 value
    else if unit == 104
    then times 3600 value
    else if unit == 100
    then times 86400 value
    else ahead 900

unfoldable pub parse_ttl : List ℕ → Seconds
parse_ttl [] = ahead 900
parse_ttl (c ∷ cs) = in_unit (last c cs) (parse_int (init (c ∷ cs)))

-- `new Date(Date.now() + seconds * 1000)`, for dates that JavaScript has, whose milliseconds are exact;
-- a time before the epoch is the epoch.
abbrev pub later : ℕ → Seconds → ℕ
later now (ahead n) = now + n * 1000
later now (ago n) = now - n * 1000
