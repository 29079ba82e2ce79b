-- ===== src/Dispenser/Expiration.antt =====
-- src/XChainDecoder/dispenser_wide_expiration.js: from the EXPIRATION token of the wire to the number that
-- the registry stores. Numbers are arguments, as in the source: `none` is every number that is no
-- non-negative integer.
pub mod Exact
pub mod Normal
use xchain_decoder.Prelude.{
  ℕ, zero, suc, ◌+◌, ◌-◌, ◌*◌, ◌^◌, Bool, true, false, not, ◌&&◌, ◌||◌, Option, none, some, List,
  [], ◌∷◌, ◌++◌, leb, ltb, ◌==◌, if◌then◌else◌, length, take, drop,
}
use xchain_decoder.Prelude.Text.{Text, text_eq}
use xchain_decoder.Activation.{
  BlockTime, Schedule, for_networks, is_active, exact_integer_expiration_activation,
}
use xchain_decoder.Batch.Keys.{is_digit, trim}

abbrev pub max_safe_dispenser_expiration : ℕ
max_safe_dispenser_expiration = 9007199254740991

abbrev pub u64_max : ℕ
u64_max = 18446744073709551615

abbrev pub dispenser_wide_expiration_gates : Schedule
dispenser_wide_expiration_gates = for_networks (some 9999999999) (some 1792605600) (some 0)

unfoldable pub is_dispenser_wide_expiration_active : Text → BlockTime → Bool
unfolding is_active
is_dispenser_wide_expiration_active network time =
    is_active dispenser_wide_expiration_gates network time

unfoldable pub is_exact_integer_expiration_active : Text → BlockTime → Bool
unfolding is_active
is_exact_integer_expiration_active network time =
    is_active exact_integer_expiration_activation network time

-- `/^0*$/`
abbrev pub all_zero : Text → Bool
all_zero [] = true
all_zero (c ∷ cs) = c == b'0' && all_zero cs

abbrev pub without_zeros : Text → Text
without_zeros [] = []
without_zeros (c ∷ cs) = let rest = without_zeros cs in if c == b'0' then rest else c ∷ cs

-- `BigInt` of a run of digits.
abbrev pub value_onto : ℕ → Text → ℕ
value_onto n [] = n
value_onto n (c ∷ cs) = value_onto (n * 10 + (c - b'0')) cs

abbrev pub value : Text → ℕ
value digits = value_onto 0 digits

abbrev pub zeros : ℕ → Text
zeros zero = []
zeros (suc n) = b'0' ∷ zeros n

-- The value of the digits with the last `places` behind the point, if it is an integer.
unfoldable pub shifted_down : Text → ℕ → Option ℕ
shifted_down digits places =
    let kept = length digits - places in
    if leb (length digits) places
    then (if all_zero digits then some 0 else none)
    else if all_zero (drop kept digits)
    then some (value (take kept digits))
    else none

-- The value of the digits and `count` zeros, unless it has more than 20 digits.
unfoldable pub shifted_up : Text → ℕ → Option ℕ
shifted_up digits count =
    if not (all_zero digits) && ltb 20 (length (without_zeros digits) + count)
    then none
    else some (value (digits ++ zeros count))

-- The longest run of digits, and what follows.
abbrev pub digits_of : Text → Text × Text
digits_of [] = ([], [])
digits_of (c ∷ cs) =
    let rest = digits_of cs in if is_digit c then (c ∷ rest.0, rest.1) else ([], c ∷ cs)

abbrev pub after_plus : Text → Text
after_plus [] = []
after_plus (c ∷ cs) = if c == b'+' then cs else c ∷ cs

abbrev pub fraction_of : Text → Text × Text
fraction_of [] = ([], [])
fraction_of (c ∷ cs) = let rest = digits_of cs in if c == b'.' then rest else ([], c ∷ cs)

-- A whole run of digits.
abbrev pub only_digits : Text × Text → Option Text
only_digits ([], rest) = none
only_digits (c ∷ cs, []) = some (c ∷ cs)
only_digits (c ∷ cs, d ∷ rest) = none

abbrev pub with_sign : Bool → Option Text → Option (Bool × Text)
with_sign negative none = none
with_sign negative (some digits) = some (negative, digits)

-- The sign and the digits of the exponent, `0` where there is none.
abbrev pub exponent_digits : Text → Option (Bool × Text)
exponent_digits [] = none
exponent_digits (c ∷ cs) =
    if c == b'-'
    then with_sign true (only_digits (digits_of cs))
    else with_sign false (only_digits (digits_of (after_plus (c ∷ cs))))

abbrev pub exponent_of : Text → Option (Bool × Text)
exponent_of [] = some (false, b'0' ∷ [])
exponent_of (c ∷ cs) = if c == b'e' || c == b'E' then exponent_digits cs else none

unfoldable pub exact_of : Text → Text → Option (Bool × Text) → Option ℕ
unfolding shifted_down shifted_up
exact_of [] fraction exponent = none
exact_of (c ∷ cs) fraction none = none
exact_of (c ∷ cs) fraction (some (negative, exponent)) =
    let digits = (c ∷ cs) ++ fraction in
    let places = length fraction in
    if ltb 6 (length (without_zeros exponent))
    then none
    else if negative
    then shifted_down digits (places + value exponent)
    else if leb (value exponent) places
    then shifted_down digits (places - value exponent)
    else shifted_up digits (value exponent - places)

unfoldable pub exact_unsigned_decimal : Text → Option ℕ
unfolding exact_of
exact_unsigned_decimal raw =
    let (integral, rest) = digits_of (after_plus (trim raw)) in
    let (fraction, exponent) = fraction_of rest in exact_of integral fraction (exponent_of exponent)

-- `isExactIntegerToken`: here a sign may stand in front, and a point without digits before it.
abbrev pub after_sign : Text → Text
after_sign [] = []
after_sign (c ∷ cs) = if c == b'+' || c == b'-' then cs else c ∷ cs

abbrev pub behind_point : Text × Text → Option (Text × Text × Text)
behind_point ([], rest) = none
behind_point (c ∷ cs, rest) = some ([], c ∷ cs, rest)

abbrev pub point_first : Text → Option (Text × Text × Text)
point_first [] = none
point_first (c ∷ cs) = if c == b'.' then behind_point (digits_of cs) else none

abbrev pub mantissa_of : Text × Text → Option (Text × Text × Text)
mantissa_of ([], rest) = point_first rest
mantissa_of (c ∷ cs, rest) =
    let (fraction, exponent) = fraction_of rest in some (c ∷ cs, fraction, exponent)

abbrev pub last_zero : Text → ℕ → Bool
last_zero digits places =
    if leb (length digits) places
    then all_zero digits
    else all_zero (drop (length digits - places) digits)

abbrev pub integer_of : Text → Text → Option (Bool × Text) → Bool
integer_of integral fraction none = false
integer_of integral fraction (some (negative, exponent)) =
    let digits = integral ++ fraction in
    if ltb max_safe_dispenser_expiration (value exponent)
    then false
    else if negative
    then last_zero digits (length fraction + value exponent)
    else last_zero digits (length fraction - value exponent)

abbrev pub integer_mantissa : Option (Text × Text × Text) → Bool
integer_mantissa none = false
integer_mantissa (some (integral, fraction, exponent)) =
    integer_of integral fraction (exponent_of exponent)

unfoldable pub is_exact_integer_token : Text → Bool
is_exact_integer_token token = integer_mantissa (mantissa_of (digits_of (after_sign (trim token))))

-- A non-negative `Number.isSafeInteger`.
abbrev pub is_safe : Option ℕ → Bool
is_safe none = false
is_safe (some n) = leb n max_safe_dispenser_expiration

-- What an exact value above the safe range becomes.
abbrev pub clamped : Option ℕ → Option ℕ
clamped none = none
clamped (some exact) =
    if leb exact max_safe_dispenser_expiration || ltb u64_max exact
    then none
    else some max_safe_dispenser_expiration

abbrev pub is_blank : Option Text → Bool
is_blank none = true
is_blank (some raw) = text_eq (trim raw) []

abbrev pub exact_token : Option Text → Option ℕ
exact_token none = none
exact_token (some raw) = exact_unsigned_decimal raw

unfoldable pub normalize_dispenser_expiration : Option Text → Text → BlockTime → Option ℕ → Option ℕ
unfolding is_dispenser_wide_expiration_active trim
normalize_dispenser_expiration raw network time as_number =
    if is_blank raw
    then none
    else if is_safe as_number
    then as_number
    else if not (is_dispenser_wide_expiration_active network time)
    then none
    else clamped (exact_token raw)

-- A token that is missing or empty stands for the default expiration.
abbrev pub is_omitted : Option Text → Bool
is_omitted none = true
is_omitted (some token) = text_eq token []

abbrev pub is_exact_integer : Option Text → Bool
is_exact_integer none = false
is_exact_integer (some token) = is_exact_integer_token token

unfoldable pub has_valid_expiration_token : Option Text → Option ℕ → Text → BlockTime → Bool
unfolding is_exact_integer_expiration_active
has_valid_expiration_token token expiration network time =
    is_safe expiration
    && (is_omitted token
        || not (is_exact_integer_expiration_active network time)
        || is_exact_integer token)
