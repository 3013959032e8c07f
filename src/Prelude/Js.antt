-- ===== src/Prelude/Js.antt =====
-- What the handlers of the packages share: a request's fields as JavaScript values, the reply of a
-- command, and the error codes of contracts/src/api-vocabulary.mjs.
use Prim.Native.Nat.{ℕ, ◌*◌, ◌^◌, ◌%◌}
use Prim.Native.String.{String, ◌++◌}
use text.Mathlib.Text.{◌==◌}
use mathlib.Core.Bool.{Bool, true, false, not, ◌&&◌, ◌||◌}
use mathlib.Core.Option.{Option, none, some}
use mathlib.Core.List.{List, [], ◌∷◌}
use solana_trading_bot.Prelude.Tests.{if◌then◌else◌, ltb, leb, ◌==◌ as nat_eq}

-- A field of a request that the code tests before it uses it: `absent` is undefined or null,
-- `foreign` is any value outside the type `E` (a string outside the vocabulary, a number where a
-- text is wanted), and `given e` is a value of it.
pub data Arg {ℓ} (E : Type ℓ) : Type ℓ where
  absent : Arg E
  foreign : Arg E
  given : E → Arg E

-- `VOCABULARY.includes(x)`, with the word that was found.
abbrev pub includes {ℓ} : {E : Type ℓ} → Arg E → Option E
includes absent = none
includes foreign = none
includes (given e) = some e

-- `x != null`
abbrev pub is_present {ℓ} : {E : Type ℓ} → Arg E → Bool
is_present absent = false
is_present _ = true

abbrev pub is_empty : String → Bool
is_empty s = s == ""

-- `isStr`: a text that is not empty.
abbrev pub is_str : Arg String → Option String
is_str absent = none
is_str foreign = none
is_str (given s) = if is_empty s then none else some s

-- API_ERROR_CODE, the codes that the modelled packages answer with.
pub data ApiErrorCode : Type 0 where
  idempotency_conflict permission_denied command_not_allowed_in_state real_live_config_invalid :
      ApiErrorCode

abbrev pub api_error_code_name : ApiErrorCode → String
api_error_code_name idempotency_conflict = "IDEMPOTENCY_CONFLICT"
api_error_code_name permission_denied = "PERMISSION_DENIED"
api_error_code_name command_not_allowed_in_state = "COMMAND_NOT_ALLOWED_IN_STATE"
api_error_code_name real_live_config_invalid = "REAL_LIVE_CONFIG_INVALID"

-- `x === text` for a field of a request.
abbrev pub same_text : Arg String → String → Bool
same_text (given x) y = x == y
same_text _ y = false

-- A command's answer: `{ ok: true, … }`, or `{ ok: false, reason, api_error_code? }`.
pub data Reply {ℓ} (R A : Type ℓ) : Type ℓ where
  ok : A → Reply R A
  refused : R → Reply R A
  coded : ApiErrorCode → R → Reply R A

abbrev pub is_ok {ℓ} : {R A : Type ℓ} → Reply R A → Bool
is_ok (ok a) = true
is_ok _ = false

-- A template text from its pieces.
unfoldable pub template : List String → String
template [] = ""
template (s ∷ ss) = s ++ template ss

-- A finite number: an IEEE double is its sign, its mantissa and its exponent, here over the bias.
pub record Number : Type 0 where
  pub negative : Bool
  pub mantissa : ℕ
  pub exponent : ℕ

-- `x > 0`
abbrev pub gt_zero : Number → Bool
gt_zero x = not x.negative && ltb 0 x.mantissa

-- `x >= 0`; a negative zero is not below zero.
abbrev pub ge_zero : Number → Bool
ge_zero x = not x.negative || nat_eq x.mantissa 0

-- The magnitude times 2 ^ 1075, which is a whole number.
unfoldable pub magnitude : Number → ℕ
magnitude x = x.mantissa * 2 ^ x.exponent

-- `x <= n` for a whole number n.
unfoldable pub at_most : ℕ → Number → Bool
unfolding magnitude
at_most n x = x.negative || leb (magnitude x) (n * 2 ^ 1075)

-- `Number.isInteger(x)`
unfoldable pub is_integer : Number → Bool
unfolding magnitude
is_integer x = nat_eq (magnitude x % 2 ^ 1075) 0

-- `x < y`
unfoldable pub less : Number → Number → Bool
unfolding magnitude
less x y =
    if x.negative
    then (if y.negative
        then ltb (magnitude y) (magnitude x)
        else not (nat_eq (magnitude x) 0 && nat_eq (magnitude y) 0))
    else not y.negative && ltb (magnitude x) (magnitude y)
