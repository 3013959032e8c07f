-- ===== src/Prelude/Decimal.antt =====
-- A number in a template text: its decimal digits. Two numbers with one text are equal, so ids that are
-- made from a counter do not repeat.
use Prim.Native.Nat.{ℕ, zero, suc, ◌+◌, ◌*◌, ◌-◌, ◌/◌, ◌%◌, ◌<◌}
use Prim.Native.Char.{code}
use Prim.Native.String.{String, ◌++◌}
use text.Mathlib.TextLemmas.{append_cancel_left, nil-append, cons-append}
use mathlib.Core.Path.{◌≡◌, refl, sym, ap, ◌∙◌}
use mathlib.Core.List.{List, [], ◌∷◌}
use native.Mathlib.Omega.{arith}
use solana_trading_bot.Prelude.Tests.{ltb, ◌==◌, if◌then◌else◌, leb}
use mathlib.Core.Bool.{Bool, true, ◌&&◌}

-- The digits, the last one first; `n + 1` rounds are more than enough.
unfoldable pub digits_of : ℕ → ℕ → List ℕ
digits_of zero n = []
digits_of (suc fuel) n =
    let rest = digits_of fuel (n / 10) in if ltb n 10 then n ∷ [] else (n % 10) ∷ rest

unfoldable pub digit : ℕ → String
digit d =
    if d == 0
    then "0"
    else if d == 1
    then "1"
    else if d == 2
    then "2"
    else if d == 3
    then "3"
    else if d == 4
    then "4"
    else if d == 5
    then "5"
    else if d == 6
    then "6"
    else if d == 7
    then "7"
    else if d == 8
    then "8"
    else "9"

unfoldable pub text_of : List ℕ → String
text_of [] = ""
text_of (d ∷ ds) = text_of ds ++ digit d

-- `${n}`
unfoldable pub decimal : ℕ → String
unfolding text_of digits_of digit
decimal n = text_of (digits_of (suc n) n)

-- Reading a text of digits back.
read : ℕ → String → ℕ
read acc String.[] = acc
read acc (String.◌∷◌ c s) = read (acc * 10 + (code c - 48)) s

read-append : (s t : String) (acc : ℕ) → read acc (s ++ t) ≡ read (read acc s) t
unfolding read
read-append String.[] t acc = rw nil-append
read-append (String.◌∷◌ c s) t acc = rw cons-append (read-append s t (acc * 10 + (code c - 48)))

read-digit : (acc d : ℕ) → d < 10 → read acc (digit d) ≡ acc * 10 + d
unfolding read digit
read-digit acc zero h = omega arith
read-digit acc (suc zero) h = omega arith
read-digit acc (suc (suc zero)) h = omega arith
read-digit acc (suc (suc (suc zero))) h = omega arith
read-digit acc (suc (suc (suc (suc zero)))) h = omega arith
read-digit acc (suc (suc (suc (suc (suc zero))))) h = omega arith
read-digit acc (suc (suc (suc (suc (suc (suc zero)))))) h = omega arith
read-digit acc (suc (suc (suc (suc (suc (suc (suc zero))))))) h = omega arith
read-digit acc (suc (suc (suc (suc (suc (suc (suc (suc zero)))))))) h = omega arith
read-digit acc (suc (suc (suc (suc (suc (suc (suc (suc (suc zero))))))))) h = omega arith
read-digit acc (suc (suc (suc (suc (suc (suc (suc (suc (suc (suc d)))))))))) h =
    absurd (omega arith)

value : List ℕ → ℕ
value [] = 0
value (d ∷ ds) = value ds * 10 + d

abbrev Small : List ℕ → Type 0
Small [] = Unit
Small (d ∷ ds) = (d < 10) × Small ds

read-text_of : (ds : List ℕ) → Small ds → read 0 (text_of ds) ≡ value ds
unfolding text_of value
read-text_of [] h = unfold read in refl
read-text_of (d ∷ ds) h =
    rw (read-append (text_of ds) (digit d) 0, read-text_of ds h.1) (read-digit (value ds) d h.0)

digits_of-Small : (fuel n : ℕ) → Small (digits_of fuel n)
unfolding digits_of
digits_of-Small zero n = tt
digits_of-Small (suc fuel) n = ground (arith, digits_of-Small fuel (n / 10))

value-digits_of : (fuel n : ℕ) → n < fuel → value (digits_of fuel n) ≡ n
unfolding digits_of value
value-digits_of zero n h = absurd (omega arith)
value-digits_of (suc fuel) n h = ground (arith, value-digits_of fuel (n / 10))

read-decimal : (n : ℕ) → read 0 (decimal n) ≡ n
unfolding decimal
read-decimal n =
    read-text_of (digits_of (suc n) n) (digits_of-Small (suc n) n)
    ∙ value-digits_of (suc n) n (omega arith)

-- The number that a text of digits shows.
pub read_decimal : String → ℕ
read_decimal s = read 0 s

pub read_decimal-decimal : (n : ℕ) → read_decimal (decimal n) ≡ n
unfolding read_decimal
read_decimal-decimal n = read-decimal n

-- Whether a text has no character but ASCII digits.
pub all_digits : String → Bool
all_digits String.[] = true
all_digits (String.◌∷◌ c s) = leb 48 (code c) && ltb (code c) 58 && all_digits s

all_digits-append :
    (s t : String) → all_digits s ≡ true → all_digits t ≡ true → all_digits (s ++ t) ≡ true
unfolding all_digits
all_digits-append String.[] t hs ht = rw nil-append ht
all_digits-append (String.◌∷◌ c s) t hs ht =
    let rest = all_digits-append s t (ground arith) ht in rw (cons-append, rest) (ground arith)

all_digits-digit : (d : ℕ) → d < 10 → all_digits (digit d) ≡ true
unfolding all_digits digit
all_digits-digit zero h = refl
all_digits-digit (suc zero) h = refl
all_digits-digit (suc (suc zero)) h = refl
all_digits-digit (suc (suc (suc zero))) h = refl
all_digits-digit (suc (suc (suc (suc zero)))) h = refl
all_digits-digit (suc (suc (suc (suc (suc zero))))) h = refl
all_digits-digit (suc (suc (suc (suc (suc (suc zero)))))) h = refl
all_digits-digit (suc (suc (suc (suc (suc (suc (suc zero))))))) h = refl
all_digits-digit (suc (suc (suc (suc (suc (suc (suc (suc zero)))))))) h = refl
all_digits-digit (suc (suc (suc (suc (suc (suc (suc (suc (suc zero))))))))) h = refl
all_digits-digit (suc (suc (suc (suc (suc (suc (suc (suc (suc (suc d)))))))))) h =
    absurd (omega arith)

all_digits-text_of : (ds : List ℕ) → Small ds → all_digits (text_of ds) ≡ true
unfolding text_of
all_digits-text_of [] h = unfold all_digits in refl
all_digits-text_of (d ∷ ds) h =
    all_digits-append (text_of ds) (digit d) (all_digits-text_of ds h.1) (all_digits-digit d h.0)

pub all_digits-decimal : (n : ℕ) → all_digits (decimal n) ≡ true
unfolding decimal
all_digits-decimal n = all_digits-text_of (digits_of (suc n) n) (digits_of-Small (suc n) n)

pub decimal_injective : (m n : ℕ) → decimal m ≡ decimal n → m ≡ n
decimal_injective m n h = sym (read-decimal m) ∙ ap (read 0) h ∙ read-decimal n

-- An id made of a prefix and a counter.
unfoldable pub counter_id : String → ℕ → String
unfolding decimal
counter_id prefix n = prefix ++ decimal n

pub counter_id_injective :
    (prefix : String) (m n : ℕ) → counter_id prefix m ≡ counter_id prefix n → m ≡ n
unfolding counter_id
counter_id_injective prefix m n h =
    decimal_injective m n (append_cancel_left prefix (decimal m) (decimal n) h)

decimal_103 : decimal 103 ≡ "103"
unfolding decimal
decimal_103 = refl
