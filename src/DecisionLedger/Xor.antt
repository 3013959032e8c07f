-- ===== src/DecisionLedger/Xor.antt =====
-- The exclusive or in the hash of the default ids: it can be undone from either side, and it stays below a
-- power of two.
use Prim.Native.Nat.{◌/◌, ◌%◌, ◌^◌, bit_xor, bit_xor-bitwise, digits, differ}
use solana_trading_bot.Prelude.{ℕ, zero, suc, ◌+◌, ◌*◌, ◌<◌, ◌≤◌, ◌≡◌, refl, sym, ◌∙◌, arith}

-- The exclusive or on a number of digits.
abbrev xor_on : ℕ → ℕ → ℕ → ℕ
xor_on n a b = digits (λ b. b) differ n a b

xor_on-zero : (n b : ℕ) → xor_on n zero b ≡ b
xor_on-zero zero b = refl
xor_on-zero (suc n) b = refl

differ-zero : (b : ℕ) → differ zero b ≡ b
differ-zero b = refl

xor_on-step :
    (n a b : ℕ) → xor_on (suc n) a b ≡ xor_on n (a / 2) (b / 2) * 2 + differ (a % 2) (b % 2)
xor_on-step n zero b = rw (xor_on-zero n (b / 2)) (omega arith)
xor_on-step n (suc a) b = refl

differ-bound : (p q : ℕ) → p < 2 → q < 2 → differ p q < 2
differ-bound zero q hp hq = hq
differ-bound (suc zero) zero hp hq = omega arith
differ-bound (suc zero) (suc q) hp hq = omega arith
differ-bound (suc (suc p)) q hp hq = absurd (omega arith)

differ-right : (p q r : ℕ) → p < 2 → q < 2 → r < 2 → differ p q ≡ differ p r → q ≡ r
differ-right zero q r hp hq hr h = h
differ-right (suc zero) zero zero hp hq hr h = refl
differ-right (suc zero) zero (suc zero) hp hq hr h = absurd (omega arith)
differ-right (suc zero) (suc zero) zero hp hq hr h = absurd (omega arith)
differ-right (suc zero) (suc zero) (suc zero) hp hq hr h = refl
differ-right (suc zero) (suc (suc q)) r hp hq hr h = absurd (omega arith)
differ-right (suc zero) q (suc (suc r)) hp hq hr h = absurd (omega arith)
differ-right (suc (suc p)) q r hp hq hr h = absurd (omega arith)

differ_comm : (p q : ℕ) → differ p q ≡ differ q p
differ_comm zero zero = refl
differ_comm zero (suc q) = refl
differ_comm (suc p) zero = refl
differ_comm (suc p) (suc q) = differ_comm p q

-- From the remainder and the quotient by 2.
halves_eq : (b c : ℕ) → b / 2 ≡ c / 2 → b % 2 ≡ c % 2 → b ≡ c
halves_eq b c q r = omega arith

xor_on-right : (n a b c : ℕ) → xor_on n a b ≡ xor_on n a c → b ≡ c
xor_on-right zero a b c h = h
xor_on-right (suc n) a b c h =
    let s = sym (xor_on-step n a b) ∙ h ∙ xor_on-step n a c in
    let db = differ-bound (a % 2) (b % 2) (omega arith) (omega arith) in
    let dc = differ-bound (a % 2) (c % 2) (omega arith) (omega arith) in
    let high : xor_on n (a / 2) (b / 2) ≡ xor_on n (a / 2) (c / 2) = omega arith in
    let low : differ (a % 2) (b % 2) ≡ differ (a % 2) (c % 2) = omega arith in
    halves_eq b c (xor_on-right n (a / 2) (b / 2) (c / 2) high)
      (differ-right (a % 2) (b % 2) (c % 2) (omega arith) (omega arith) (omega arith) low)

-- With a count of digits that is enough for both.
xor_on-left : (n a b c : ℕ) → a ≤ n → b ≤ n → xor_on n a c ≡ xor_on n b c → a ≡ b
xor_on-left zero a b c ha hb h = omega arith
xor_on-left (suc n) a b c ha hb h =
    let s = sym (xor_on-step n a c) ∙ h ∙ xor_on-step n b c in
    let da = differ-bound (a % 2) (c % 2) (omega arith) (omega arith) in
    let db = differ-bound (b % 2) (c % 2) (omega arith) (omega arith) in
    let high : xor_on n (a / 2) (c / 2) ≡ xor_on n (b / 2) (c / 2) = omega arith in
    let low : differ (a % 2) (c % 2) ≡ differ (b % 2) (c % 2) = omega arith in
    halves_eq a b (xor_on-left n (a / 2) (b / 2) (c / 2) (omega arith) (omega arith) high) (
      differ-right (c % 2) (a % 2) (b % 2) (omega arith) (omega arith) (omega arith)
        (differ_comm (c % 2) (a % 2) ∙ low ∙ differ_comm (b % 2) (c % 2)))

-- More digits than the first number has change nothing.
xor_on-enough : (n m a b : ℕ) → a ≤ n → a ≤ m → xor_on n a b ≡ xor_on m a b
xor_on-enough zero m a b hn hm = let q : a ≡ 0 = omega arith in rw (q, xor_on-zero m b) refl
xor_on-enough (suc n) zero a b hn hm =
    let q : a ≡ 0 = omega arith in rw (q, xor_on-zero (suc n) b) refl
xor_on-enough (suc n) (suc m) a b hn hm =
    let rest = xor_on-enough n m (a / 2) (b / 2) (omega arith) (omega arith) in
    let sn = xor_on-step n a b in let sm = xor_on-step m a b in omega arith

xor_on-bound : (k n a b : ℕ) → a < 2 ^ k → b < 2 ^ k → xor_on n a b < 2 ^ k
xor_on-bound k zero a b ha hb = hb
xor_on-bound zero (suc n) a b ha hb =
    let q : a ≡ 0 = omega arith in rw (q, xor_on-zero (suc n) b) hb
xor_on-bound (suc k) (suc n) a b ha hb =
    let rest = xor_on-bound k n (a / 2) (b / 2) (omega arith) (omega arith) in
    let d = differ-bound (a % 2) (b % 2) (omega arith) (omega arith) in
    let s = xor_on-step n a b in omega arith

bit_xor_digits : (a b : ℕ) → bit_xor a b ≡ xor_on a a b
bit_xor_digits a b = bit_xor-bitwise a b

pub bit_xor-right : (a b c : ℕ) → bit_xor a b ≡ bit_xor a c → b ≡ c
bit_xor-right a b c h = xor_on-right a a b c (sym (bit_xor_digits a b) ∙ h ∙ bit_xor_digits a c)

pub bit_xor-left : (a b c : ℕ) → bit_xor a c ≡ bit_xor b c → a ≡ b
bit_xor-left a b c h = xor_on-left (a + b) a b c (omega arith) (omega arith) (
    xor_on-enough (a + b) a a c (omega arith) (omega arith)
    ∙ sym (bit_xor_digits a c)
    ∙ h
    ∙ bit_xor_digits b c
    ∙ xor_on-enough b (a + b) b c (omega arith) (omega arith))

pub bit_xor-bound : (k a b : ℕ) → a < 2 ^ k → b < 2 ^ k → bit_xor a b < 2 ^ k
bit_xor-bound k a b ha hb = rw (bit_xor_digits a b) (xor_on-bound k a a b ha hb)
