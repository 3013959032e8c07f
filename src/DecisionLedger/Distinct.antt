-- ===== src/DecisionLedger/Distinct.antt =====
-- Default ids of parts that differ in one character.
use Prim.Native.Nat.{◌%◌, ◌^◌, bit_xor}
use native.Mathlib.Nat.{mod-lt}
use solana_trading_bot.Prelude.{ℕ, ◌*◌, ◌<◌, ◌≡◌, ◌≢◌, List, [], ◌∷◌, ◌++◌, arith}
use solana_trading_bot.DecisionLedger.Xor.{bit_xor-left, bit_xor-right, bit_xor-bound}
use solana_trading_bot.DecisionLedger.IntentId.{
  join_codes, mix, hash_from, hash, default_intent_id_for, one_id_iff_one_hash,
}

-- The codes of UTF-16.
abbrev pub AllCodes : List ℕ → Type 0
AllCodes [] = Unit
AllCodes (c ∷ codes) = (c < 65536) × AllCodes codes

-- The multiplier is odd, so multiplying by it loses nothing of 64 bits.
multiplied_eq :
    (x y : ℕ)
    → x < 2 ^ 64
    → y < 2 ^ 64
    → (x * 1099511628211) % 2 ^ 64 ≡ (y * 1099511628211) % 2 ^ 64
    → x ≡ y
multiplied_eq x y hx hy h = omega arith

mix-bound : (h c : ℕ) → mix h c < 2 ^ 64
unfolding mix
mix-bound h c = mod-lt (bit_xor h c * 1099511628211) {m = 2 ^ 64} (omega arith)

-- A round can be undone, from the character and from the hash before it.
mix-right : (h c d : ℕ) → h < 2 ^ 64 → c < 65536 → d < 65536 → mix h c ≡ mix h d → c ≡ d
unfolding mix
mix-right h c d hh hc hd e = bit_xor-right h c d (
    multiplied_eq (bit_xor h c) (bit_xor h d) (bit_xor-bound 64 h c hh (omega arith))
      (bit_xor-bound 64 h d hh (omega arith)) e)

mix-left : (g h c : ℕ) → g < 2 ^ 64 → h < 2 ^ 64 → c < 65536 → mix g c ≡ mix h c → g ≡ h
unfolding mix
mix-left g h c hg hh hc e = bit_xor-left g h c (
    multiplied_eq (bit_xor g c) (bit_xor h c) (bit_xor-bound 64 g c hg (omega arith))
      (bit_xor-bound 64 h c hh (omega arith)) e)

-- The same characters after two hashes keep them apart.
hash_from-left :
    (g h : ℕ) (codes : List ℕ)
    → g < 2 ^ 64
    → h < 2 ^ 64
    → AllCodes codes
    → hash_from g codes ≡ hash_from h codes
    → g ≡ h
unfolding hash_from
hash_from-left g h [] hg hh all e = e
hash_from-left g h (c ∷ codes) hg hh all e =
    mix-left g h c hg hh all.0
      (hash_from-left (mix g c) (mix h c) codes (mix-bound g c) (mix-bound h c) all.1 e)

-- One other character between the same characters gives another hash.
hash_from-one_change :
    (h c d : ℕ) (before after : List ℕ)
    → h < 2 ^ 64
    → c < 65536
    → d < 65536
    → AllCodes after
    → hash_from h (before ++ c ∷ after) ≡ hash_from h (before ++ d ∷ after)
    → c ≡ d
unfolding hash_from
hash_from-one_change h c d [] after hh hc hd all e =
    mix-right h c d hh hc hd
      (hash_from-left (mix h c) (mix h d) after (mix-bound h c) (mix-bound h d) all e)
hash_from-one_change h c d (x ∷ before) after hh hc hd all e =
    hash_from-one_change (mix h x) c d before after (mix-bound h x) hc hd all e

-- Two lists of parts whose joined texts, as UTF-16 codes, differ in exactly one character have different
-- default ids.
pub one_change_changes_id :
    (ps qs : List (List ℕ)) (c d : ℕ) (before after : List ℕ)
    → join_codes ps ≡ before ++ c ∷ after
    → join_codes qs ≡ before ++ d ∷ after
    → c < 65536
    → d < 65536
    → AllCodes after
    → c ≢ d
    → default_intent_id_for ps ≢ default_intent_id_for qs
unfolding hash
one_change_changes_id ps qs c d before after jp jq hc hd all differ same =
    let e = (one_id_iff_one_hash ps qs).3.0 same in
    differ (
      hash_from-one_change 14695981039346656037 c d before after (omega arith) hc hd all
        (rw (jp, jq) at e))
