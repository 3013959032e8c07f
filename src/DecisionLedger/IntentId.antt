-- ===== src/DecisionLedger/IntentId.antt =====
-- `defaultIntentIdFor` of packages/decision-ledger/src/decision-ledger.mjs: the 64-bit FNV-1a hash of the
-- parts, by the UTF-16 codes of their characters, written as 16 hexadecimal digits.
use Prim.Native.Char.{code}
use Prim.Native.String.{◌++◌ as append_text}
use text.Mathlib.TextLemmas.{append_cancel_left, nil-append, cons-append}
use Prim.Native.Nat.{◌-◌, ◌/◌, ◌%◌, ◌^◌, bit_xor}
use native.Mathlib.Nat.{mod-lt}
use solana_trading_bot.Prelude.{
  String, ℕ, zero, suc, ◌+◌, ◌*◌, ◌<◌, List, [], ◌∷◌, ◌++◌, template, map, length, ◌≡◌, refl, arith,
  ap, sym, ◌∙◌, ◌↔◌, ltb, if◌then◌else◌,
}

-- `parts.join('|')`, by the codes of the characters.
unfoldable pub join_codes : List (List ℕ) → List ℕ
join_codes [] = []
join_codes (p ∷ []) = p
join_codes (p ∷ q ∷ rest) = p ++ 124 ∷ join_codes (q ∷ rest)

-- One round of the loop.
unfoldable pub mix : ℕ → ℕ → ℕ
mix h c = (bit_xor h c * 1099511628211) % 2 ^ 64

unfoldable pub hash_from : ℕ → List ℕ → ℕ
hash_from h [] = h
hash_from h (c ∷ codes) = hash_from (mix h c) codes

-- The hash, from the offset basis.
unfoldable pub hash : List ℕ → ℕ
hash codes = hash_from 14695981039346656037 codes

-- The last n hexadecimal digits of a number, in their order.
unfoldable pub hex_digits : ℕ → ℕ → List ℕ
hex_digits zero h = []
hex_digits (suc n) h = hex_digits n (h / 16) ++ h % 16 ∷ []

nth : List String → ℕ → String
nth [] n = ""
nth (s ∷ ss) zero = s
nth (s ∷ ss) (suc n) = nth ss n

-- A hexadecimal digit.
pub hex_char : ℕ → String
unfolding nth
hex_char d =
    nth
      ("0" ∷ "1" ∷ "2" ∷ "3" ∷ "4" ∷ "5" ∷ "6" ∷ "7" ∷ "8" ∷ "9" ∷ "a" ∷ "b" ∷ "c" ∷ "d" ∷ "e" ∷ "f"
        ∷ [])
      d

-- `h.toString(16).padStart(16, '0')`, for a number below 2 ^ 64.
abbrev pub padded_digits : ℕ → List ℕ
padded_digits h = hex_digits 16 h

-- `defaultIntentIdFor(parts)`
pub default_intent_id_for : List (List ℕ) → String
default_intent_id_for parts =
    template ("int_" ∷ map hex_char (padded_digits (hash (join_codes parts))))

hash_from-bound : (h : ℕ) (codes : List ℕ) → h < 2 ^ 64 → hash_from h codes < 2 ^ 64
unfolding hash_from mix
hash_from-bound h [] small = small
hash_from-bound h (c ∷ codes) small =
    hash_from-bound (mix h c) codes
      (mod-lt (bit_xor h c * 1099511628211) {m = 2 ^ 64} (omega arith))

-- Reading hexadecimal digits.
pub read_hex : ℕ → List ℕ → ℕ
read_hex acc [] = acc
read_hex acc (d ∷ ds) = read_hex (acc * 16 + d) ds

read_hex-append :
    (acc : ℕ) (ds : List ℕ) (d : ℕ) → read_hex acc (ds ++ d ∷ []) ≡ read_hex acc ds * 16 + d
unfolding read_hex
read_hex-append acc [] d = refl
read_hex-append acc (x ∷ ds) d = read_hex-append (acc * 16 + x) ds d

read_hex-digits : (n h : ℕ) → h < 16 ^ n → read_hex 0 (hex_digits n h) ≡ h
unfolding hex_digits read_hex
read_hex-digits zero h small = omega arith
read_hex-digits (suc n) h small =
    let shorter : h / 16 < 16 ^ n = omega arith in
    let rest = read_hex-digits n (h / 16) shorter in rw (read_hex-append, rest) (omega arith)

length-append_one : (ds : List ℕ) (d : ℕ) → length (ds ++ d ∷ []) ≡ suc (length ds)
length-append_one [] d = refl
length-append_one (x ∷ ds) d = ap suc (length-append_one ds d)

length-hex_digits : (n h : ℕ) → length (hex_digits n h) ≡ n
unfolding hex_digits
length-hex_digits zero h = refl
length-hex_digits (suc n) h = rw (length-append_one, length-hex_digits n (h / 16)) refl

-- Every digit is one of the sixteen.
abbrev pub AllHex : List ℕ → Type 0
AllHex [] = Unit
AllHex (d ∷ ds) = (d < 16) × AllHex ds

AllHex-append : (ds : List ℕ) (d : ℕ) → AllHex ds → d < 16 → AllHex (ds ++ d ∷ [])
AllHex-append [] d h small = (small, tt)
AllHex-append (x ∷ ds) d h small = (h.0, AllHex-append ds d h.1 small)

hex_digits-AllHex : (n h : ℕ) → AllHex (hex_digits n h)
unfolding hex_digits
hex_digits-AllHex zero h = tt
hex_digits-AllHex (suc n) h =
    AllHex-append (hex_digits n (h / 16)) (h % 16) (hex_digits-AllHex n (h / 16)) (omega arith)

-- Reading the digits of a text back.
digit_values : String → List ℕ
digit_values String.[] = []
digit_values (String.◌∷◌ c s) =
    (if ltb (code c) 58 then code c - 48 else code c - 87) ∷ digit_values s

digit_values-append :
    (s t : String) → digit_values (append_text s t) ≡ digit_values s ++ digit_values t
unfolding digit_values
digit_values-append String.[] t = rw nil-append refl
digit_values-append (String.◌∷◌ c s) t = rw (cons-append, digit_values-append s t) refl

digit_values-hex_char : (d : ℕ) → d < 16 → digit_values (hex_char d) ≡ d ∷ []
unfolding digit_values hex_char nth
digit_values-hex_char zero h = refl
digit_values-hex_char (suc zero) h = refl
digit_values-hex_char (suc (suc zero)) h = refl
digit_values-hex_char (suc (suc (suc zero))) h = refl
digit_values-hex_char (suc (suc (suc (suc zero)))) h = refl
digit_values-hex_char (suc (suc (suc (suc (suc zero))))) h = refl
digit_values-hex_char (suc (suc (suc (suc (suc (suc zero)))))) h = refl
digit_values-hex_char (suc (suc (suc (suc (suc (suc (suc zero))))))) h = refl
digit_values-hex_char (suc (suc (suc (suc (suc (suc (suc (suc zero)))))))) h = refl
digit_values-hex_char (suc (suc (suc (suc (suc (suc (suc (suc (suc zero))))))))) h = refl
digit_values-hex_char (suc (suc (suc (suc (suc (suc (suc (suc (suc (suc zero)))))))))) h = refl
digit_values-hex_char (suc (suc (suc (suc (suc (suc (suc (suc (suc (suc (suc zero))))))))))) h =
    refl
digit_values-hex_char (suc (suc (suc (suc (suc (suc (suc (suc (suc (suc (suc (suc zero))))))))))))
      h =
    refl
digit_values-hex_char
      (suc (suc (suc (suc (suc (suc (suc (suc (suc (suc (suc (suc (suc zero))))))))))))) h =
    refl
digit_values-hex_char
      (suc (suc (suc (suc (suc (suc (suc (suc (suc (suc (suc (suc (suc (suc zero)))))))))))))) h =
    refl
digit_values-hex_char
      (suc (suc (suc (suc (suc (suc (suc (suc (suc (suc (suc (suc (suc (suc (suc zero)))))))))))))))
      h =
    refl
digit_values-hex_char
      (suc
        (suc (suc (suc (suc (suc (suc (suc (suc (suc (suc (suc (suc (suc (suc (suc d))))))))))))))))
      h =
    absurd (omega arith)

-- A text of hexadecimal digits reads back as the digits.
digit_values-text : (ds : List ℕ) → AllHex ds → digit_values (template (map hex_char ds)) ≡ ds
unfolding template
digit_values-text [] h = unfold digit_values in refl
digit_values-text (d ∷ ds) h =
    rw
      (
        digit_values-append (hex_char d) (template (map hex_char ds)),
        digit_values-hex_char d h.0,
        digit_values-text ds h.1,
      )
      refl

hash-bound : (codes : List ℕ) → hash codes < 2 ^ 64
unfolding hash
hash-bound codes = hash_from-bound 14695981039346656037 codes (omega arith)

-- The digits of an id are those of the hash.
id-digits :
    (ps qs : List (List ℕ))
    → default_intent_id_for ps ≡ default_intent_id_for qs
    → padded_digits (hash (join_codes ps)) ≡ padded_digits (hash (join_codes qs))
unfolding default_intent_id_for template
id-digits ps qs h =
    let tails =
      append_cancel_left "int_" (template (map hex_char (padded_digits (hash (join_codes ps)))))
        (template (map hex_char (padded_digits (hash (join_codes qs))))) h in
    sym (digit_values-text _ (hex_digits-AllHex 16 (hash (join_codes ps))))
    ∙ ap digit_values tails
    ∙ digit_values-text _ (hex_digits-AllHex 16 (hash (join_codes qs)))

-- Two lists of parts have one id exactly if they have one hash: the text of the id, the prefix int_ and
-- 16 characters that stand for digits below 16, keeps the whole 64-bit hash. Of the hash itself this says
-- only that it is below 2 ^ 64.
pub one_id_iff_one_hash :
    (ps qs : List (List ℕ))
    → (hash (join_codes ps) < 2 ^ 64)
      × (length (padded_digits (hash (join_codes ps))) ≡ 16)
      × AllHex (padded_digits (hash (join_codes ps)))
      × ((default_intent_id_for ps ≡ default_intent_id_for qs)
          ↔ (hash (join_codes ps) ≡ hash (join_codes qs)))
unfolding default_intent_id_for
one_id_iff_one_hash ps qs =
    let small = hash-bound (join_codes ps) in
    let small_too = hash-bound (join_codes qs) in
    (
      small,
      length-hex_digits 16 (hash (join_codes ps)),
      hex_digits-AllHex 16 (hash (join_codes ps)),
      (
        λ same.
            sym (read_hex-digits 16 (hash (join_codes ps)) small)
            ∙ ap (read_hex 0) (id-digits ps qs same)
            ∙ read_hex-digits 16 (hash (join_codes qs)) small_too,
        λ same. ap (λ h. template ("int_" ∷ map hex_char (padded_digits h))) same,
      ),
    )
