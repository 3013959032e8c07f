-- ===== src/Config/Clean.antt =====
-- What follows where the checks of the configuration push no error and no unknown name.
use solana_trading_bot.Prelude.{
  String, true, false, ◌&&◌, ◌≡◌, inl, inr, refl, sym, List, [], ◌∷◌, ◌++◌, some, str_eq, arith,
  Bool-cases, Option-cases, if◌then◌else◌,
}
use mathlib.Core.List.{Memᴰ}
use mathlib.Core.List.Memᴰ
use mathlib.Core.Path.{subst}
use mathlib.Core.Option.{some-injective}
use solana_trading_bot.Prelude.Values.{Value}
use solana_trading_bot.Store.{Store, lookup, eq_of_str_eq}
use solana_trading_bot.LiveModel.{value_at, present}
use solana_trading_bot.Config.Rules.{Field, FieldRule, check_rule}
use solana_trading_bot.Config.{
  ConfigObject, ConfigTree, Section, Output, nothing, and_then, all_of, validate_flat_section,
  validate_wallet_entry, validate_each, check_entry, check_entries, rule_of, is_unset, names_of,
}
use solana_trading_bot.Config.Validate.{
  is_nil, is_clean, missing_names, section_at, is_per_wallet, validate_sections,
}

is_nil-append {ℓ} : {A : Type ℓ} (xs ys : List A) → is_nil (xs ++ ys) ≡ (is_nil xs && is_nil ys)
is_nil-append [] ys = refl
is_nil-append (x ∷ xs) ys = refl

pub is_clean-and_then : (a b : Output) → is_clean (and_then a b) ≡ (is_clean a && is_clean b)
is_clean-and_then a b =
    ground (arith, is_nil-append a.errors b.errors, is_nil-append a.unknown_names b.unknown_names)

pub clean_first : (a b : Output) → is_clean (and_then a b) ≡ true → is_clean a ≡ true
clean_first a b h = let e = is_clean-and_then a b in ground arith

pub clean_second : (a b : Output) → is_clean (and_then a b) ≡ true → is_clean b ≡ true
clean_second a b h = let e = is_clean-and_then a b in ground arith

-- Where checks are clean together, each is.
pub clean_each :
    {a : Output} {outs : List Output}
    → Memᴰ a outs
    → is_clean (all_of outs) ≡ true
    → is_clean a ≡ true
unfolding all_of
clean_each {a = a} {outs = []} m h = absurd (Memᴰ.not-nil m)
clean_each {a = a} {outs = b ∷ rest} m h = elim (Memᴰ.cases_cons m) [
  | inl same ↦ rw same (clean_first b (all_of rest) h)
  | inr later ↦ clean_each later (clean_second b (all_of rest) h)
]

-- A clean loop over the sections means that each is clean.
pub clean_section :
    (objects : List ConfigObject) (c : ConfigTree) (object : ConfigObject)
    → is_clean (validate_sections objects c) ≡ true
    → Memᴰ object objects
    → is_per_wallet object ≡ false
    → is_clean (validate_flat_section object (section_at c object)) ≡ true
unfolding validate_sections
clean_section [] c object h m flat = absurd (Memᴰ.not-nil m)
clean_section (x ∷ objects) c object h m flat =
    let here = if is_per_wallet x then nothing else validate_flat_section x (section_at c x) in
    elim (Memᴰ.cases_cons m) [
      | inl same ↦
          let e : is_clean here ≡ true = clean_first here (validate_sections objects c) h in
          rw (← same, flat) at e
      | inr later ↦
          clean_section objects c object (clean_second here (validate_sections objects c) h) later
            flat
    ]

-- A clean loop over the wallets means that each entry is clean.
pub clean_wallet :
    (ws : List (String × Section)) (wallet_id : String) (entry : Section)
    → is_clean (validate_each ws) ≡ true
    → Memᴰ {A = String × Section} (wallet_id, entry) ws
    → is_clean (validate_wallet_entry wallet_id entry) ≡ true
unfolding validate_each
clean_wallet [] wallet_id entry h m = absurd (Memᴰ.not-nil m)
clean_wallet ((j, x) ∷ ws) wallet_id entry h m = elim (Memᴰ.cases_cons m) [
  | inl same ↦
      subst (λ (y : String × Section). is_clean (validate_wallet_entry y.0 y.1) ≡ true) (sym same)
        (clean_first (validate_wallet_entry j x) (validate_each ws) h)
  | inr later ↦
      clean_wallet ws wallet_id entry
        (clean_second (validate_wallet_entry j x) (validate_each ws) h) later
]

-- An entry of a clean section is clean.
pub clean_entry :
    (place : String) (spec : Store Field) (obj : Store Value) (key : String) (v : Value)
    → is_clean (check_entries place spec obj) ≡ true
    → lookup key obj ≡ some v
    → is_clean (check_entry place spec key v) ≡ true
unfolding check_entries lookup
clean_entry place spec [] key v h found = absurd (ground arith)
clean_entry place spec ((j, w) ∷ obj) key v h found = elim (Bool-cases (str_eq j key)) [
  | inl same ↦
      let here = clean_first (check_entry place spec j w) (check_entries place spec obj) h in
      let q : w ≡ v = some-injective _ _ (rw same at found) in
      rw (← eq_of_str_eq j key same, ← q) here
  | inr other ↦
      clean_entry place spec obj key v
        (clean_second (check_entry place spec j w) (check_entries place spec obj) h)
        (rw other at found)
]

-- A clean entry that is set passes its rule.
pub clean_value :
    (place : String) (spec : Store Field) (key : String) (v : Value) (rule : FieldRule)
    → is_clean (check_entry place spec key v) ≡ true
    → rule_of spec key ≡ some rule
    → is_unset v ≡ false
    → check_rule rule v ≡ true
unfolding check_entry
clean_value place spec key v rule h has_rule set = elim (Bool-cases (check_rule rule v)) [
  | inl right ↦ right
  | inr wrong ↦ absurd (ground arith)
]

pub value_at-lookup :
    (key : String) (obj : Store Value) (v : Value)
    → value_at key obj ≡ some v
    → (lookup key obj ≡ some v) × (is_unset v ≡ false)
value_at-lookup key obj v h = elim (Option-cases (lookup key obj)) [
  | inl missing ↦ absurd (ground arith)
  | inr (w, found) ↦
      let p : present (some w) ≡ some v = rw found at h in
      let (same, set) = is_present w v p in (rw (found, same) refl, set)
]
  where
    is_present : (w v : Value) → present (some w) ≡ some v → (w ≡ v) × (is_unset v ≡ false)
    is_present Value.undefined v q = absurd (ground arith)
    is_present Value.null v q = absurd (ground arith)
    is_present Value.nan v q = let e = some-injective _ _ q in (e, rw (← e) refl)
    is_present Value.infinity v q = let e = some-injective _ _ q in (e, rw (← e) refl)
    is_present Value.negative_infinity v q = let e = some-injective _ _ q in (e, rw (← e) refl)
    is_present Value.object v q = let e = some-injective _ _ q in (e, rw (← e) refl)
    is_present Value.array v q = let e = some-injective _ _ q in (e, rw (← e) refl)
    is_present Value.other v q = let e = some-injective _ _ q in (e, rw (← e) refl)
    is_present (Value.text t) v q = let e = some-injective _ _ q in (e, rw (← e) refl)
    is_present (Value.number n) v q = let e = some-injective _ _ q in (e, rw (← e) refl)
    is_present (Value.boolean b) v q = let e = some-injective _ _ q in (e, rw (← e) refl)

-- A set value of a clean section passes the rule of its field.
pub clean_field :
    (place : String) (spec : Store Field) (obj : Store Value) (key : String) (f : Field) (v : Value)
    → is_clean (check_entries place spec obj) ≡ true
    → lookup key spec ≡ some f
    → value_at key obj ≡ some v
    → check_rule f.rule v ≡ true
clean_field place spec obj key f v h known set =
    let (found, not_null) = value_at-lookup key obj v set in
    clean_value place spec key v f.rule (clean_entry place spec obj key v h found) (ground arith)
      not_null

-- No field of a spec is missing where none is listed as missing.
pub none_missing :
    (spec : Store Field) (obj : Store Value) (key : String) (f : Field)
    → is_nil (missing_names (names_of spec) obj) ≡ true
    → lookup key spec ≡ some f
    → (v : Value) × (value_at key obj ≡ some v)
unfolding missing_names lookup
none_missing [] obj key f h known = absurd (ground arith)
none_missing ((j, g) ∷ spec) obj key f h known = elim (Option-cases (value_at j obj)) [
  | inl missing ↦ absurd (ground arith)
  | inr (v, set) ↦ elim (Bool-cases (str_eq j key)) [
    | inl same ↦ (v, rw (← eq_of_str_eq j key same) set)
    | inr other ↦ none_missing spec obj key f (ground arith) (rw other at known)
  ]
]
