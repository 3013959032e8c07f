-- ===== src/LiveModel/Conformance.antt =====
-- `validateEntity` against a description of what conforms to a spec.
use solana_trading_bot.Prelude.{
  String, ◌≡◌, refl, sym, ◌↔◌, ◌⊎◌, inl, inr, true, false, arith, Option, none, some, List, [], ◌∷◌,
  str_eq, Bool-cases, Option-cases,
}
use solana_trading_bot.Prelude.Values.{Value}
use mathlib.Core.Option.{some-injective}
use mathlib.Core.Path.{subst}
use mathlib.Core.List.{Memᴰ}
use mathlib.Core.List.Memᴰ
use solana_trading_bot.Store.{Store, eq_of_str_eq, str_eq_refl}
use solana_trading_bot.LiveModel.Rules.{Rule, Spec, is_type, is_word, mentions}
use solana_trading_bot.LiveModel.Entities.{
  Entity, entity_name, live_model_entities, entity_spec, data_ownership, leader_wallet,
  leader_trade, detected_signal, token_candidate, market_snapshot, route_quote, risk_budget,
  decision, execution_intent, execution_plan, signed_transaction, broadcast_attempt, confirmation,
  fill, position, exit_plan, incident, audit_event, diagnostic_run, simulation_result,
  connectivity_check,
}
use solana_trading_bot.LiveModel.{
  FieldError, fields, value_at, check_value, check_field, check_fields, validate_entity,
  find_entity, is_valid,
}

-- A value, or none, is right for a rule: left out where it is not required, of the rule's type, and one of
-- its words where the rule has words.
pub data Satisfies (rule : Rule) : Option Value → Type 0 where
  left_out : rule.required ≡ false → Satisfies rule none
  plain : (v : Value) → rule.words ≡ none → is_type rule.type v ≡ true → Satisfies rule (some v)
  listed :
      (w : String) (ws : List String)
      → rule.words ≡ some ws
      → Memᴰ w ws
      → is_type rule.type (Value.text w) ≡ true
      → Satisfies rule (some (Value.text w))

-- Every field of the spec is right.
pub Conforms : Spec → Store Value → Type 0
Conforms spec obj =
    (field : String) (rule : Rule)
    → Memᴰ {A = String × Rule} (field, rule) spec
    → Satisfies rule (value_at field obj)

-- A field of a conforming object is right.
pub Conforms-field :
    (spec : Spec) (obj : Store Value) (field : String) (rule : Rule)
    → Conforms spec obj
    → Memᴰ {A = String × Rule} (field, rule) spec
    → Satisfies rule (value_at field obj)
unfolding Conforms
Conforms-field spec obj field rule conforms m = conforms field rule m

mentions_iff : (ws : List String) (w : String) → (mentions ws w ≡ true) ↔ Memᴰ w ws
mentions_iff [] w = (λ h. absurd (ground arith), λ m. absurd (Memᴰ.not-nil m))
mentions_iff (x ∷ ws) w = (
  λ h. elim (Bool-cases (str_eq x w)) [
    | inl same ↦ Memᴰ.head (sym (eq_of_str_eq x w same))
    | inr other ↦ Memᴰ.tail ((mentions_iff ws w).0 (rw other at h))
  ],
  λ m. elim (Memᴰ.cases_cons m) [
    | inl same ↦ rw (same, str_eq_refl x) refl
    | inr later ↦ let q = (mentions_iff ws w).1 later in ground arith
  ],
)

word_or_not :
    (v : Value) → ((w : String) × (v ≡ Value.text w)) ⊎ ((ws : List String) → is_word ws v ≡ false)
word_or_not (Value.text w) = inl (w, refl)
word_or_not Value.undefined = inr (λ ws. refl)
word_or_not Value.null = inr (λ ws. refl)
word_or_not Value.nan = inr (λ ws. refl)
word_or_not Value.infinity = inr (λ ws. refl)
word_or_not Value.negative_infinity = inr (λ ws. refl)
word_or_not Value.object = inr (λ ws. refl)
word_or_not Value.array = inr (λ ws. refl)
word_or_not Value.other = inr (λ ws. refl)
word_or_not (Value.number n) = inr (λ ws. refl)
word_or_not (Value.boolean b) = inr (λ ws. refl)

no_errors :
    (es : List FieldError) → (es ≡ []) ⊎ ((x : FieldError) × (xs : List FieldError) × (es ≡ x ∷ xs))
no_errors [] = inl refl
no_errors (x ∷ xs) = inr (x, xs, refl)

check_value-Satisfies :
    (field : String) (rule : Rule) (v : Value)
    → check_value field rule v ≡ none
    → Satisfies rule (some v)
check_value-Satisfies field rule v h = elim (Option-cases rule.words) [
  | inl free ↦ plain v free (ground arith)
  | inr (ws, words) ↦ elim (word_or_not v) [
    | inr no_text ↦ absurd (ground (arith, no_text ws))
    | inl (w, is_text) ↦
        let t : check_value field rule (Value.text w) ≡ none = rw is_text at h in
        let there : mentions ws w ≡ true = ground arith in
        rw is_text (listed w ws words ((mentions_iff ws w).0 there) (ground arith))
  ]
]

Satisfies-check_field :
    (field : String) (rule : Rule) {v : Option Value}
    → Satisfies rule v
    → check_field field rule v ≡ none
Satisfies-check_field field rule (left_out optional) = ground arith
Satisfies-check_field field rule (plain v free t) = ground arith
Satisfies-check_field field rule (listed w ws words m t) =
    let there = (mentions_iff ws w).1 m in ground arith

check_field_iff :
    (field : String) (rule : Rule) (v : Option Value)
    → (check_field field rule v ≡ none) ↔ Satisfies rule v
check_field_iff field rule none =
    (λ h. left_out (ground arith), λ s. Satisfies-check_field field rule s)
check_field_iff field rule (some v) =
    (check_value-Satisfies field rule v, λ s. Satisfies-check_field field rule s)

check_fields_iff :
    (spec : Spec) (obj : Store Value) → (check_fields spec obj ≡ []) ↔ Conforms spec obj
unfolding check_fields Conforms
check_fields_iff [] obj = (λ h field rule m. absurd (Memᴰ.not-nil m), λ h. refl)
check_fields_iff ((field, rule) ∷ spec) obj = (
  λ h f r m. elim (Option-cases (check_field field rule (value_at field obj))) [
    | inr (e, bad) ↦ absurd (ground arith)
    | inl good ↦ elim (Memᴰ.cases_cons m) [
      | inl same ↦
          subst (λ (x : String × Rule). Satisfies x.1 (value_at x.0 obj)) (sym same)
            ((check_field_iff field rule (value_at field obj)).0 good)
      | inr later ↦ (check_fields_iff spec obj).0 (ground arith) f r later
    ]
  ],
  λ h.
      let good =
        (check_field_iff field rule (value_at field obj)).1 (h field rule (Memᴰ.head refl)) in
      let rest = (check_fields_iff spec obj).1 (λ f r m. h f r (Memᴰ.tail m)) in ground arith,
)

-- `validateEntity` accepts the own properties of an object exactly if they conform to the entity's spec.
pub validate_entity_iff :
    (e : Entity) (obj : Store Value)
    → (is_valid (validate_entity e (fields obj)) ≡ true) ↔ Conforms (entity_spec e) obj
unfolding validate_entity
validate_entity_iff e obj = (
  λ h.
      (check_fields_iff (entity_spec e) obj).0
        (elim (no_errors (check_fields (entity_spec e) obj)) [
          | inl none_found ↦ none_found
          | inr (x, xs, found) ↦ absurd (ground arith)
        ]),
  λ h. let q = (check_fields_iff (entity_spec e) obj).1 h in ground arith,
)

find-entity_name : (e : Entity) → find_entity (entity_name e) live_model_entities ≡ some e
unfolding find_entity
find-entity_name leader_wallet = refl
find-entity_name leader_trade = refl
find-entity_name detected_signal = refl
find-entity_name token_candidate = refl
find-entity_name market_snapshot = refl
find-entity_name route_quote = refl
find-entity_name risk_budget = refl
find-entity_name decision = refl
find-entity_name execution_intent = refl
find-entity_name execution_plan = refl
find-entity_name signed_transaction = refl
find-entity_name broadcast_attempt = refl
find-entity_name confirmation = refl
find-entity_name fill = refl
find-entity_name position = refl
find-entity_name exit_plan = refl
find-entity_name incident = refl
find-entity_name audit_event = refl
find-entity_name diagnostic_run = refl
find-entity_name simulation_result = refl
find-entity_name connectivity_check = refl

found_has_name :
    (name : String) (es : List Entity) (e : Entity)
    → find_entity name es ≡ some e
    → entity_name e ≡ name
unfolding find_entity
found_has_name name [] e h = absurd (ground arith)
found_has_name name (x ∷ es) e h = elim (Bool-cases (str_eq (entity_name x) name)) [
  | inl same ↦
      let q : x ≡ e = some-injective _ _ (rw same at h) in
      rw (← q) (eq_of_str_eq (entity_name x) name same)
  | inr other ↦ found_has_name name es e (rw other at h)
]

-- A name finds an entity exactly if it is the name of that entity.
pub find_entity_iff :
    (name : String) (e : Entity)
    → (find_entity name live_model_entities ≡ some e) ↔ (entity_name e ≡ name)
find_entity_iff name e =
    (found_has_name name live_model_entities e, λ same. rw (← same) (find-entity_name e))

-- The source of truth of an entity is one of the stores that it is kept in.
sole_source : (e : Entity) → Memᴰ (data_ownership e).source_of_truth (data_ownership e).stores
sole_source leader_wallet = Memᴰ.head refl
sole_source leader_trade = Memᴰ.head refl
sole_source detected_signal = Memᴰ.head refl
sole_source token_candidate = Memᴰ.head refl
sole_source market_snapshot = Memᴰ.head refl
sole_source route_quote = Memᴰ.head refl
sole_source risk_budget = Memᴰ.head refl
sole_source decision = Memᴰ.head refl
sole_source execution_intent = Memᴰ.head refl
sole_source execution_plan = Memᴰ.head refl
sole_source signed_transaction = Memᴰ.head refl
sole_source broadcast_attempt = Memᴰ.head refl
sole_source confirmation = Memᴰ.head refl
sole_source fill = Memᴰ.head refl
sole_source position = Memᴰ.head refl
sole_source exit_plan = Memᴰ.head refl
sole_source incident = Memᴰ.head refl
sole_source audit_event = Memᴰ.head refl
sole_source diagnostic_run = Memᴰ.head refl
sole_source simulation_result = Memᴰ.head refl
sole_source connectivity_check = Memᴰ.head refl
