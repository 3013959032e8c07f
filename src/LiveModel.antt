-- ===== src/LiveModel.antt =====
-- packages/contracts/src/live-model.mjs: the entities of the live runtime and `validateEntity`. The rules
-- are in Rules, the word lists in Vocabulary, the specs in Trading and Runtime, and the names and owners
-- in Entities.
pub mod Rules
pub mod Vocabulary
pub mod Trading
pub mod Runtime
pub mod Entities
pub mod Conformance
mod Examples
use solana_trading_bot.Prelude.{
  String, Bool, true, false, Option, none, some, List, [], ◌∷◌, if◌then◌else◌, template, str_eq,
  not,
}
use solana_trading_bot.Prelude.Values.{Value}
use solana_trading_bot.Store.{Store, lookup}
use solana_trading_bot.LiveModel.Rules.{Rule, Spec, is_type, is_word}
use solana_trading_bot.LiveModel.Entities.{Entity, entity_name, live_model_entities, entity_spec}

-- An argument of `validateEntity`: its own properties, or a value that is no plain object.
pub data Candidate : Type 0 where
  not_an_object : Candidate
  fields : Store Value → Candidate

pub data FieldError : Type 0 where
  missing out_of_words of_other_type : String → FieldError

pub data Failure : Type 0 where
  unknown_entity : String → Failure
  no_object : Failure
  faulty : List FieldError → Failure

-- The value of an own property that is neither undefined nor null.
abbrev pub present : Option Value → Option Value
present none = none
present (some Value.undefined) = none
present (some Value.null) = none
present (some v) = some v

abbrev pub value_at : String → Store Value → Option Value
value_at field obj = present (lookup field obj)

-- The error of one round of the loop, if any.
abbrev pub word_error : Rule → Value → Bool
word_error rule v = elim rule.words [ none ↦ false | some ws ↦ not (is_word ws v) ]

abbrev pub check_value : String → Rule → Value → Option FieldError
check_value field rule v =
    if word_error rule v
    then some (out_of_words field)
    else if not (is_type rule.type v)
    then some (of_other_type field)
    else none

abbrev pub check_field : String → Rule → Option Value → Option FieldError
check_field field rule none = if rule.required then some (missing field) else none
check_field field rule (some v) = check_value field rule v

-- The loop over the fields of the spec: the errors in their order.
unfoldable pub check_fields : Spec → Store Value → List FieldError
check_fields [] obj = []
check_fields ((field, rule) ∷ spec) obj =
    let rest = check_fields spec obj in
    elim (check_field field rule (value_at field obj)) [ none ↦ rest | some e ↦ e ∷ rest ]

-- `validateEntity` on an entity that has a spec. `none` is `{ ok: true, errors: [] }`.
unfoldable pub validate_entity : Entity → Candidate → Option Failure
validate_entity e not_an_object = some no_object
validate_entity e (fields obj) = elim (check_fields (entity_spec e) obj) [
  | [] ↦ none
  | x ∷ xs ↦ some (faulty (x ∷ xs))
]

-- `ENTITY_SPECS[entityName]`, for a name that is none of those that every object inherits.
pub find_entity : String → List Entity → Option Entity
find_entity name [] = none
find_entity name (e ∷ es) =
    let rest = find_entity name es in if str_eq (entity_name e) name then some e else rest

-- `validateEntity(entityName, obj)`
pub validate_named : String → Candidate → Option Failure
validate_named name c = elim (find_entity name live_model_entities) [
  | none ↦ some (unknown_entity name)
  | some e ↦ validate_entity e c
]

abbrev pub is_valid : Option Failure → Bool
is_valid none = true
is_valid (some f) = false
