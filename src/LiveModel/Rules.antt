-- ===== src/LiveModel/Rules.antt =====
-- The field rules of packages/contracts/src/live-model.mjs and the test of one value.
use solana_trading_bot.Prelude.{
  String, Bool, true, false, ◌||◌, List, [], ◌∷◌, Option, none, some, str_eq,
}
use solana_trading_bot.Prelude.Values.{Value}

pub data FieldType : Type 0 where
  string number boolean object array enum : FieldType

-- What `F(type, opts)` makes.
pub record Rule : Type 0 where
  pub type : FieldType
  pub required : Bool
  pub words : Option (List String)

-- The fields of a spec, in the order of `Object.entries`.
abbrev pub Spec : Type 0
Spec = List (String × Rule)

abbrev pub required : FieldType → Rule
required t = record { type = t; required = true; words = none }

abbrev pub optional : FieldType → Rule
optional t = record { type = t; required = false; words = none }

abbrev pub required_member : List String → Rule
required_member ws = record { type = FieldType.enum; required = true; words = some ws }

abbrev pub optional_member : List String → Rule
optional_member ws = record { type = FieldType.enum; required = false; words = some ws }

abbrev pub is_type : FieldType → Value → Bool
is_type FieldType.string (Value.text s) = true
is_type FieldType.number (Value.number n) = true
is_type FieldType.boolean (Value.boolean b) = true
is_type FieldType.object Value.object = true
is_type FieldType.array Value.array = true
is_type FieldType.enum v = true
is_type _ _ = false

abbrev pub mentions : List String → String → Bool
mentions [] w = false
mentions (x ∷ xs) w = str_eq x w || mentions xs w

-- `rule.enum.includes(val)`
abbrev pub is_word : List String → Value → Bool
is_word ws (Value.text w) = mentions ws w
is_word ws _ = false
