-- ===== src/LiveModel/Examples.antt =====
-- A route quote with its fields, and a name.
use solana_trading_bot.Prelude.{◌≡◌, ◌↔◌, true, false, [], ◌∷◌, Number}
use solana_trading_bot.Prelude.Values.{Value}
use solana_trading_bot.Store.{Store}
use solana_trading_bot.LiveModel.Entities.{Entity, entity_spec}
use solana_trading_bot.LiveModel.{fields, validate_entity, is_valid}
use solana_trading_bot.LiveModel.Conformance.{Conforms, validate_entity_iff}

abbrev one : Number
one = record { negative = false; mantissa = 1; exponent = 1075 }

abbrev quote : Store Value
quote =
    ("token_mint", Value.text "mint")
    ∷ ("side", Value.text "buy")
    ∷ ("in_amount", Value.number one)
    ∷ ("out_amount", Value.number one)
    ∷ ("route_valid", Value.boolean true)
    ∷ ("quoted_at", Value.text "2026-01-01")
    ∷ []

validate_entity_iff_example :
    (is_valid (validate_entity Entity.route_quote (fields quote)) ≡ true)
    ↔ Conforms (entity_spec Entity.route_quote) quote
validate_entity_iff_example = validate_entity_iff Entity.route_quote quote
