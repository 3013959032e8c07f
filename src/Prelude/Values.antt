-- ===== src/Prelude/Values.antt =====
-- JavaScript values of any kind.
use Prim.Native.String.{String}
use mathlib.Core.Bool.{Bool}
use solana_trading_bot.Prelude.Js.{Number}

-- Any JavaScript value, as far as `typeof` and `Array.isArray` tell; `other` is a function, a symbol or a
-- big integer other than zero.
pub data Value : Type 0 where
  undefined null nan infinity negative_infinity object array other : Value
  text : String → Value
  number : Number → Value
  boolean : Bool → Value
