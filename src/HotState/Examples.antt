-- ===== src/HotState/Examples.antt =====
-- A lock that expires, hits within a window, and a deletion that finds an expired key.
use solana_trading_bot.Prelude.{template, ◌≡◌, refl, true, false, ℕ, List, [], ◌∷◌, some, none, map}
use solana_trading_bot.Prelude.Decimal.{decimal}
use solana_trading_bot.Store.{Store, lookup, insert}
use solana_trading_bot.HotState.{
  Slot, slot, rate_key, remove, get, set, del, lock, unlock, found, deleted, locked, unlocked, done,
  Call, get_call, del_call, set_call, lock_call, unlock_call, call, answers,
}
use solana_trading_bot.HotState.Timeline.{nowhere, expected_answers, hide, ascending}
use solana_trading_bot.HotState.Counting.{hits, all_before, count_on, hits_are_counted}
use solana_trading_bot.HotState.Refinement.{answers_refine}

abbrev calls : List (ℕ × Call)
calls =
    (0, lock_call "wallet" (some 10) "t1")
    ∷ (5, lock_call "wallet" (some 10) "t2")
    ∷ (10, lock_call "wallet" (some 10) "t3")
    ∷ (11, unlock_call "wallet" (some "t1"))
    ∷ (12, set_call "k" "v" (some 3))
    ∷ (15, get_call "k")
    ∷ []

never_back : ascending 0 calls ≡ true
unfolding ascending
never_back = refl

lock_passes_on : answers calls [] ≡ (
    locked (some "t1") ∷ locked none ∷ locked (some "t3") ∷ unlocked false ∷ done ∷ found none ∷ [])
unfolding answers call lock unlock set get lookup insert remove template
lock_passes_on = refl

answers_refine_example : map hide (answers calls []) ≡ expected_answers calls nowhere
answers_refine_example = answers_refine 0 calls never_back

-- Whether a deletion finds an expired key depends on whether the key was read before.
deletion_tells :
    (answers ((0, set_call "k" "v" (some 3)) ∷ (5, del_call "k") ∷ []) []
      ≡ (done ∷ deleted true ∷ []))
    × (answers ((0, set_call "k" "v" (some 3)) ∷ (5, get_call "k") ∷ (5, del_call "k") ∷ []) []
        ≡ (done ∷ found none ∷ deleted false ∷ []))
unfolding answers call set get del lookup insert remove
deletion_tells = (refl, refl)

abbrev one_hit : Store Slot
one_hit = (rate_key "api", slot (decimal 1) (some 100)) ∷ []

window_open : lookup (rate_key "api") one_hit ≡ some (slot (decimal 1) (some 100))
unfolding lookup template
window_open = refl

in_window : all_before 100 (5 ∷ 7 ∷ 99 ∷ []) ≡ true
unfolding all_before
in_window = refl

hits_are_counted_example :
    answers (hits "api" (some 50) (5 ∷ 7 ∷ 99 ∷ [])) one_hit ≡ count_on 1 (5 ∷ 7 ∷ 99 ∷ [])
hits_are_counted_example =
    hits_are_counted "api" (some 50) 1 100 (5 ∷ 7 ∷ 99 ∷ []) one_hit window_open in_window
