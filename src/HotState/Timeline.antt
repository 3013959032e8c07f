-- ===== src/HotState/Timeline.antt =====
-- What the hot state promises: at each time a key has a value or none. There is no expiry to clean up, and
-- no order of keys.
use solana_trading_bot.Prelude.{
  String, ℕ, Bool, true, false, List, [], ◌∷◌, Option, none, some, if◌then◌else◌, str_eq, ◌&&◌, leb,
}
use solana_trading_bot.HotState.{
  expiry, is_expired, Answer, found, done, deleted, locked, unlocked, counted, claimed, existing,
  lock_key, may_unlock, rate_key, next_count, count_text, idem_key, Call, get_call, del_call,
  set_call, lock_call, unlock_call, incr_call, claim_call,
}

abbrev pub Timeline : Type 0
Timeline = ℕ → String → Option String

abbrev pub nowhere : Timeline
nowhere t key = none

-- From now on the key has a value until it expires.
abbrev pub write : String → String → Option ℕ → Timeline → Timeline
write key v at a t j = if str_eq key j then (if is_expired t at then none else some v) else a t j

abbrev pub erase : String → Timeline → Timeline
erase key a t j = if str_eq key j then none else a t j

-- Another value for as long as the key has one.
abbrev pub revalue : String → String → Timeline → Timeline
revalue key v a t j = if str_eq key j then elim (a t j) [ none ↦ none | some w ↦ some v ] else a t j

abbrev pub expect_lock :
    ℕ → String → Option ℕ → String → Timeline → Option String → Timeline × Answer
expect_lock now key ttl token a (some held) = (a, locked none)
expect_lock now key ttl token a none =
    (write (lock_key key) token (expiry now ttl) a, locked (some token))

abbrev pub expect_unlock : String → Option String → Timeline → Option String → Timeline × Answer
expect_unlock key token a none = (a, unlocked false)
expect_unlock key token a (some held) =
    if may_unlock token held then (erase (lock_key key) a, unlocked true) else (a, unlocked false)

abbrev pub expect_count : ℕ → String → Option ℕ → Timeline → Option String → Timeline × Answer
expect_count now key ttl a none = (write (rate_key key) "1" (expiry now ttl) a, counted (some 1))
expect_count now key ttl a (some v) =
    let count = next_count v in (revalue (rate_key key) (count_text count) a, counted count)

abbrev pub expect_claim :
    ℕ → String → Option ℕ → String → Timeline → Option String → Timeline × Answer
expect_claim now key ttl value a (some first) = (a, existing first)
expect_claim now key ttl value a none = (write (idem_key key) value (expiry now ttl) a, claimed)

-- The answer of a call and the timeline after it; whether a deletion found something is not promised.
unfoldable pub expected : ℕ → Call → Timeline → Timeline × Answer
expected now (get_call key) a = (a, found (a now key))
expected now (del_call key) a = (erase key a, deleted true)
expected now (set_call key v ttl) a = (write key v (expiry now ttl) a, done)
expected now (lock_call key ttl token) a = expect_lock now key ttl token a (a now (lock_key key))
expected now (unlock_call key token) a = expect_unlock key token a (a now (lock_key key))
expected now (incr_call key ttl) a = expect_count now key ttl a (a now (rate_key key))
expected now (claim_call key ttl value) a = expect_claim now key ttl value a (a now (idem_key key))

unfoldable pub expected_answers : List (ℕ × Call) → Timeline → List Answer
expected_answers [] a = []
expected_answers ((now, c) ∷ cs) a = let (b, x) = expected now c a in x ∷ expected_answers cs b

-- The answers without what a deletion found.
abbrev pub hide : Answer → Answer
hide (deleted b) = deleted true
hide x = x

-- The times never go back.
unfoldable pub ascending : ℕ → List (ℕ × Call) → Bool
ascending t [] = true
ascending t ((now, c) ∷ cs) = leb t now && ascending now cs
