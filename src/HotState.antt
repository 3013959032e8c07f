-- ===== src/HotState.antt =====
-- packages/hot-state/src/hot-state.mjs: the store in memory with keys that expire, locks, rate limits and
-- idempotency claims. The clock is injected: an operation takes the time. A JSON text stands for what it
-- parses to.
pub mod Timeline
pub mod Refinement
pub mod Counting
mod Examples
use solana_trading_bot.Prelude.{
  String, ℕ, Bool, true, false, not, ◌+◌, ◌||◌, List, [], ◌∷◌, Option, none, some, if◌then◌else◌,
  ltb, leb, str_eq, template, suc,
}
use solana_trading_bot.Prelude.Decimal.{decimal, read_decimal, all_digits}
use solana_trading_bot.Store.{Store, lookup, insert}

pub record Slot : Type 0 where
  pub value : String
  pub expires_at : Option ℕ

-- `Map.prototype.delete`
unfoldable pub remove : String → Store Slot → Store Slot
remove key [] = []
remove key ((j, e) ∷ m) = let rest = remove key m in if str_eq j key then rest else (j, e) ∷ rest

-- `expiry(ttlMs)`; `none` is a time to live that is not finite.
abbrev pub expiry : ℕ → Option ℕ → Option ℕ
expiry now none = none
expiry now (some ttl) = if ltb 0 ttl then some (now + ttl) else none

abbrev pub is_expired : ℕ → Option ℕ → Bool
is_expired now none = false
is_expired now (some at) = leb at now

-- `live(key)`: the entry, and the map without it if it has expired.
abbrev pub keep_live : ℕ → String → Store Slot → Option Slot → Store Slot × Option Slot
keep_live now key m none = (m, none)
keep_live now key m (some e) =
    if is_expired now e.expires_at then (remove key m, none) else (m, some e)

abbrev pub live : ℕ → String → Store Slot → Store Slot × Option Slot
live now key m = keep_live now key m (lookup key m)

pub data Answer : Type 0 where
  found : Option String → Answer
  done : Answer
  deleted : Bool → Answer
  locked : Option String → Answer
  unlocked : Bool → Answer
  counted : Option ℕ → Answer
  claimed : Answer
  existing : String → Answer

abbrev pub slot : String → Option ℕ → Slot
slot v at = record { value = v; expires_at = at }

abbrev pub value_of : Option Slot → Option String
value_of none = none
value_of (some e) = some e.value

unfoldable pub get : ℕ → String → Store Slot → Store Slot × Answer
get now key m = let (n, e) = live now key m in (n, found (value_of e))

unfoldable pub set : ℕ → String → String → Option ℕ → Store Slot → Store Slot × Answer
set now key v ttl m = (insert key (slot v (expiry now ttl)) m, done)

abbrev pub has : Option Slot → Bool
has none = false
has (some e) = true

unfoldable pub del : String → Store Slot → Store Slot × Answer
del key m = (remove key m, deleted (has (lookup key m)))

abbrev pub lock_key : String → String
lock_key key = template ("lock:" ∷ key ∷ [])

abbrev pub lock_live :
    ℕ → String → Option ℕ → String → Store Slot × Option Slot → Store Slot × Answer
lock_live now key ttl token (n, some held) = (n, locked none)
lock_live now key ttl token (n, none) =
    (insert (lock_key key) (slot token (expiry now ttl)) n, locked (some token))

-- `token` is what `genToken()` answers.
unfoldable pub lock : ℕ → String → Option ℕ → String → Store Slot → Store Slot × Answer
lock now key ttl token m = lock_live now key ttl token (live now (lock_key key) m)

-- `token == null || e.value === token`
abbrev pub may_unlock : Option String → String → Bool
may_unlock none v = true
may_unlock (some token) v = str_eq v token

abbrev pub unlock_live : String → Option String → Store Slot × Option Slot → Store Slot × Answer
unlock_live key token (n, none) = (n, unlocked false)
unlock_live key token (n, some held) =
    if may_unlock token held.value
    then (remove (lock_key key) n, unlocked true)
    else (n, unlocked false)

unfoldable pub unlock : ℕ → String → Option String → Store Slot → Store Slot × Answer
unlock now key token m = unlock_live key token (live now (lock_key key) m)

abbrev pub rate_key : String → String
rate_key key = template ("rl:" ∷ key ∷ [])

-- `Number(text) + 1`. A text of digits is a number, as this method writes it; any other is taken for NaN, which
-- is `none`. (`Number` also reads signs, spaces, fractions, exponents and hexadecimal digits; nothing in
-- the store writes such a text under an rl: key.)
unfoldable pub next_count : String → Option ℕ
next_count text = if all_digits text then some (suc (read_decimal text)) else none

-- `String(n)`
abbrev pub count_text : Option ℕ → String
count_text none = "NaN"
count_text (some n) = decimal n

abbrev pub count_live : ℕ → String → Option ℕ → Store Slot × Option Slot → Store Slot × Answer
count_live now key ttl (n, none) =
    (insert (rate_key key) (slot "1" (expiry now ttl)) n, counted (some 1))
count_live now key ttl (n, some window) =
    let count = next_count window.value in
    (insert (rate_key key) (slot (count_text count) window.expires_at) n, counted count)

unfoldable pub incr_rate_limit : ℕ → String → Option ℕ → Store Slot → Store Slot × Answer
incr_rate_limit now key ttl m = count_live now key ttl (live now (rate_key key) m)

abbrev pub idem_key : String → String
idem_key key = template ("idem:" ∷ key ∷ [])

abbrev pub claim_live :
    ℕ → String → Option ℕ → String → Store Slot × Option Slot → Store Slot × Answer
claim_live now key ttl value (n, some first) = (n, existing first.value)
claim_live now key ttl value (n, none) =
    (insert (idem_key key) (slot value (expiry now ttl)) n, claimed)

-- `claimIdempotencyKey(key, ttlMs, value)`, with the value as a JSON text.
unfoldable pub claim_idempotency_key :
    ℕ → String → Option ℕ → String → Store Slot → Store Slot × Answer
claim_idempotency_key now key ttl value m = claim_live now key ttl value (live now (idem_key key) m)

pub data Call : Type 0 where
  get_call del_call : String → Call
  set_call : String → String → Option ℕ → Call
  lock_call : String → Option ℕ → String → Call
  unlock_call : String → Option String → Call
  incr_call : String → Option ℕ → Call
  claim_call : String → Option ℕ → String → Call

unfoldable pub call : ℕ → Call → Store Slot → Store Slot × Answer
call now (get_call key) m = get now key m
call now (del_call key) m = del key m
call now (set_call key v ttl) m = set now key v ttl m
call now (lock_call key ttl token) m = lock now key ttl token m
call now (unlock_call key token) m = unlock now key token m
call now (incr_call key ttl) m = incr_rate_limit now key ttl m
call now (claim_call key ttl value) m = claim_idempotency_key now key ttl value m

-- The other methods are calls under a key of their own.
abbrev pub get_cursor : String → Call
get_cursor name = get_call (template ("cursor:" ∷ name ∷ []))

abbrev pub set_cursor : String → String → Call
set_cursor name v = set_call (template ("cursor:" ∷ name ∷ [])) v none

abbrev pub read_idempotency_key : String → Call
read_idempotency_key key = get_call (idem_key key)

abbrev pub release_idempotency_key : String → Call
release_idempotency_key key = del_call (idem_key key)

abbrev pub get_provider_health : Call
get_provider_health = get_call "provider_health"

abbrev pub set_provider_health : String → Option ℕ → Call
set_provider_health snap ttl = set_call "provider_health" snap ttl

abbrev pub get_readiness : Call
get_readiness = get_call "readiness"

abbrev pub set_readiness : String → Option ℕ → Call
set_readiness v ttl = set_call "readiness" v ttl

-- The answers to calls at given times.
unfoldable pub answers : List (ℕ × Call) → Store Slot → List Answer
answers [] m = []
answers ((now, c) ∷ cs) m = let (n, a) = call now c m in a ∷ answers cs n
