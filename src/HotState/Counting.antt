-- ===== src/HotState/Counting.antt =====
-- Hits of a rate limit within one window are counted one by one.
use solana_trading_bot.Prelude.{
  String, ℕ, suc, Bool, true, ◌≡◌, refl, ap, arith, List, [], ◌∷◌, Option, some, ltb, ◌&&◌,
}
use solana_trading_bot.Prelude.Decimal.{decimal, read_decimal-decimal, all_digits-decimal}
use solana_trading_bot.Store.{Store, lookup, insert, lookup-insert_self}
use solana_trading_bot.HotState.{
  Slot, slot, live, Answer, counted, rate_key, count_live, next_count, incr_rate_limit, Call,
  incr_call, call, answers,
}

-- Hits at some times.
abbrev pub hits : String → Option ℕ → List ℕ → List (ℕ × Call)
hits key ttl [] = []
hits key ttl (t ∷ ts) = (t, incr_call key ttl) ∷ hits key ttl ts

unfoldable pub all_before : ℕ → List ℕ → Bool
all_before end [] = true
all_before end (t ∷ ts) = ltb t end && all_before end ts

-- Counting on from a number.
abbrev pub count_on : ℕ → List ℕ → List Answer
count_on n [] = []
count_on n (t ∷ ts) = counted (some (suc n)) ∷ count_on (suc n) ts

hit :
    (key : String) (ttl : Option ℕ) (n end t : ℕ) (m : Store Slot)
    → lookup (rate_key key) m ≡ some (slot (decimal n) (some end))
    → ltb t end ≡ true
    → incr_rate_limit t key ttl m
      ≡ (insert (rate_key key) (slot (decimal (suc n)) (some end)) m, counted (some (suc n)))
unfolding incr_rate_limit next_count
hit key ttl n end t m found early =
    let l : live t (rate_key key) m ≡ (m, some (slot (decimal n) (some end))) = ground arith in
    rw (ap (count_live t key ttl) l, all_digits-decimal n, read_decimal-decimal n) refl

-- While a window with a count of n is open, hits within it answer n + 1, n + 2 and so on, whatever time to
-- live they ask for.
pub hits_are_counted :
    (key : String) (ttl : Option ℕ) (n end : ℕ) (times : List ℕ) (m : Store Slot)
    → lookup (rate_key key) m ≡ some (slot (decimal n) (some end))
    → all_before end times ≡ true
    → answers (hits key ttl times) m ≡ count_on n times
unfolding answers call all_before
hits_are_counted key ttl n end [] m found early = refl
hits_are_counted key ttl n end (t ∷ ts) m found early =
    let rest =
      hits_are_counted key ttl (suc n) end ts
        (insert (rate_key key) (slot (decimal (suc n)) (some end)) m)
        (lookup-insert_self (rate_key key) (slot (decimal (suc n)) (some end)) m) (ground arith) in
    rw (hit key ttl n end t m found (ground arith), rest) refl
