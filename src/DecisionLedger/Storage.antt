-- ===== src/DecisionLedger/Storage.antt =====
-- packages/decision-ledger/src/store.mjs: what the ledger asks of a store, the store in memory, and a run
-- of calls over any store.
use solana_trading_bot.Prelude.{String, false, List, [], ◌∷◌, Option, none, some, ◌≡◌, refl}
use solana_trading_bot.DecisionLedger.{Book, Reading}
use solana_trading_bot.DecisionLedger.Operations.{Call, effect}

-- `store.read()` and `store.write(value)`, where what was written is read again.
pub record IntentStore (S : Type 0) : Type 0 where
  pub read : S → Reading
  pub write : S → Book → S
  pub value_written : (s : S) (b : Book) → (read (write s b)).value ≡ b

abbrev pub empty_book : Book
empty_book = record { intents = []; traces = [] }

-- `createMemoryIntentStore`: the state is the value.
abbrev pub memory_store : IntentStore Book
memory_store = record {
  read = λ b. record { value = b; corrupt = false };
  write = λ old b. b;
  value_written = λ old b. refl;
}

-- `save(value)`, where an operation saves.
abbrev pub saved : {S : Type 0} → IntentStore S → S → Option Book → S
saved st s none = s
saved st s (some b) = st.write s b

-- One call of the ledger that is created over the store.
unfoldable pub call : {S : Type 0} → IntentStore S → List String → S → Call → S
call st retryable s c = saved st s (effect retryable (st.read s) c).0

unfoldable pub run : {S : Type 0} → IntentStore S → List String → S → List Call → S
run st retryable s [] = s
run st retryable s (c ∷ cs) = run st retryable (call st retryable s c) cs
