-- ===== src/Store/Counter.antt =====
-- A store whose keys come from a counter: the ids that the counter has yet to make are free.
use solana_trading_bot.Prelude.{
  String, ℕ, ◌+◌, ◌<◌, ◌≡◌, ◌≢◌, ◌∙◌, refl, [], none, some, arith, inl, inr, str_eq, Bool-cases,
}
use solana_trading_bot.Prelude.Decimal.{counter_id, counter_id_injective}
use solana_trading_bot.Store.{Store, lookup, insert, lookup-insert, eq_of_str_eq}

module _ {ℓ} {V : Type ℓ} where
  -- Nothing stands under an id that the counter makes after `seq`.
  pub IsFreeAfter : String → ℕ → Store V → Type ℓ
  IsFreeAfter prefix seq m = (n : ℕ) → seq < n → lookup (counter_id prefix n) m ≡ none

  pub next-free :
      (prefix : String) (seq : ℕ) (m : Store V)
      → IsFreeAfter prefix seq m
      → lookup (counter_id prefix (seq + 1)) m ≡ none
  unfolding IsFreeAfter
  next-free prefix seq m free = free (seq + 1) (omega arith)

  insert_other : (j k : String) (v : V) (m : Store V) → k ≢ j → lookup j (insert k v m) ≡ lookup j m
  insert_other j k v m h = elim (Bool-cases (str_eq k j)) [
    | inl same ↦ absurd (h (eq_of_str_eq k j same))
    | inr other ↦ rw (lookup-insert, other) refl
  ]

  -- A write under a key that is not one of those ids keeps them free.
  pub insert-IsFreeAfter :
      (prefix : String) (seq : ℕ) (k : String) (v : V) (m : Store V)
      → IsFreeAfter prefix seq m
      → ((n : ℕ) → seq < n → k ≢ counter_id prefix n)
      → IsFreeAfter prefix seq (insert k v m)
  unfolding IsFreeAfter
  insert-IsFreeAfter prefix seq k v m free other n h =
      insert_other (counter_id prefix n) k v m (other n h) ∙ free n h

  -- A write under the next id makes that one taken, and leaves the later ones free.
  pub made-IsFreeAfter :
      (prefix : String) (seq : ℕ) (v : V) (m : Store V)
      → IsFreeAfter prefix seq m
      → IsFreeAfter prefix (seq + 1) (insert (counter_id prefix (seq + 1)) v m)
  unfolding IsFreeAfter
  made-IsFreeAfter prefix seq v m free n h =
      insert_other (counter_id prefix n) (counter_id prefix (seq + 1)) v m
        (λ same. let q = counter_id_injective prefix (seq + 1) n same in absurd (omega arith))
      ∙ free n (omega arith)

  -- So does a write over an entry.
  pub over-IsFreeAfter :
      (prefix : String) (seq : ℕ) (k : String) (v w : V) (m : Store V)
      → IsFreeAfter prefix seq m
      → lookup k m ≡ some v
      → IsFreeAfter prefix seq (insert k w m)
  unfolding IsFreeAfter
  over-IsFreeAfter prefix seq k v w m free found =
      insert-IsFreeAfter prefix seq k w m free
        (λ n h same. let gone = free n h in let there = rw same at found in absurd cc)

pub empty-IsFreeAfter {ℓ} :
    (V : Type ℓ) (prefix : String) (seq : ℕ) → IsFreeAfter {V = V} prefix seq []
unfolding IsFreeAfter lookup
empty-IsFreeAfter V prefix seq n h = refl
