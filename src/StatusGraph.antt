-- ===== src/StatusGraph.antt =====
-- Status graphs in general: what zero or more allowed changes reach. A graph is the test that a package
-- makes on its ALLOWED table.
use solana_trading_bot.Prelude.{◌≡◌, refl, ◌∙◌, true, Bool}

-- Zero or more allowed status changes.
pub data Reach {S : Type 0} (allowed : S → S → Bool) (s : S) : S → Type 0 where
  here : Reach allowed s s
  next : {t u : S} → Reach allowed s t → allowed t u ≡ true → Reach allowed s u

module _ {S : Type 0} (allowed : S → S → Bool) where
  pub Reach-trans : {s t u : S} → Reach allowed s t → Reach allowed t u → Reach allowed s u
  Reach-trans r here = r
  Reach-trans r (next q h) = next (Reach-trans r q) h

  -- A test that every edge keeps holds of all that is reached.
  pub Reach-keeps :
      (p : S → Bool)
      → ((t u : S) → p t ≡ true → allowed t u ≡ true → p u ≡ true)
      → {s t : S} → p s ≡ true
      → Reach allowed s t
      → p t ≡ true
  Reach-keeps p edge h here = h
  Reach-keeps p edge h (next {t} {u} r a) = edge t u (Reach-keeps p edge h r) a

  -- A status with no way out is all that it reaches.
  pub Reach-stuck :
      (p : S → Bool)
      → ((t u : S) → p t ≡ true → allowed t u ≡ true → t ≡ u)
      → {s t : S} → p s ≡ true
      → Reach allowed s t
      → s ≡ t
  Reach-stuck p edge h here = refl
  Reach-stuck p edge h (next {t} {u} r a) =
      let q = Reach-stuck p edge h r in q ∙ edge t u (rw (← q) h) a
