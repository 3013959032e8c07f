-- ===== src/Store.antt =====
-- A JavaScript `Map` whose keys are texts: the entries in insertion order. `set` on a known key
-- keeps the entry's place, as `Map.prototype.set` does.
pub mod Evolution
pub mod Counter
use solana_trading_bot.Prelude.{
  String, Bool, true, false, ◌≡◌, refl, Option, none, some, List, [], ◌∷◌, ◌++◌, if◌then◌else◌,
  str_eq, arith, is_some, inl, inr, Bool-cases, sym, ap, ◌∙◌, ◌++◌,
}
use text.Mathlib.TextEquality.{eq_iff}
use text.Mathlib.TextPositions.{eq_refl}

abbrev pub Store {ℓ} : Type ℓ → Type ℓ
Store V = List (String × V)

module _ {ℓ} {V : Type ℓ} where
  -- `Map.prototype.get`; `none` is `undefined`.
  unfoldable pub lookup : String → Store V → Option V
  lookup k [] = none
  lookup k ((j, v) ∷ m) = if str_eq j k then some v else lookup k m

  -- `Map.prototype.has`
  abbrev pub contains : String → Store V → Bool
  contains k m = is_some (lookup k m)

  -- `Map.prototype.set`
  unfoldable pub insert : String → V → Store V → Store V
  insert k v [] = (k, v) ∷ []
  insert k v ((j, w) ∷ m) = if str_eq j k then (j, v) ∷ m else (j, w) ∷ insert k v m

  pub lookup-insert :
      (j k : String) (v : V) (m : Store V)
      → lookup j (insert k v m) ≡ (if str_eq k j then some v else lookup j m)
  unfolding lookup insert
  lookup-insert j k v [] = refl
  lookup-insert j k v ((i, w) ∷ m) =
      ground (arith, eq_iff k j, eq_iff i k, eq_iff i j, lookup-insert j k v m)

  pub lookup-insert_self : (k : String) (v : V) (m : Store V) → lookup k (insert k v m) ≡ some v
  lookup-insert_self k v m = simp (lookup-insert, eq_refl)

-- Texts that the Boolean test tells equal are equal.
pub eq_of_str_eq : (j k : String) → str_eq j k ≡ true → j ≡ k
eq_of_str_eq j k h = (eq_iff j k).0 h

pub str_eq_refl : (k : String) → str_eq k k ≡ true
str_eq_refl k = eq_refl k

module _ {ℓ} {V : Type ℓ} where
  -- A write under a new key is seen by no other key.
  pub lookup-insert_new :
      (k j : String) (v w : V) (m : Store V)
      → lookup k m ≡ none
      → lookup j m ≡ some v
      → lookup j (insert k w m) ≡ some v
  lookup-insert_new k j v w m fresh found = elim (Bool-cases (str_eq k j)) [
    | inl same ↦
        let q : none ≡ some v = sym fresh ∙ ap (λ x. lookup x m) (eq_of_str_eq k j same) ∙ found in
        cc
    | inr other ↦ rw (lookup-insert, other) found
  ]
