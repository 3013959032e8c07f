-- ===== src/Store/Evolution.antt =====
-- How a store changes over time: an invariant of every entry, and a relation between the old and the
-- new value of each key. Shared by the registries and ledgers, which all keep a `Map` of records.
use solana_trading_bot.Prelude.{◌≡◌, ◌∙◌, sym, ap, String, none, some, str_eq, inl, inr, Bool-cases}
use mathlib.Core.Path.{subst, subst₂}
use mathlib.Core.Option.{some-injective}
use solana_trading_bot.Store.{Store, lookup, insert, lookup-insert, eq_of_str_eq}

module _ {ℓ κ} {V : Type ℓ} where
  -- Every entry of the store satisfies `P`.
  abbrev pub Every : (String → V → Type κ) → Store V → Type (ℓ ⊔ κ)
  Every P m = (k : String) (v : V) → lookup k m ≡ some v → P k v

  pub Every-insert :
      (P : String → V → Type κ) (k : String) (v : V) (m : Store V)
      → Every P m
      → P k v
      → Every P (insert k v m)
  Every-insert P k v m all new j w found = elim (Bool-cases (str_eq k j)) [
    | inl same ↦
        let q : v ≡ w = some-injective _ _ (rw (lookup-insert, same) at found) in
        subst₂ P (eq_of_str_eq k j same) q new
    | inr other ↦ all j w (rw (lookup-insert, other) at found)
  ]

  -- Each key that the old store has is in the new one, with a value that `R` relates to the old.
  abbrev pub Evolves : (V → V → Type κ) → Store V → Store V → Type (ℓ ⊔ κ)
  Evolves R m n =
      (k : String) (v : V) → lookup k m ≡ some v → (w : V) × (lookup k n ≡ some w) × R v w

  pub Evolves-refl : (R : V → V → Type κ) → ((v : V) → R v v) → (m : Store V) → Evolves R m m
  Evolves-refl R r m k v found = (v, found, r v)

  pub Evolves-trans :
      (R : V → V → Type κ)
      → ((u v w : V) → R u v → R v w → R u w)
      → (l m n : Store V) → Evolves R l m
      → Evolves R m n
      → Evolves R l n
  Evolves-trans R t l m n p q k u found =
      let (v, found_v, r) = p k u found in
      let (w, found_w, s) = q k v found_v in (w, found_w, t u v w r s)

  -- A write over an entry moves the store along `R`, if `R` relates the two values.
  pub Evolves-insert :
      (R : V → V → Type κ)
      → ((v : V) → R v v)
      → (k : String) (v w : V) (m : Store V) → lookup k m ≡ some v
      → R v w
      → Evolves R m (insert k w m)
  Evolves-insert R r k v w m old rel j u found = elim (Bool-cases (str_eq k j)) [
    | inl same ↦
        let q : v ≡ u =
          some-injective _ _ (sym old ∙ ap (λ x. lookup x m) (eq_of_str_eq k j same) ∙ found) in
        (w, rw (lookup-insert, same), subst (λ x. R x w) q rel)
    | inr other ↦ (u, rw (lookup-insert, other) found, r u)
  ]

  -- A write under a new key leaves every old entry alone.
  pub Evolves-insert_new :
      (R : V → V → Type κ)
      → ((v : V) → R v v)
      → (k : String) (w : V) (m : Store V) → lookup k m ≡ none
      → Evolves R m (insert k w m)
  Evolves-insert_new R r k w m fresh j u found = elim (Bool-cases (str_eq k j)) [
    | inl same ↦
        let q : none ≡ some u = sym fresh ∙ ap (λ x. lookup x m) (eq_of_str_eq k j same) ∙ found in
        cc
    | inr other ↦ (u, rw (lookup-insert, other) found, r u)
  ]
