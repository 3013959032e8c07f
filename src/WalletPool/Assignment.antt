-- ===== src/WalletPool/Assignment.antt =====
-- Who gets an assignment, and that taking turns always gives one.
use Prim.Native.Nat.{◌%◌}
use native.Mathlib.Nat.{mod-lt}
use solana_trading_bot.Prelude.{
  String, ℕ, zero, suc, ◌+◌, ◌<◌, ◌≡◌, refl, sym, inl, inr, true, List, [], ◌∷◌, none, some, given,
  arith, length, str_eq, ok, Bool-cases, Option-cases,
}
use mathlib.Core.List.{Memᴰ}
use mathlib.Core.List.Memᴰ
use solana_trading_bot.Store.{lookup-insert_self, eq_of_str_eq, str_eq_refl}
use solana_trading_bot.ExecutionWalletRegistry.{Registry, mentions, is_action_allowed, new_entry}
use solana_trading_bot.WalletPool.{
  AssignmentPolicy, round_robin, Pool, AssignRequest, is_eligible_for_entry, eligible_of,
  eligible_ids, count_of,
}
use solana_trading_bot.WalletPool.Policies.{
  nth, Selection, selected, declined, select_by_policy, policy_of, finish_assign, assign_among,
  assign,
}

mentioned-Memᴰ : (xs : List String) (x : String) → mentions xs x ≡ true → Memᴰ x xs
unfolding mentions
mentioned-Memᴰ [] x h = absurd (ground arith)
mentioned-Memᴰ (y ∷ xs) x h = elim (Bool-cases (str_eq y x)) [
  | inl same ↦ Memᴰ.head (sym (eq_of_str_eq y x same))
  | inr other ↦ Memᴰ.tail (mentioned-Memᴰ xs x (ground arith))
]

eligible_of-allowed :
    (wallets ws : Registry) (id : String)
    → Memᴰ id (eligible_of wallets ws)
    → is_eligible_for_entry wallets id ≡ true
unfolding eligible_of
eligible_of-allowed wallets [] id m = absurd (Memᴰ.not-nil m)
eligible_of-allowed wallets ((key, w) ∷ ws) id m =
    elim (Bool-cases (is_eligible_for_entry wallets w.execution_wallet_id)) [
      | inr barred ↦ eligible_of-allowed wallets ws id (rw barred at m)
      | inl allowed ↦
          let n : Memᴰ id (w.execution_wallet_id ∷ eligible_of wallets ws) = rw allowed at m in
          elim (Memᴰ.cases_cons n) [
            | inl same ↦ rw same allowed
            | inr later ↦ eligible_of-allowed wallets ws id later
          ]
    ]

-- What an accepted end of `assign` has done.
finish-ok :
    (pool : Pool) (ids : List String) (p q : AssignmentPolicy) (s : ℕ × Selection) (id : String)
    → (finish_assign pool ids p s).1 ≡ ok (id, q)
    → (mentions ids id ≡ true)
      × (count_of (finish_assign pool ids p s).0 id ≡ count_of pool id + 1)
      × (p ≡ q)
finish-ok pool ids p q (cursor, declined why) id h = absurd (ground arith)
finish-ok pool ids p q (cursor, selected none) id h = absurd (ground arith)
finish-ok pool ids p q (cursor, selected (some x)) id h = elim (Bool-cases (mentions ids x)) [
  | inr missing ↦ absurd (ground arith)
  | inl there ↦
      let same : x ≡ id = ground arith in
      let counted = lookup-insert_self x (count_of pool x + 1) pool.assign_count in
      (ground arith, rw (← same) (ground arith), ground arith)
]

assign_among-ok :
    (pool : Pool) (ids : List String) (p q : AssignmentPolicy) (req : AssignRequest) (id : String)
    → (assign_among pool ids p req).1 ≡ ok (id, q)
    → (mentions ids id ≡ true)
      × (count_of (assign_among pool ids p req).0 id ≡ count_of pool id + 1)
      × (p ≡ q)
assign_among-ok pool [] p q req id h = absurd (ground arith)
assign_among-ok pool (x ∷ xs) p q req id h =
    finish-ok pool (x ∷ xs) p q (select_by_policy pool p (x ∷ xs) req) id h

-- Where sorting invents no element, an accepted `assign` names a wallet on which the registry permits new
-- entries, under the policy of the request or of the pool, and counts it once more.
pub assigned_serves :
    (sort : List String → List String) (pool : Pool) (wallets : Registry) (req : AssignRequest)
    (id : String) (p : AssignmentPolicy)
    → ((xs : List String) (x : String) → Memᴰ x (sort xs) → Memᴰ x xs)
    → (assign sort pool wallets (some req)).1 ≡ ok (id, p)
    → (is_action_allowed wallets id (given new_entry) ≡ true)
      × (policy_of pool req.wallet_assignment_policy ≡ some p)
      × (count_of (assign sort pool wallets (some req)).0 id ≡ count_of pool id + 1)
unfolding assign
assigned_serves sort pool wallets req id p sort_keeps h =
    elim (Option-cases (policy_of pool req.wallet_assignment_policy)) [
      | inl no_policy ↦ absurd (ground arith)
      | inr (q, known) ↦
          let ids = eligible_ids sort wallets in
          let e : assign sort pool wallets (some req) ≡ assign_among pool ids q req =
            ground arith in
          let (there, counted, same) = assign_among-ok pool ids q p req id (rw e at h) in
          let listed = sort_keeps (eligible_of wallets wallets) id (mentioned-Memᴰ ids id there) in
          (eligible_of-allowed wallets wallets id listed, rw (known, same) refl, rw e counted)
    ]

nth-in_range :
    (ids : List String) (k : ℕ)
    → k < length ids
    → (id : String) × (nth ids k ≡ some id) × (mentions ids id ≡ true)
unfolding nth mentions
nth-in_range [] k small = absurd (omega arith)
nth-in_range (x ∷ ids) zero small = let r = str_eq_refl x in (x, refl, ground arith)
nth-in_range (x ∷ ids) (suc k) small =
    let (id, at_k, there) = nth-in_range ids k (omega arith) in (id, at_k, ground arith)

-- Under round_robin, with an eligible wallet in the list that sorting gives, `assign` always accepts: it takes
-- the wallet at the cursor, within the list, and moves the cursor to the next place of the list.
pub turns_assign :
    (sort : List String → List String) (pool : Pool) (wallets : Registry) (req : AssignRequest)
    (x : String) (xs : List String)
    → policy_of pool req.wallet_assignment_policy ≡ some round_robin
    → eligible_ids sort wallets ≡ x ∷ xs
    → (id : String) × (nth (x ∷ xs) (pool.rr_cursor % length (x ∷ xs)) ≡ some id)
      × ((assign sort pool wallets (some req)).1 ≡ ok (id, round_robin))
      × ((assign sort pool wallets (some req)).0.rr_cursor ≡ (pool.rr_cursor + 1) % length (x ∷ xs))
      × ((assign sort pool wallets (some req)).0.rr_cursor < length (x ∷ xs))
unfolding assign select_by_policy
turns_assign sort pool wallets req x xs known listed =
    let n = length (x ∷ xs) in
    let (id, here, there) =
      nth-in_range (x ∷ xs) (pool.rr_cursor % n) (mod-lt pool.rr_cursor {m = n} (omega arith)) in
    let next = mod-lt (pool.rr_cursor + 1) {m = n} (omega arith) in
    let e : assign sort pool wallets (some req)
        ≡ finish_assign pool (x ∷ xs) round_robin
            ((pool.rr_cursor + 1) % n, selected (nth (x ∷ xs) (pool.rr_cursor % n))) =
      ground arith in
    (id, here, rw (e, here, there) refl, rw (e, here, there) refl, rw (e, here, there) next)
