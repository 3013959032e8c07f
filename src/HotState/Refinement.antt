-- ===== src/HotState/Refinement.antt =====
-- The map with lazy expiry answers as the timeline does.
use solana_trading_bot.Prelude.{
  String, ℕ, true, ◌≡◌, ◌⊎◌, inl, inr, refl, sym, ap, ◌∙◌, List, [], ◌∷◌, Option, none, some, arith,
  map, if◌then◌else◌, str_eq, leb, Bool-cases, Option-cases,
}
use text.Mathlib.TextEquality.{eq_iff}
use solana_trading_bot.Store.{Store, lookup, insert, lookup-insert, eq_of_str_eq}
use solana_trading_bot.HotState.{
  Slot, remove, expiry, is_expired, keep_live, live, Answer, slot, get, set, del, lock, lock_key,
  lock_live, unlock_live, count_live, claim_live, may_unlock, unlock, rate_key, incr_rate_limit,
  idem_key, claim_idempotency_key, Call, get_call, del_call, set_call, lock_call, unlock_call,
  incr_call, claim_call, call, answers,
}
use solana_trading_bot.HotState.Timeline.{
  Timeline, expect_lock, expect_unlock, expect_count, expect_claim, nowhere, write, erase, revalue,
  expected, expected_answers, hide, ascending,
}

lookup-remove :
    (key j : String) (m : Store Slot)
    → lookup j (remove key m) ≡ (if str_eq key j then none else lookup j m)
unfolding lookup remove
lookup-remove key j [] = ground arith
lookup-remove key j ((i, e) ∷ m) =
    ground (arith, lookup-remove key j m, eq_iff key j, eq_iff i key, eq_iff i j)

-- The value of an entry at a time.
abbrev at_time : ℕ → Option Slot → Option String
at_time t none = none
at_time t (some e) = if is_expired t e.expires_at then none else some e.value

-- From a time on, the map shows what the timeline has.
Shows : ℕ → Store Slot → Timeline → Type 0
Shows now m a = (t : ℕ) (key : String) → leb now t ≡ true → at_time t (lookup key m) ≡ a t key

Shows-later :
    (now later : ℕ) (m : Store Slot) (a : Timeline)
    → leb now later ≡ true
    → Shows now m a
    → Shows later m a
unfolding Shows
Shows-later now later m a h shows t key l = shows t key (ground arith)

Shows-insert :
    (now : ℕ) (m : Store Slot) (a : Timeline) (key v : String) (at : Option ℕ)
    → Shows now m a
    → Shows now (insert key (slot v at) m) (write key v at a)
unfolding Shows
Shows-insert now m a key v at shows t j l = elim (Bool-cases (str_eq key j)) [
  | inl same ↦ rw (lookup-insert, same) refl
  | inr other ↦ rw (lookup-insert, other) (shows t j l)
]

Shows-remove :
    (now : ℕ) (m : Store Slot) (a : Timeline) (key : String)
    → Shows now m a
    → Shows now (remove key m) (erase key a)
unfolding Shows
Shows-remove now m a key shows t j l = elim (Bool-cases (str_eq key j)) [
  | inl same ↦ rw (lookup-remove, same) refl
  | inr other ↦ rw (lookup-remove, other) (shows t j l)
]

Shows-revalue :
    (now : ℕ) (m : Store Slot) (a : Timeline) (key v : String) (e : Slot)
    → lookup key m ≡ some e
    → Shows now m a
    → Shows now (insert key (slot v e.expires_at) m) (revalue key v a)
unfolding Shows
Shows-revalue now m a key v e found shows t j l = elim (Bool-cases (str_eq key j)) [
  | inr other ↦ rw (lookup-insert, other) (shows t j l)
  | inl same ↦
      let here : at_time t (lookup key m) ≡ a t j = rw (eq_of_str_eq key j same) (shows t j l) in
      let q : at_time t (some e) ≡ a t j = rw found at here in
      rw (lookup-insert, same, ← q)
        (elim (Bool-cases (is_expired t e.expires_at)) [
          | inl gone ↦ rw gone refl
          | inr there ↦ rw there refl
        ])
]

gone_later :
    (now t : ℕ) (at : Option ℕ)
    → leb now t ≡ true
    → is_expired now at ≡ true
    → is_expired t at ≡ true
gone_later now t none l h = h
gone_later now t (some at) l h = ground arith

Shows-cleaned :
    (now : ℕ) (m : Store Slot) (a : Timeline) (key : String) (e : Slot)
    → lookup key m ≡ some e
    → is_expired now e.expires_at ≡ true
    → Shows now m a
    → Shows now (remove key m) a
unfolding Shows
Shows-cleaned now m a key e found gone shows t j l = elim (Bool-cases (str_eq key j)) [
  | inr other ↦ rw (lookup-remove, other) (shows t j l)
  | inl same ↦
      let here : at_time t (lookup key m) ≡ a t j = rw (eq_of_str_eq key j same) (shows t j l) in
      let q : at_time t (some e) ≡ a t j = rw found at here in
      rw (lookup-remove, same, ← q, gone_later now t e.expires_at l gone) refl
]

leb_refl : (n : ℕ) → leb n n ≡ true
leb_refl n = ground arith

-- What `live` finds.
live-cases :
    (now : ℕ) (key : String) (m : Store Slot) (a : Timeline)
    → Shows now m a
    → ((n : Store Slot) × (live now key m ≡ (n, none)) × Shows now n a × (a now key ≡ none))
      ⊎ ((e : Slot) × (live now key m ≡ (m, some e))
          × (lookup key m ≡ some e)
          × (a now key ≡ some e.value))
unfolding Shows
live-cases now key m a shows =
    let here = shows now key (leb_refl now) in
    elim (Option-cases (lookup key m)) [
      | inl missing ↦
          inl (m, ap (keep_live now key m) missing, shows, sym here ∙ ap (at_time now) missing)
      | inr (e, found) ↦ elim (Bool-cases (is_expired now e.expires_at)) [
        | inl gone ↦ inl (
          remove key m,
          ground arith,
          Shows-cleaned now m a key e found gone shows,
          sym here ∙ ground arith,
        )
        | inr there ↦ inr (e, ground arith, found, sym here ∙ ground arith)
      ]
    ]

-- A call answers as expected, and the map goes on to show the timeline.
Agrees : ℕ → Store Slot × Answer → Timeline × Answer → Type 0
Agrees now p q = (hide p.1 ≡ q.1) × Shows now p.0 q.0

get-Agrees :
    (now : ℕ) (key : String) (m : Store Slot) (a : Timeline)
    → Shows now m a
    → Agrees now (get now key m) (expected now (get_call key) a)
unfolding get expected Agrees
get-Agrees now key m a shows = elim (live-cases now key m a shows) [
  | inl (n, e, shows_n, none_there) ↦ rw (e, none_there) (refl, shows_n)
  | inr (x, e, found, there) ↦ rw (e, there) (refl, shows)
]

lock-Agrees :
    (now : ℕ) (key token : String) (ttl : Option ℕ) (m : Store Slot) (a : Timeline)
    → Shows now m a
    → Agrees now (lock now key ttl token m) (expected now (lock_call key ttl token) a)
unfolding lock expected Agrees
lock-Agrees now key token ttl m a shows = elim (live-cases now (lock_key key) m a shows) [
  | inl (n, e, shows_n, none_there) ↦
      rw (ap (lock_live now key ttl token) e, ap (expect_lock now key ttl token a) none_there)
        (refl, Shows-insert now n a (lock_key key) token (expiry now ttl) shows_n)
  | inr (x, e, found, there) ↦
      rw (ap (lock_live now key ttl token) e, ap (expect_lock now key ttl token a) there)
        (refl, shows)
]

unlock-Agrees :
    (now : ℕ) (key : String) (token : Option String) (m : Store Slot) (a : Timeline)
    → Shows now m a
    → Agrees now (unlock now key token m) (expected now (unlock_call key token) a)
unfolding unlock expected Agrees
unlock-Agrees now key token m a shows = elim (live-cases now (lock_key key) m a shows) [
  | inl (n, e, shows_n, none_there) ↦
      rw (ap (unlock_live key token) e, ap (expect_unlock key token a) none_there) (refl, shows_n)
  | inr (x, e, found, there) ↦ elim (Bool-cases (may_unlock token x.value)) [
    | inl may ↦
        rw (ap (unlock_live key token) e, ap (expect_unlock key token a) there, may)
          (refl, Shows-remove now m a (lock_key key) shows)
    | inr not_held ↦
        rw (ap (unlock_live key token) e, ap (expect_unlock key token a) there, not_held)
          (refl, shows)
  ]
]

incr-Agrees :
    (now : ℕ) (key : String) (ttl : Option ℕ) (m : Store Slot) (a : Timeline)
    → Shows now m a
    → Agrees now (incr_rate_limit now key ttl m) (expected now (incr_call key ttl) a)
unfolding incr_rate_limit expected Agrees
incr-Agrees now key ttl m a shows = elim (live-cases now (rate_key key) m a shows) [
  | inl (n, e, shows_n, none_there) ↦
      rw (ap (count_live now key ttl) e, ap (expect_count now key ttl a) none_there)
        (refl, Shows-insert now n a (rate_key key) "1" (expiry now ttl) shows_n)
  | inr (x, e, found, there) ↦
      rw (ap (count_live now key ttl) e, ap (expect_count now key ttl a) there)
        (refl, Shows-revalue now m a (rate_key key) _ x found shows)
]

claim-Agrees :
    (now : ℕ) (key value : String) (ttl : Option ℕ) (m : Store Slot) (a : Timeline)
    → Shows now m a
    → Agrees now
        (claim_idempotency_key now key ttl value m)
        (expected now (claim_call key ttl value) a)
unfolding claim_idempotency_key expected Agrees
claim-Agrees now key value ttl m a shows = elim (live-cases now (idem_key key) m a shows) [
  | inl (n, e, shows_n, none_there) ↦
      rw (ap (claim_live now key ttl value) e, ap (expect_claim now key ttl value a) none_there)
        (refl, Shows-insert now n a (idem_key key) value (expiry now ttl) shows_n)
  | inr (x, e, found, there) ↦
      rw (ap (claim_live now key ttl value) e, ap (expect_claim now key ttl value a) there)
        (refl, shows)
]

call-Agrees :
    (now : ℕ) (c : Call) (m : Store Slot) (a : Timeline)
    → Shows now m a
    → Agrees now (call now c m) (expected now c a)
unfolding call
call-Agrees now (get_call key) m a shows = get-Agrees now key m a shows
call-Agrees now (del_call key) m a shows =
    unfold del expected Agrees in (refl, Shows-remove now m a key shows)
call-Agrees now (set_call key v ttl) m a shows =
    unfold set expected Agrees in (refl, Shows-insert now m a key v (expiry now ttl) shows)
call-Agrees now (lock_call key ttl token) m a shows = lock-Agrees now key token ttl m a shows
call-Agrees now (unlock_call key token) m a shows = unlock-Agrees now key token m a shows
call-Agrees now (incr_call key ttl) m a shows = incr-Agrees now key ttl m a shows
call-Agrees now (claim_call key ttl value) m a shows = claim-Agrees now key value ttl m a shows

answers-agree :
    (t : ℕ) (cs : List (ℕ × Call)) (m : Store Slot) (a : Timeline)
    → ascending t cs ≡ true
    → Shows t m a
    → map hide (answers cs m) ≡ expected_answers cs a
unfolding ascending answers expected_answers Agrees
answers-agree t [] m a h shows = refl
answers-agree t ((now, c) ∷ cs) m a h shows =
    let later = Shows-later t now m a (ground arith) shows in
    let (same, shows_next) = call-Agrees now c m a later in
    let rest =
      answers-agree now cs (call now c m).0 (expected now c a).0 (ground arith) shows_next in
    rw (same, rest) refl

-- From an empty map, calls at times that never go back are answered as by a timeline of keys that each have
-- a value until it expires, except for what a deletion says it found.
pub answers_refine :
    (t : ℕ) (cs : List (ℕ × Call))
    → ascending t cs ≡ true
    → map hide (answers cs []) ≡ expected_answers cs nowhere
unfolding Shows lookup
answers_refine t cs h = answers-agree t cs [] nowhere h (λ now key l. refl)
