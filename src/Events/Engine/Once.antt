-- ===== src/Events/Engine/Once.antt =====
-- Deliveries to the engine, in any order and with the commits of other workers between and within them,
-- and the cases that they open for one key.
use revenue_rescue_ai.Common.{
  String, arith, contains, contains-append, distinct-append, false, if◌then◌else◌, inl, inr, map,
  nat_eq, refl, string_eq, true, ℕ, ◌&&◌, ◌+◌, ◌==◌, ◌∙◌, ◌≡◌, ◌≤◌, ◌⊎◌,
}
use revenue_rescue_ai.Domain.{RecoveryCase}
use revenue_rescue_ai.Events.Canonical.{CanonicalEventDto}
use revenue_rescue_ai.Events.Engine.{process_event}
use revenue_rescue_ai.Events.Engine.Steps.{Respects, base-keeps, process_event-KeysStep}
use revenue_rescue_ai.Events.Engine.Unique.{IsKeyed, has_case_key, is_created}
use revenue_rescue_ai.Events.Keys.{EngineCall, derive_case_key}
use revenue_rescue_ai.Store.{Store}

-- The number of cases that a delivery opens for the key
unfoldable pub opened : String → EngineCall → CanonicalEventDto → Store → ℕ
unfolding derive_case_key process_event
opened key call event s =
    if is_created (process_event call event s).0.outcome
      && derive_case_key call.month_of event == key
    then 1
    else 0

step-IsKeyed :
    (call : EngineCall) (event : CanonicalEventDto) (s : Store)
    → Respects call
    → contains (map RecoveryCase.id s.cases) call.case_id ≡ false
    → IsKeyed s.cases
    → IsKeyed (process_event call event s).1.cases
step-IsKeyed call event s r f k =
    let step = process_event-KeysStep call event s r k in
    let k' = base-keeps IsKeyed call s step.0 step.1 r.0 k in
    let f' =
      base-keeps (λ rs. contains (map RecoveryCase.id rs) call.case_id ≡ false) call s step.0 step.1
        r.1 f in
    elim step.2 [
      | inl e ↦ (rw e.1.0 k'.0, rw e.1.1 k'.1)
      | inr e ↦ (
        rw e.2 (distinct-append (map RecoveryCase.id step.0.cases) call.case_id k'.0 f'),
        rw e.3 (
            distinct-append (map RecoveryCase.case_key step.0.cases)
              (derive_case_key call.month_of event) k'.1 e.1),
      )
    ]

-- A key that has a case opens no further one and keeps it.
step-keeps :
    (key : String) (call : EngineCall) (event : CanonicalEventDto) (s : Store)
    → Respects call
    → IsKeyed s.cases
    → has_case_key key s.cases ≡ true
    → (opened key call event s ≡ 0) × (has_case_key key (process_event call event s).1.cases ≡ true)
unfolding opened
step-keeps key call event s r k h =
    let step = process_event-KeysStep call event s r k in
    let h' = base-keeps (λ rs. has_case_key key rs ≡ true) call s step.0 step.1 (r.2 key) h in
    elim step.2 [
      | inl e ↦ (rw e.0 refl, rw e.1.1 h')
      | inr e ↦ (
        ground (arith, e.0, e.1, h', string_eq.same_iff (derive_case_key call.month_of event) key),
        rw e.3 (
            contains-append (map RecoveryCase.case_key step.0.cases)
              (derive_case_key call.month_of event) key
            ∙ rw h' refl),
      )
    ]

-- A delivery opens at most one case for the key, and then the key has its case.
step-opens :
    (key : String) (call : EngineCall) (event : CanonicalEventDto) (s : Store)
    → Respects call
    → IsKeyed s.cases
    → (opened key call event s ≡ 0)
      ⊎ ((opened key call event s ≡ 1)
          × (has_case_key key (process_event call event s).1.cases ≡ true))
unfolding opened
step-opens key call event s r k =
    let step = process_event-KeysStep call event s r k in
    elim step.2 [
      | inl e ↦ inl (rw e.0 refl)
      | inr e ↦
          let m =
            contains-append (map RecoveryCase.case_key step.0.cases)
              (derive_case_key call.month_of event) key in
          ground (
            arith,
            e.0,
            e.3,
            m,
            string_eq.same_iff (derive_case_key call.month_of event) key,
            string_eq.same_iff key (derive_case_key call.month_of event),
          )
    ]

-- A run: deliveries with fresh ids, and between them commits of other workers, whatever they change,
-- that keep the ids and the keys unique and do not take away the case of the key. The number counts
-- the cases that the deliveries open for the key.
pub data Deliveries (key : String) : Store → ℕ → Store → Type 0 where
  done : {s : Store} → Deliveries key s 0 s
  deliver :
      {s t : Store} {n : ℕ} (call : EngineCall) (event : CanonicalEventDto)
      → Respects call
      → contains (map RecoveryCase.id s.cases) call.case_id ≡ false
      → Deliveries key (process_event call event s).1 n t
      → Deliveries key s (opened key call event s + n) t
  commit :
      {s s' t : Store} {n : ℕ}
      → (IsKeyed s.cases → IsKeyed s'.cases)
      → (has_case_key key s.cases ≡ true → has_case_key key s'.cases ≡ true)
      → Deliveries key s' n t
      → Deliveries key s n t

opens_none :
    {key : String} {s t : Store} {n : ℕ}
    → IsKeyed s.cases
    → has_case_key key s.cases ≡ true
    → Deliveries key s n t
    → n ≡ 0
opens_none k h Deliveries.done = refl
opens_none {key} {s} k h (Deliveries.deliver call event r f rest) =
    let kept = step-keeps key call event s r k h in
    let none_left = opens_none (step-IsKeyed call event s r f k) kept.1 rest in
    omega (arith, kept.0, none_left)
opens_none k h (Deliveries.commit keyed kept rest) = opens_none (keyed k) (kept h) rest

-- Whatever events are delivered, in whatever order, with whatever commits of other workers before,
-- between and after the deliveries, and between the lookup and the insert of a delivery, that keep
-- the ids and the keys unique and do not take a case of a key away: the ids and the case keys stay
-- unique, and at most one of the deliveries opens a case for the key.
pub Deliveries-once :
    (key : String) (s t : Store) (n : ℕ)
    → IsKeyed s.cases
    → Deliveries key s n t
    → IsKeyed t.cases × (n ≤ 1)
Deliveries-once key s t n k Deliveries.done = (k, omega arith)
Deliveries-once key s t n k (Deliveries.deliver {n = m} call event r f rest) =
    let k' = step-IsKeyed call event s r f k in
    let tail = Deliveries-once key (process_event call event s).1 t m k' rest in
    elim (step-opens key call event s r k) [
      | inl e ↦ (tail.0, omega (arith, e, tail.1))
      | inr e ↦ (tail.0, omega (arith, e.0, opens_none k' e.1 rest))
    ]
Deliveries-once key s t n k (Deliveries.commit {s'} keyed kept rest) =
    Deliveries-once key s' t n (keyed k) rest
