-- ===== src/Policy/Consent/Latest.antt =====
-- Which record decides a consent check, and what a passed check means.
use mathlib.Core.List.{Memᴰ}
use revenue_rescue_ai.Common.{
  All, Bool-cases, List, Option, String, Text, [], arith, filter, if◌then◌else◌, inl, inr, is_empty,
  le_refl, le_trans, leb, leb→le, nat_eq, none, refl, some, true, ℕ, ◌==◌, ◌∷◌, ◌≡◌, ◌≤◌,
}
use revenue_rescue_ai.Enums.{ActionType, ConsentType, consent_type_eq}
use revenue_rescue_ai.Policy.Consent.{
  check_candidate, check_candidates, determine_required_consent, evaluate_consent,
  evaluate_required, evaluate_typed, granted_key, insert_granted, merchant_fits, sort_granted,
}
use revenue_rescue_ai.Policy.Models.{CustomerConsentRecord, is_passed, is_valid}

-- The records of the customer that are of the type.
abbrev pub typed_records : ℕ → ConsentType → List CustomerConsentRecord → List CustomerConsentRecord
typed_records customer required consents =
    filter (λ c. c.consent_type == required) (filter (λ c. c.customer_id == customer) consents)

-- The records that a check is about: those that are also open to the merchant, if there is one.
abbrev pub scoped :
    ℕ → ConsentType → Option String → List CustomerConsentRecord → List CustomerConsentRecord
scoped customer required none consents = typed_records customer required consents
scoped customer required (some merchant) consents =
    filter (merchant_fits merchant) (typed_records customer required consents)

-- The first of the records with the greatest time of grant.
top : CustomerConsentRecord → List CustomerConsentRecord → CustomerConsentRecord
top c [] = c
top c (d ∷ ds) = let t = top d ds in if leb (granted_key t) (granted_key c) then c else t

sort_granted-top :
    (c : CustomerConsentRecord) (ds : List CustomerConsentRecord)
    → (rest : List CustomerConsentRecord) × (sort_granted (c ∷ ds) ≡ top c ds ∷ rest)
unfolding sort_granted top
sort_granted-top c [] = ([], refl)
sort_granted-top c (d ∷ ds) =
    let (rest, e) = sort_granted-top d ds in
    elim (Bool-cases (leb (granted_key (top d ds)) (granted_key c))) [
      | inl h ↦ (top d ds ∷ rest, rw (e, insert_granted) (rw h))
      | inr h ↦ (insert_granted c rest, rw (e, insert_granted) (rw h))
    ]

-- Every record was granted at `n` or before.
abbrev pub GrantedBy : ℕ → List CustomerConsentRecord → Type 0
GrantedBy n = All (λ d. granted_key d ≤ n)

GrantedBy-mono :
    (n m : ℕ) (cs : List CustomerConsentRecord) → n ≤ m → GrantedBy n cs → GrantedBy m cs
GrantedBy-mono n m [] le h = tt
GrantedBy-mono n m (c ∷ cs) le h = (le_trans h.0 le, GrantedBy-mono n m cs le h.1)

top-ge-head :
    (c d : CustomerConsentRecord) (ds : List CustomerConsentRecord)
    → (granted_key c ≤ granted_key (top c (d ∷ ds)))
      × (granted_key (top d ds) ≤ granted_key (top c (d ∷ ds)))
unfolding top
top-ge-head c d ds = elim (Bool-cases (leb (granted_key (top d ds)) (granted_key c))) [
  | inl h ↦ rw h (le_refl _, leb→le _ _ h)
  | inr h ↦ rw h (ground arith, le_refl _)
]

top-greatest :
    (c : CustomerConsentRecord) (ds : List CustomerConsentRecord)
    → GrantedBy (granted_key (top c ds)) (c ∷ ds)
unfolding top
top-greatest c [] = (le_refl _, tt)
top-greatest c (d ∷ ds) =
    let (self, rest) = top-ge-head c d ds in
    (self, GrantedBy-mono _ _ (d ∷ ds) rest (top-greatest d ds))

mem-top : (c : CustomerConsentRecord) (ds : List CustomerConsentRecord) → Memᴰ (top c ds) (c ∷ ds)
unfolding top
mem-top c [] = Memᴰ.head refl
mem-top c (d ∷ ds) = elim (Bool-cases (leb (granted_key (top d ds)) (granted_key c))) [
  | inl h ↦ rw h (Memᴰ.head refl)
  | inr h ↦ rw h (Memᴰ.tail (mem-top d ds))
]

-- For a candidate that has a time of grant, the validator's verdict and `is_valid` agree at every
-- time, whatever the status, the revocation and the expiry of the record are.
pub check_candidate-is_valid :
    (c : CustomerConsentRecord) (granted now : ℕ)
    → is_passed (check_candidate c (some granted) now) ≡ is_valid c now
unfolding check_candidate is_valid
check_candidate-is_valid c granted now = ground arith

-- A record that passes is the latest of those that were sorted, and valid.
abbrev pub PassedBy : CustomerConsentRecord → List CustomerConsentRecord → ℕ → Type 0
PassedBy c cs now = Memᴰ c cs × (is_valid c now ≡ true) × GrantedBy (granted_key c) cs

check_candidate-passed :
    (c : CustomerConsentRecord) (now : ℕ)
    → is_passed (check_candidate c c.granted_at now) ≡ true
    → is_valid c now ≡ true
unfolding check_candidate is_valid
check_candidate-passed c now h = ground arith

check_candidates-passed :
    (cs : List CustomerConsentRecord) (now : ℕ)
    → is_passed (check_candidates (sort_granted cs) now) ≡ true
    → (c : CustomerConsentRecord) × PassedBy c cs now
unfolding check_candidates sort_granted
check_candidates-passed [] now h = cc
check_candidates-passed (c ∷ ds) now h =
    let (rest, e) = sort_granted-top c ds in
    (top c ds, (mem-top c ds, check_candidate-passed (top c ds) now (rw e at h), top-greatest c ds))

evaluate_typed-passed :
    (customer : ℕ) (required : ConsentType) (merchant : Option String)
    → (consents : List CustomerConsentRecord) (now : ℕ)
    → is_passed (evaluate_typed merchant (typed_records customer required consents) now) ≡ true
    → (c : CustomerConsentRecord) × PassedBy c (scoped customer required merchant consents) now
unfolding evaluate_typed
evaluate_typed-passed customer required none consents now h = check_candidates-passed _ now h
evaluate_typed-passed customer required (some merchant) consents now h =
    elim (Bool-cases (is_empty (scoped customer required (some merchant) consents))) [
      | inl e ↦ absurd (cc (rw e at h))
      | inr e ↦ check_candidates-passed _ now (rw e at h)
    ]

evaluate_required-passed :
    (customer : ℕ) (required : ConsentType) (merchant : Option String)
    → (consents : List CustomerConsentRecord) (now : ℕ)
    → is_passed (evaluate_required (some required) customer consents merchant now) ≡ true
    → is_passed (evaluate_typed merchant (typed_records customer required consents) now) ≡ true
unfolding evaluate_required
evaluate_required-passed customer required merchant consents now h = ground arith

-- A passed check of an action that needs consent means that the latest of the customer's records of
-- the required type that are open to the merchant, by the time of grant, is valid at the time of
-- the check; so there is such a record.
pub evaluate_consent-passed :
    (action : ActionType) (customer : ℕ) (consents : List CustomerConsentRecord)
    → (merchant : Option String) (channel : Option Text) (now : ℕ) (required : ConsentType)
    → determine_required_consent action channel ≡ some required
    → is_passed (evaluate_consent action customer consents merchant channel now) ≡ true
    → (c : CustomerConsentRecord) × PassedBy c (scoped customer required merchant consents) now
unfolding evaluate_consent
evaluate_consent-passed action customer consents merchant channel now required e h =
    evaluate_typed-passed customer required merchant consents now
      (evaluate_required-passed customer required merchant consents now (rw e at h))
