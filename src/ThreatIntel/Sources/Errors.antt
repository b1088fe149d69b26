-- ===== src/ThreatIntel/Sources/Errors.antt =====
-- When the form of a source has an error.
use wazuh_dashboard_security.Base.{
  Bool, true, false, not, ◌&&◌, ◌≡◌, ◌↔◌, ◌⊎◌, ◌==◌, refl, arith, Bool-cases, inl, inr,
}
use wazuh_dashboard_security.Json.{
  Json, undefined, null, bool, num, str, arr, obj, Items, nil, cons, Fields, end, field,
}
use wazuh_dashboard_security.Server.Client.{Outcome, return}
use wazuh_dashboard_security.ThreatIntel.Sources.{
  CheckState, passed_over, or_later, has_error_in, is_error, has_error_among,
}

-- A text that is not empty stands somewhere below keys none of which is passed over.
unfoldable mutual
  pub ErrorIn : CheckState → Fields → Type 0
  ErrorIn state end = ⊥
  ErrorIn state (field key v errors) =
      ((passed_over state key ≡ false) × IsError state v) ⊎ ErrorIn state errors

  pub IsError : CheckState → Json → Type 0
  IsError state (str s) = (s == "") ≡ false
  IsError state (obj errors) = ErrorIn state errors
  IsError state (arr vs) = ErrorAmong state vs
  IsError state _ = ⊥

  pub ErrorAmong : CheckState → Items → Type 0
  ErrorAmong state nil = ⊥
  ErrorAmong state (cons v vs) = IsError state v ⊎ ErrorAmong state vs

-- No null stands anywhere.
unfoldable mutual
  pub no_null_in : Fields → Bool
  no_null_in end = true
  no_null_in (field key v errors) = no_null v && no_null_in errors

  pub no_null : Json → Bool
  no_null null = false
  no_null (arr vs) = no_null_among vs
  no_null (obj errors) = no_null_in errors
  no_null _ = true

  pub no_null_among : Items → Bool
  no_null_among nil = true
  no_null_among (cons v vs) = no_null v && no_null_among vs

-- The test returns, and says whether a predicate holds.
abbrev pub Decides : Outcome Bool → Type 0 → Type 0
Decides result P = (b : Bool) × (result ≡ return b) × ((b ≡ true) ↔ P)

and_left : (a b : Bool) → a && b ≡ true → a ≡ true
and_left a b h = ground (arith, h)

and_right : (a b : Bool) → a && b ≡ true → b ≡ true
and_right a b h = ground (arith, h)

not_both : (b : Bool) → b ≡ true → b ≡ false → ⊥
not_both b h k = ground (arith, h, k)

module _ {P : Type 0} {Q : Type 0} where
  either :
      (here later : Outcome Bool)
      → Decides here P
      → Decides later Q
      → Decides (or_later here later) (P ⊎ Q)
  either here later (true, e, iff) (b, f, iff') =
      (true, rw e refl, ((λ h. inl (iff.0 refl)), (λ s. refl)))
  either here later (false, e, iff) (b, f, iff') = (
    b,
    rw e f,
    (
      (λ h. inr (iff'.0 h)),
      (λ s. elim s [ inl p ↦ absurd (ground (arith, iff.1 p)) | inr q ↦ iff'.1 q ]),
    ),
  )

  without : (later : Outcome Bool) → (P → ⊥) → Decides later Q → Decides later (P ⊎ Q)
  without later never (b, f, iff) =
      (b, f, ((λ h. inr (iff.0 h)), (λ s. elim s [ inl p ↦ absurd (never p) | inr q ↦ iff.1 q ])))

  guarded : (here : Outcome Bool) → P → Decides here Q → Decides here (P × Q)
  guarded here p (b, e, iff) = (b, e, ((λ h. (p, iff.0 h)), (λ (p', q). iff.1 q)))

module _ (type_error : Json) (state : CheckState) where
  mutual
    unfolding has_error_in is_error has_error_among no_null_in no_null no_null_among ErrorIn IsError
        ErrorAmong

    has_error_in-Decides :
        (errors : Fields)
        → no_null_in errors ≡ true
        → Decides (has_error_in type_error state errors) (ErrorIn state errors)
    has_error_in-Decides end h = (false, refl, ground arith)
    has_error_in-Decides (field key v errors) h =
        let here = is_error-Decides v (and_left (no_null v) (no_null_in errors) h) in
        let later = has_error_in-Decides errors (and_right (no_null v) _ h) in
        elim (Bool-cases (passed_over state key)) [
          | inl over ↦ rw over (without _ (λ p. not_both true refl p.0) later)
          | inr kept ↦ rw kept (either _ _ (guarded _ refl here) later)
        ]

    is_error-Decides :
        (v : Json) → no_null v ≡ true → Decides (is_error type_error state v) (IsError state v)
    is_error-Decides (str s) h = (not (s == ""), refl, ground arith)
    is_error-Decides (obj errors) h = has_error_in-Decides errors h
    is_error-Decides (arr vs) h = has_error_among-Decides vs h
    is_error-Decides null h = absurd (ground (arith, h))
    is_error-Decides undefined h = (false, refl, ground arith)
    is_error-Decides (bool b) h = (false, refl, ground arith)
    is_error-Decides (num n) h = (false, refl, ground arith)

    has_error_among-Decides :
        (vs : Items)
        → no_null_among vs ≡ true
        → Decides (has_error_among type_error state vs) (ErrorAmong state vs)
    has_error_among-Decides nil h = (false, refl, ground arith)
    has_error_among-Decides (cons v vs) h =
        either _ _ (is_error-Decides v (and_left _ (no_null_among vs) h))
          (has_error_among-Decides vs (and_right (no_null v) _ h))

  -- Where no null stands among the errors, the test returns, and says that there is an error
  -- exactly if a text that is not empty stands somewhere below keys none of which is passed over.
  pub has_error_in-finds :
      (errors : Fields)
      → no_null_in errors ≡ true
      → Decides (has_error_in type_error state errors) (ErrorIn state errors)
  has_error_in-finds errors h = has_error_in-Decides errors h
