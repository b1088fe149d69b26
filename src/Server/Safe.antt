-- ===== src/Server/Safe.antt =====
-- Which handlers may reject, and what they call. An action is safe if all that it throws are
-- errors, in every session, and all that it calls are actions that the client has; a handler over a
-- safe body replies. One rule for each way to build an action.
use wazuh_dashboard_security.Base.{
  Option, none, some, String, Bool, true, false, List, [], ◌∷◌, ◌++◌, ◌≡◌, refl, if◌then◌else◌, All,
  subst, sym,
}
use wazuh_dashboard_security.Server.Clusters.{IsDefined}
use wazuh_dashboard_security.Json.{or_else, Json, arr, opt, is_nullish, elems}
use wazuh_dashboard_security.Server.SpaceCaps.{
  cached_or_fetch, get_space_field_caps, fetch_space_field_caps, remember, fallback_caps, caps_of,
}
use wazuh_dashboard_security.Server.Client.{
  SpaceFieldCaps, error_body_message, error_body, Reply, handle, fail, Target, Host, IsRegular,
  IsError, Session, Action, Outcome, return, throw, pure, raise, try_catch, and_then, ◌>>=◌, call,
  get, get_length, each, map_each, error_message, Call,
}

abbrev pub OnThrow : {A : Type 0} → Outcome A → Type 0
OnThrow (return a) = Unit
OnThrow (throw error) = IsError error

-- Every action that was called is one of the client.
abbrev pub AreDefined : List Call → Type 0
AreDefined calls = All (λ c. IsDefined c.method) calls

pub record IsSafe {A : Type 0} (m : Action A) : Type 0 where
  pub at : (s : Session) → OnThrow (m s).0
  pub calls : (s : Session) → AreDefined s.calls → AreDefined (m s).1.calls

-- It always returns, and calls only actions that the client has.
pub record IsTotal {A : Type 0} (m : Action A) : Type 0 where
  pub at : (s : Session) → (a : A) × ((m s).0 ≡ return a)
  pub calls : (s : Session) → AreDefined s.calls → AreDefined (m s).1.calls

-- One that makes no call.
pub quiet-IsSafe :
    {A : Type 0} (m : Action A)
    → ((s : Session) → OnThrow (m s).0)
    → ((s : Session) → (m s).1.calls ≡ s.calls)
    → IsSafe m
quiet-IsSafe m at quiet = record { at = at; calls = λ s old. subst AreDefined (sym (quiet s)) old }

AreDefined-append :
    (cs : List Call) (c : Call) → AreDefined cs → IsDefined c.method → AreDefined (cs ++ c ∷ [])
AreDefined-append [] c old new = (new, tt)
AreDefined-append (d ∷ cs) c old new = (old.0, AreDefined-append cs c old.1 new)

module _ {A : Type 0} where
  pub pure-IsSafe : (a : A) → IsSafe (pure a)
  unfolding pure
  pure-IsSafe a = quiet-IsSafe _ (λ s. tt) (λ s. refl)

  pub raise-IsSafe : (error : Json) → IsError error → IsSafe (raise {A = A} error)
  unfolding raise
  raise-IsSafe error e = quiet-IsSafe _ (λ s. e) (λ s. refl)

  pub if-IsSafe : (b : Bool) (m n : Action A) → IsSafe m → IsSafe n → IsSafe (if b then m else n)
  if-IsSafe true m n hm hn = hm
  if-IsSafe false m n hm hn = hn

  pub try_catch-IsSafe :
      (m : Action A) (h : Json → Action A)
      → IsSafe m
      → ((e : Json) → IsSafe (h e))
      → IsSafe (try_catch m h)
  unfolding try_catch
  try_catch-IsSafe m h hm hh = record {
    at = λ s. go (m s).0 (m s).1;
    calls = λ s old. called (m s).0 (m s).1 (hm.calls s old);
  }
    where
      called :
          (r : Outcome A) (after : Session)
          → AreDefined after.calls
          → AreDefined (
              (elim r as (λ _. Outcome A × Session) [
                | return a ↦ (return a, after)
                | throw error ↦ h error after
              ]).1.calls)
      called (return a) after old = old
      called (throw error) after old = (hh error).calls after old

      go :
          (r : Outcome A) (after : Session)
          → OnThrow (
              (elim r as (λ _. Outcome A × Session) [
                | return a ↦ (return a, after)
                | throw error ↦ h error after
              ]).0)
      go (return a) after = tt
      go (throw error) after = (hh error).at after

module _ {A B : Type 0} where
  and_then-IsSafe :
      (r : Outcome A) (f : A → Action B) (s : Session)
      → OnThrow r
      → ((a : A) → IsSafe (f a))
      → OnThrow (and_then r f s).0
  and_then-IsSafe (return a) f s h hf = (hf a).at s
  and_then-IsSafe (throw error) f s h hf = h

  and_then-calls :
      (r : Outcome A) (f : A → Action B) (s : Session)
      → ((a : A) (s : Session) → AreDefined s.calls → AreDefined (f a s).1.calls)
      → AreDefined s.calls
      → AreDefined (and_then r f s).1.calls
  and_then-calls (return a) f s hf old = hf a s old
  and_then-calls (throw error) f s hf old = old

  pub bind-IsSafe :
      (m : Action A) (f : A → Action B) → IsSafe m → ((a : A) → IsSafe (f a)) → IsSafe (m >>= f)
  unfolding ◌>>=◌
  bind-IsSafe m f hm hf = record {
    at = λ s. let (r, after) = m s in and_then-IsSafe r f after (hm.at s) hf;
    calls = λ s old. and_then-calls (m s).0 f (m s).1 (λ a. (hf a).calls) (hm.calls s old);
  }

module _ {host : Host} (regular : IsRegular host) where
  pub call-IsSafe :
      (target : Target) (method : String) (params : Json)
      → IsDefined method
      → IsSafe (call host target method params)
  unfolding call
  call-IsSafe target method params defined = record {
    calls = λ s old. AreDefined-append s.calls _ old defined;
    at = λ s.
        let c : Call = record { target = target; method = method; params = params } in
        go s c (host.client s.calls c) refl;
  }
    where
      go : (s : Session) (c : Call) (r : Outcome Json) → host.client s.calls c ≡ r → OnThrow r
      go s c (return a) e = tt
      go s c (throw error) e = regular.rejections s.calls c error e

  pub get-IsSafe : (v : Json) (k : String) → IsSafe (get host v k)
  unfolding get
  get-IsSafe v k = if-IsSafe (is_nullish v) _ _ (raise-IsSafe _ regular.type_errors) (pure-IsSafe _)

  pub get_length-IsSafe : (v : Json) → IsSafe (get_length host v)
  unfolding get_length
  get_length-IsSafe v =
      if-IsSafe (is_nullish v) _ _ (raise-IsSafe _ regular.type_errors) (pure-IsSafe _)

  pub each-IsSafe : (v : Json) → IsSafe (each host v)
  unfolding each
  each-IsSafe (arr vs) = pure-IsSafe (elems vs)
  each-IsSafe _ = raise-IsSafe _ regular.type_errors

  pub map_each-IsSafe :
      (f : Json → Action Json) (vs : List Json)
      → ((v : Json) → IsSafe (f v))
      → IsSafe (map_each host f vs)
  unfolding map_each
  map_each-IsSafe f [] h = pure-IsSafe []
  map_each-IsSafe f (v ∷ vs) h = bind-IsSafe (f v) _ (h v) (λ w.
      bind-IsSafe (map_each host f vs) _ (map_each-IsSafe f vs h) (λ ws. pure-IsSafe (w ∷ ws)))

  -- An error describes itself.
  get-returns :
      (v : Json) (k : String) (s : Session) → IsError v → get host v k s ≡ (return (opt v k), s)
  unfolding get raise pure
  get-returns v k s e = rw e

  pub error_message-IsTotal : (error : Json) → IsError error → IsTotal (error_message host error)
  unfolding error_message
  error_message-IsTotal error e = record {
    at = λ s. (opt error "message", rw (get-returns error "message" s e));
    calls = λ s old. rw (get-returns error "message" s e) old;
  }

  pub error_body_message-IsTotal :
      (error : Json) → IsError error → IsTotal (error_body_message host error)
  unfolding error_body_message ◌>>=◌ pure
  error_body_message-IsTotal error e = record {
    at = λ s. (
      or_else (opt (opt error "body") "message") (opt error "message"),
      rw (get-returns error "body" s e) (rw (get-returns error "message" s e)),
    );
    calls = λ s old. rw (get-returns error "body" s e, get-returns error "message" s e) old;
  }

  pub error_body-IsTotal : (error : Json) → IsError error → IsTotal (error_body host error)
  unfolding error_body ◌>>=◌ pure
  error_body-IsTotal error e = record {
    at = λ s. (
      or_else (opt error "body") (opt error "message"),
      rw (get-returns error "body" s e) (rw (get-returns error "message" s e)),
    );
    calls = λ s old. rw (get-returns error "body" s e, get-returns error "message" s e) old;
  }

pub remember-IsSafe : (caps : SpaceFieldCaps) → IsSafe (remember caps)
unfolding remember
remember-IsSafe caps = quiet-IsSafe _ (λ s. tt) (λ s. refl)

module _ {host : Host} (regular : IsRegular host) where
  fetch_caps-IsSafe :
      (target : Target) (index : String) → IsSafe (fetch_space_field_caps host target index)
  unfolding fetch_space_field_caps
  fetch_caps-IsSafe target index =
      try_catch-IsSafe _ _
        (bind-IsSafe _ _ (call-IsSafe regular target "fieldCaps" _ tt)
          (λ response. remember-IsSafe (caps_of response)))
        (λ error. remember-IsSafe fallback_caps)

  cached_or_fetch-IsSafe :
      (target : Target) (index : String) (cached : Option SpaceFieldCaps)
      → IsSafe (cached_or_fetch host target index cached)
  unfolding cached_or_fetch
  cached_or_fetch-IsSafe target index (some caps) = quiet-IsSafe _ (λ s. tt) (λ s. refl)
  cached_or_fetch-IsSafe target index none = fetch_caps-IsSafe target index

  -- The field capabilities never fail.
  pub caps-IsSafe :
      (target : Target) (index : String) → IsSafe (get_space_field_caps host target index)
  unfolding get_space_field_caps
  caps-IsSafe target index = record {
    at = λ s. (cached_or_fetch-IsSafe target index s.caps).at s;
    calls = λ s old. (cached_or_fetch-IsSafe target index s.caps).calls s old;
  }

module _ (body : Action Reply) (describe : Json → Action Json) where
  -- A handler replies if its body is safe and the description of an error returns.
  pub handle-IsTotal :
      IsSafe body → ((e : Json) → IsError e → IsTotal (describe e)) → IsTotal (handle body describe)
  unfolding handle try_catch ◌>>=◌ pure
  handle-IsTotal safe total = record {
    at = λ s. go (body s).0 (body s).1 (safe.at s);
    calls = λ s old. called (body s).0 (body s).1 (safe.at s) (safe.calls s old);
  }
    where
      called :
          (r : Outcome Reply) (after : Session)
          → OnThrow r
          → AreDefined after.calls
          → AreDefined (
              (elim r as (λ _. Outcome Reply × Session) [
                | return reply ↦ (return reply, after)
                | throw error ↦
                    let (result, later) = describe error after in
                    and_then result (λ v. pure (fail v)) later
              ]).1.calls)
      called (return reply) after h old = old
      called (throw error) after h old =
          and_then-calls (describe error after).0 (λ v. pure (fail v)) (describe error after).1
            (λ v s kept. kept) ((total error h).calls after old)

      described :
          (r : Outcome Json) (after : Session) (d : Json)
          → r ≡ return d
          → (a : Reply) × ((and_then r (λ v. pure (fail v)) after).0 ≡ return a)
      described r after d e = (fail d, rw e)

      go :
          (r : Outcome Reply) (after : Session)
          → OnThrow r
          → (a : Reply) × ((elim r as (λ _. Outcome Reply × Session) [
            | return reply ↦ (return reply, after)
            | throw error ↦
                let (result, later) = describe error after in
                and_then result (λ v. pure (fail v)) later
          ]).0
              ≡ return a)
      go (return reply) after h = (reply, refl)
      go (throw error) after h =
          let (d, e) = (total error h).at after in
          described (describe error after).0 (describe error after).1 d e

pub pure-IsTotal : {A : Type 0} (a : A) → IsTotal (pure a)
unfolding pure
pure-IsTotal a = record { at = λ s. (a, refl); calls = λ s old. old }

pub bind-IsTotal :
    {A B : Type 0} (m : Action A) (f : A → Action B)
    → IsTotal m
    → ((a : A) → IsTotal (f a))
    → IsTotal (m >>= f)
unfolding ◌>>=◌
bind-IsTotal m f total later = record {
  at = λ s. let (a, e) = total.at s in let (b, e_later) = (later a).at (m s).1 in (b, rw e e_later);
  calls = λ s old. and_then-calls (m s).0 f (m s).1 (λ a. (later a).calls) (total.calls s old);
}

-- So does one that catches what it throws with a reply of its own.
pub try_catch-IsTotal :
    (m : Action Reply) (h : Json → Action Reply)
    → IsSafe m
    → ((e : Json) → IsError e → IsTotal (h e))
    → IsTotal (try_catch m h)
unfolding try_catch
try_catch-IsTotal m h safe total = record {
  at = λ s. by_result (m s).0 (m s).1 (safe.at s);
  calls = λ s old. called (m s).0 (m s).1 (safe.at s) (safe.calls s old);
}
  where
    called :
        (r : Outcome Reply) (after : Session)
        → OnThrow r
        → AreDefined after.calls
        → AreDefined (
            (elim r as (λ _. Outcome Reply × Session) [
              | return reply ↦ (return reply, after)
              | throw error ↦ h error after
            ]).1.calls)
    called (return reply) after e old = old
    called (throw error) after e old = (total error e).calls after old

    by_result :
        (r : Outcome Reply) (after : Session)
        → OnThrow r
        → (a : Reply) × ((elim r as (λ _. Outcome Reply × Session) [
          | return reply ↦ (return reply, after)
          | throw error ↦ h error after
        ]).0
            ≡ return a)
    by_result (return reply) after e = (reply, refl)
    by_result (throw error) after e = (total error e).at after

pub ruleset safe_rules = (
  pure-IsSafe, if-IsSafe, try_catch-IsSafe, bind-IsSafe, call-IsSafe, get-IsSafe, each-IsSafe,
  map_each-IsSafe, get_length-IsSafe,
)
