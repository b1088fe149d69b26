-- ===== src/Server/LogTest/Guards.antt =====
-- What a log test asks of the cluster, and when.
use wazuh_dashboard_security.Base.{
  String, Bool, true, false, not, [], ◌∷◌, ◌++◌, ◌≡◌, ◌⊎◌, refl, ap, ◌∙◌, if◌then◌else◌, inl, inr,
}
use wazuh_dashboard_security.Json.{Json, undefined, null, str, object, truthy, is_nullish, opt}
use wazuh_dashboard_security.Server.Client.{
  Host, Request, Reply, Session, Outcome, return, throw, Action, Call, pure, raise, get_client,
  ◌>>=◌, and_then, call, get, handle, try_catch, fail, succeed,
}
use wazuh_dashboard_security.Server.LogTest.{location_of, read_log_test, send_log_test, log_test}

-- The session stays as it is.
record IsQuiet {A : Type 0} (m : Action A) : Type 0 where
  at : (s : Session) → (m s).1 ≡ s

pure-IsQuiet : {A : Type 0} (a : A) → IsQuiet (pure a)
unfolding pure
pure-IsQuiet a = record { at = λ s. refl }

get-IsQuiet : (host : Host) (v : Json) (k : String) → IsQuiet (get host v k)
unfolding get pure raise
get-IsQuiet host v k = go (is_nullish v)
  where
    go : (b : Bool) → IsQuiet (if b then raise host.type_error else pure (opt v k))
    go true = record { at = λ s. refl }
    go false = record { at = λ s. refl }

location_of-IsQuiet : (host : Host) (v : Json) → IsQuiet (location_of host v)
unfolding location_of pure raise
location_of-IsQuiet host undefined = record { at = λ s. refl }
location_of-IsQuiet host null = record { at = λ s. refl }
location_of-IsQuiet host (str t) = record { at = λ s. refl }
location_of-IsQuiet host _ = record { at = λ s. refl }

module _ {A B : Type 0} where
  and_then-quiet :
      (r : Outcome A) (f : A → Action B) (s after : Session)
      → after ≡ s
      → ((a : A) → IsQuiet (f a))
      → (and_then r f after).1 ≡ s
  and_then-quiet (return a) f s after e h = rw e ((h a).at s)
  and_then-quiet (throw error) f s after e h = e

  bind-IsQuiet :
      (m : Action A) (f : A → Action B) → IsQuiet m → ((a : A) → IsQuiet (f a)) → IsQuiet (m >>= f)
  unfolding ◌>>=◌
  bind-IsQuiet m f h k = record { at = λ s. and_then-quiet (m s).0 f s (m s).1 (h.at s) k }

read_log_test-IsQuiet : (host : Host) (request : Request) → IsQuiet (read_log_test host request)
unfolding read_log_test
read_log_test-IsQuiet host request =
    search (bind-IsQuiet, pure-IsQuiet, get-IsQuiet, location_of-IsQuiet) depth 10

-- The three things that a log test must have.
abbrev pub IsReady : Json → Type 0
IsReady test =
    (is_nullish (opt test "queue") ≡ false)
    × (truthy (opt test "event") ≡ true)
    × (truthy (opt test "space") ≡ true)

abbrev pub execution : Bool → Request → Json → Call
execution enabled request test = record {
  target = get_client enabled request;
  method = "securityAnalytics.executeLogtest";
  params = object (("body", test) ∷ []);
}

handle-session :
    (m : Action Reply) (d : Json → Action Json)
    → ((e : Json) → IsQuiet (d e))
    → (s : Session) → (handle m d s).1 ≡ (m s).1
unfolding handle try_catch
handle-session m d h s = go (m s).0 (m s).1
  where
    go :
        (r : Outcome Reply) (after : Session)
        → (elim r as (λ _. Outcome Reply × Session) [
          | return reply ↦ (return reply, after)
          | throw error ↦ (d error >>= λ v. pure (fail v)) after
        ]).1
          ≡ after
    go (return reply) after = refl
    go (throw error) after =
        (bind-IsQuiet (d error) _ (h error) (λ v. pure-IsQuiet (fail v))).at after

module _ (enabled : Bool) (host : Host) (request : Request) where
  abbrev pub executed : Session → Json → Session
  executed s test = record s { calls = s.calls ++ execution enabled request test ∷ [] }

  -- The body of send_log_test over the results of its tests.
  abbrev guarded : Json → Bool → Bool → Bool → Action Reply
  guarded test queue event space =
      if queue
      then pure (fail (str "Queue is required."))
      else (if not event
          then pure (fail (str "Event is required."))
          else (if not space then pure (fail (str "Space is required.")) else (do
            response ←
                call host (get_client enabled request) "securityAnalytics.executeLogtest"
                  (object (("body", test) ∷ []))
            pure (succeed response))))

  answered :
      (r : Outcome Json) (after : Session) → (and_then r (λ v. pure (succeed v)) after).1 ≡ after
  unfolding pure
  answered (return v) after = refl
  answered (throw error) after = refl

  send_log_test-executes :
      (test : Json) (s : Session)
      → IsReady test
      → (send_log_test enabled host request test s).1 ≡ executed s test
  unfolding send_log_test pure call ◌>>=◌
  send_log_test-executes test s (queue, event, space) = rw (queue, event, space) (answered _ _)

  send_log_test-calls :
      (test : Json) (s : Session)
      → ((send_log_test enabled host request test s).1 ≡ s)
        ⊎ (IsReady test × ((send_log_test enabled host request test s).1 ≡ executed s test))
  unfolding send_log_test pure call ◌>>=◌
  send_log_test-calls test s =
      go (is_nullish (opt test "queue")) (truthy (opt test "event")) (truthy (opt test "space"))
    where
      go :
          (queue event space : Bool)
          → ((guarded test queue event space s).1 ≡ s)
            ⊎ (((queue ≡ false) × (event ≡ true) × (space ≡ true))
                × ((guarded test queue event space s).1 ≡ executed s test))
      go true event space = inl refl
      go false false space = inl refl
      go false true false = inl refl
      go false true true = inr ((refl, refl, refl), answered _ _)

  -- A log test is executed only where it has a queue, an event and a space, then exactly once, with
  -- the location and the metadata as the handler completes them; else the session is unchanged.
  pub log_test-calls :
      (s : Session)
      → ((log_test enabled host request s).1 ≡ s)
        ⊎ ((test : Json) × IsReady test
            × ((read_log_test host request s).0 ≡ return test)
            × ((log_test enabled host request s).1 ≡ executed s test))
  unfolding log_test ◌>>=◌
  log_test-calls s =
      go (read_log_test host request s).0 (read_log_test host request s).1 _ refl
        ((read_log_test-IsQuiet host request).at s) (handle-session _ _ (λ e. pure-IsQuiet _) s)
    where
      go :
          (r : Outcome Json) (after last : Session)
          → (read_log_test host request s).0 ≡ r
          → after ≡ s
          → last ≡ (and_then r (send_log_test enabled host request) after).1
          → (last ≡ s)
            ⊎ ((test : Json) × IsReady test
                × ((read_log_test host request s).0 ≡ return test)
                × (last ≡ executed s test))
      go (throw error) after last found quiet e = inl (e ∙ quiet)
      go (return test) after last found quiet e =
          let sent = e ∙ ap (λ t. (send_log_test enabled host request test t).1) quiet in
          elim (send_log_test-calls test s) [
            | inl unsent ↦ inl (sent ∙ unsent)
            | inr (ready, once) ↦ inr (test, ready, found, sent ∙ once)
          ]

  -- A log test that is read and has a queue, an event and a space is executed, exactly once.
  pub log_test-executes :
      (s : Session) (test : Json)
      → (read_log_test host request s).0 ≡ return test
      → IsReady test
      → (log_test enabled host request s).1 ≡ executed s test
  unfolding log_test ◌>>=◌
  log_test-executes s test found ready =
      handle-session _ _ (λ e. pure-IsQuiet _) s
      ∙ ap
          (λ r.
            (and_then r (send_log_test enabled host request) (read_log_test host request s).1).1)
          found
      ∙ ap (λ u. (send_log_test enabled host request test u).1)
          ((read_log_test-IsQuiet host request).at s)
      ∙ send_log_test-executes test s ready
