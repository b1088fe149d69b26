-- ===== src/Server/Client/Steps.antt =====
-- What the steps of a handler of server/services do, by how each of them ended.
use wazuh_dashboard_security.Base.{String, true, false, [], ◌∷◌, ◌≡◌, refl, ap, ◌∙◌, ◌++◌}
use wazuh_dashboard_security.Json.{Json, opt, is_nullish}
use wazuh_dashboard_security.Server.Client.{
  Host, Reply, Session, Call, Outcome, return, throw, Action, pure, raise, ◌>>=◌, and_then, call,
  get, handle, try_catch, fail,
}

pub get-present :
    (host : Host) (v : Json) (k : String) (s : Session)
    → is_nullish v ≡ false
    → get host v k s ≡ (return (opt v k), s)
unfolding get pure raise
get-present host v k s e = rw e refl

pub get-missing :
    (host : Host) (v : Json) (k : String) (s : Session)
    → is_nullish v ≡ true
    → get host v k s ≡ (throw host.type_error, s)
unfolding get pure raise
get-missing host v k s e = rw e refl

module _ {A B : Type 0} where
  pub returning :
      (m : Action A) (f : A → Action B) (s after : Session) (a : A) (r : Outcome B × Session)
      → m s ≡ (return a, after)
      → f a after ≡ r
      → (m >>= f) s ≡ r
  unfolding ◌>>=◌
  returning m f s after a r e h = ap (λ p. and_then p.0 f p.1) e ∙ h

  pub throwing :
      (m : Action A) (f : A → Action B) (s after : Session) (error : Json)
      → m s ≡ (throw error, after)
      → (m >>= f) s ≡ (throw error, after)
  unfolding ◌>>=◌
  throwing m f s after error e = ap (λ p. and_then p.0 f p.1) e

pub handle-throws :
    (m : Action Reply) (d : Json → Action Json) (s after last : Session) (error thrown : Json)
    → m s ≡ (throw error, after)
    → d error after ≡ (throw thrown, last)
    → (handle m d s).0 ≡ throw thrown
unfolding handle try_catch
handle-throws m d s after last error thrown e f =
    ap
      (λ p.
        (elim p.0 as (λ _. Outcome Reply × Session) [
          | return reply ↦ (return reply, p.1)
          | throw err ↦ (d err >>= λ v. pure (fail v)) p.1
        ]).0)
      e
    ∙ ap (λ p. p.0) (throwing (d error) (λ v. pure (fail v)) after last thrown f)

pub call-throws :
    (host : Host) (c : Call) (s : Session) (error : Json)
    → host.client s.calls c ≡ throw error
    → call host c.target c.method c.params s ≡ (throw error, record s { calls = s.calls ++ c ∷ [] })
unfolding call
call-throws host c s error e = ap (λ r. (r, record s { calls = s.calls ++ c ∷ [] })) e

-- A body that throws is answered with what the handler makes of the error.
pub handle-answers :
    (m : Action Reply) (d : Json → Action Json) (s after last : Session) (error v : Json)
    → m s ≡ (throw error, after)
    → d error after ≡ (return v, last)
    → handle m d s ≡ (return (fail v), last)
unfolding handle try_catch pure
handle-answers m d s after last error v e f =
    ap
      (λ p. elim p.0 as (λ _. Outcome Reply × Session) [
        | return reply ↦ (return reply, p.1)
        | throw err ↦ (d err >>= λ w. pure (fail w)) p.1
      ])
      e
    ∙ returning (d error) (λ w. pure (fail w)) after last v _ f refl
