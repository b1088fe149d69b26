-- ===== src/Server/Client.antt =====
-- The effect of a request handler of server/services, and MDSEnabledClientService.getClient.
-- A handler calls the cluster's client, which may answer or reject; its answer may depend on all
-- calls made before. The client, and the value that the engine throws as a TypeError, are a
-- parameter (`Host`): they are no code of this repository.
pub mod Steps
use wazuh_dashboard_security.Base.{
  ℕ, String, Bool, false, List, [], ◌∷◌, ◌++◌, ◌≡◌, Option, ◌&&◌, if◌then◌else◌,
}
use wazuh_dashboard_security.Json.{Json, arr, elems, truthy, opt, is_nullish, or_else}
use wazuh_dashboard_security.Json.Text.{js_length}

-- Which client getClient chose: a data source's callAPI, or the scoped callAsCurrentUser.
pub data Target : Type 0 where
  current_user : Target
  data_source : Json → Target

pub record Call : Type 0 where
  pub target : Target
  pub method : String
  pub params : Json

pub data Outcome {ℓ} (A : Type ℓ) : Type ℓ where
  return : A → Outcome A
  throw : Json → Outcome A

pub record Host : Type 0 where
  pub client : List Call → Call → Outcome Json
  pub type_error : Json

-- A thrown value on which `error.body` does not itself throw.
abbrev pub IsError : Json → Type 0
IsError error = is_nullish error ≡ false

-- The client rejects with errors, never with null or undefined, and a TypeError is one.
pub record IsRegular (host : Host) : Type 0 where
  pub rejections :
      (calls : List Call) (c : Call) (error : Json)
      → host.client calls c ≡ throw error
      → IsError error
  pub type_errors : IsError host.type_error

pub record SpaceFieldCaps : Type 0 where
  pub search_fields : List String
  pub agg_fields : List String

-- The calls made so far, and a service's cached field capabilities.
pub record Session : Type 0 where
  pub calls : List Call
  pub caps : Option SpaceFieldCaps

pub record Request : Type 0 where
  pub params : Json
  pub query : Json
  pub body : Json

-- response.custom({ statusCode, body })
pub data ServerResponse : Type 0 where
  success : Json → ServerResponse
  failure : Json → ServerResponse
  -- { ok: false, response }, and no body at all.
  refusal : Json → ServerResponse
  no_body : ServerResponse

pub record Reply : Type 0 where
  pub status_code : ℕ
  pub body : ServerResponse

abbrev pub succeed : Json → Reply
succeed value = record { status_code = 200; body = success value }

abbrev pub fail : Json → Reply
fail error = record { status_code = 200; body = failure error }

abbrev pub Action : Type 0 → Type 0
Action A = Session → Outcome A × Session

module _ {A : Type 0} where
  unfoldable pub pure : A → Action A
  pure a s = (return a, s)

  unfoldable pub raise : Json → Action A
  raise error s = (throw error, s)

  unfoldable pub try_catch : Action A → (Json → Action A) → Action A
  try_catch body handler s =
      let (result, after) = body s in
      elim result [ return a ↦ (return a, after) | throw error ↦ handler error after ]

module _ {A B : Type 0} where
  abbrev pub and_then : Outcome A → (A → Action B) → Action B
  and_then (return a) f s = f a s
  and_then (throw error) f s = (throw error, s)

  infixl 5 ◌>>=◌
  unfoldable pub ◌>>=◌ : Action A → (A → Action B) → Action B
  m >>= f = λ s. let (result, after) = m s in and_then result f after

-- request.query.dataSourceId decides, where data sources are enabled.
unfoldable pub get_client : Bool → Request → Target
unfolding opt
get_client data_source_enabled request =
    let id = opt request.query "dataSourceId" in
    if data_source_enabled && truthy id then data_source id else current_user

module _ (host : Host) where
  -- await client(method, params)
  unfoldable pub call : Target → String → Json → Action Json
  call target method params s =
      let c : Call = record { target = target; method = method; params = params } in
      (host.client s.calls c, record s { calls = s.calls ++ c ∷ [] })

  -- v.k, which throws on null and undefined.
  unfoldable pub get : Json → String → Action Json
  get v k = if is_nullish v then raise host.type_error else pure (opt v k)

  -- v.length
  unfoldable pub get_length : Json → Action Json
  get_length v = if is_nullish v then raise host.type_error else pure (js_length v)

  -- The elements that `v.map` and `v.forEach` go through; on what is no array they throw.
  unfoldable pub each : Json → Action (List Json)
  each (arr vs) = pure (elems vs)
  each _ = raise host.type_error

  unfoldable pub map_each : (Json → Action Json) → List Json → Action (List Json)
  map_each f [] = pure []
  map_each f (v ∷ vs) = do w ← f v; ws ← map_each f vs; pure (w ∷ ws)

  -- error.body?.message || error.message
  unfoldable pub error_body_message : Json → Action Json
  error_body_message error = do
    body ← get error "body"
    message ← get error "message"
    pure (or_else (opt body "message") message)

  -- error.message
  unfoldable pub error_message : Json → Action Json
  error_message error = get error "message"

  -- error.body || error.message
  unfoldable pub error_body : Json → Action Json
  error_body error = do
    body ← get error "body"
    message ← get error "message"
    pure (or_else body message)

  -- error.body.message || error.message, which throws where the error has no body.
  unfoldable pub error_body_message_unguarded : Json → Action Json
  error_body_message_unguarded error = do
    body ← get error "body"
    body_message ← get body "message"
    message ← get error "message"
    pure (or_else body_message message)

-- The frame of every handler: try { … } catch (error) { … ok: false … }.
unfoldable pub handle : Action Reply → (Json → Action Json) → Action Reply
handle body describe =
    try_catch body (λ error. do described ← describe error; pure (fail described))

-- Opens the effects, for what computes with a handler.
unfoldable pub effects : Unit {0}
unfolding pure raise try_catch ◌>>=◌ handle call get get_length each map_each opt get_client
    error_message error_body error_body_message error_body_message_unguarded
effects = tt
