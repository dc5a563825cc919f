-- ===== src/Cli/Api.antt =====
-- crates/cli/src/api/mod.rs and error.rs: the client of the management API. `Http` stands for reqwest and
-- url, and for serde_json: whether the base URL takes path segments, what comes back for a request, and the decoders.
use Prim.Native.String.{◌++◌ as cat}
use faultforge.Prelude.{
  ℕ, String, Bool, true, false, ◌&&◌, Option, none, some, List, [], ◌∷◌, leb, ltb, ◌==◌,
  if◌then◌else◌,
}
use faultforge.Cli.Model.{Agent, Experiment, ExperimentSummary}

pub data ApiError : Type 0 where
  connect : (url : String) → ApiError
  timeout not_found : ApiError
  transport conflict decode invalid_url : String → ApiError
  validation : List String → ApiError
  status : (code : ℕ) (body : String) → ApiError

pub data Result {ℓ} (A : Type ℓ) : Type ℓ where
  ok : A → Result A
  err : ApiError → Result A

pub data Method : Type 0 where
  get post : Method

-- the sending fails, as reqwest classifies it, or a response comes
pub data Reply (B : Type 0) : Type 0 where
  unsent : (is_timeout is_connect : Bool) (error : String) → Reply B
  response : (code : ℕ) (body : B) → Reply B

-- what serde_json makes of a body
pub data Decoded {ℓ} (A : Type ℓ) : Type ℓ where
  value : A → Decoded A
  bad : (error : String) → Decoded A

-- `D` is a definition, as parsed from its file, and `B` a body, as its bytes come.
pub record Http (D B : Type 0) : Type 0 where
  pub base_url : String
  pub takes_segments : Bool
  pub send : Method → List String → Option D → Reply B
  pub text : B → String
  pub agent : B → Decoded Agent
  pub agents : B → Decoded (List Agent)
  pub experiment : B → Decoded Experiment
  pub experiments : B → Decoded (List ExperimentSummary)
  pub errors : String → Decoded (List String)

-- `Client::new`, on what the parsing of the URL and the building of the HTTP client come to
unfoldable pub new_client :
    {D B : Type 0} → String → Decoded (Unit {0}) → Decoded (Http D B) → Result (Http D B)
new_client base (bad e) built = err (invalid_url (cat base (cat ": " e)))
new_client base (value _) (bad e) = err (transport e)
new_client base (value _) (value http) = ok http

abbrev pub is_success : ℕ → Bool
is_success code = leb 200 code && ltb code 300

-- `json` with its error mapped
abbrev pub decoded {ℓ} : {A : Type ℓ} → Decoded A → Result A
decoded (value a) = ok a
decoded (bad e) = err (decode e)

infixl 5 ◌>>=◌
abbrev pub ◌>>=◌ {ℓ κ} : {A : Type ℓ} {B : Type κ} → Result A → (A → Result B) → Result B
ok a >>= f = f a
err e >>= f = err e

-- a decoded body on success, and a `status_error` otherwise
abbrev pub or_status {ℓ} :
    {A : Type ℓ} {B : Type 0} → (B → String) → (B → Decoded A) → ℕ × B → Result A
or_status text decoder (code, body) =
    if is_success code then decoded (decoder body) else err (status code (text body))

module _ {D B : Type 0} (http : Http D B) where
  unfoldable pub classify_transport : Bool → Bool → String → ApiError
  classify_transport true is_connect error = timeout
  classify_transport false true error = connect http.base_url
  classify_transport false false error = transport error

  unfoldable pub replied : Reply B → Result (ℕ × B)
  unfolding classify_transport
  replied (unsent is_timeout is_connect error) =
      err (classify_transport is_timeout is_connect error)
  replied (response code body) = ok (code, body)

  -- `endpoint` and the sending of the request, with its transport errors mapped
  unfoldable pub exchange : Method → List String → Option D → Result (ℕ × B)
  unfolding replied
  exchange method segments body =
      if http.takes_segments
      then replied (http.send method segments body)
      else err (invalid_url http.base_url)

  unfoldable pub list_agents : Result (List Agent)
  list_agents = do reply ← exchange get ("agents" ∷ []) none; or_status http.text http.agents reply

  unfoldable pub get_agent : String → Result Agent
  get_agent hostname = do
    (code, body) ← exchange get ("agents" ∷ hostname ∷ []) none
    if code == 404 then err not_found else or_status http.text http.agent (code, body)

  unfoldable pub validation_error : String → Decoded (List String) → ApiError
  validation_error body (value errors) = validation errors
  validation_error body (bad _) = validation (body ∷ [])

  unfoldable pub run_experiment : D → Result Experiment
  unfolding validation_error
  run_experiment definition = do
    (code, body) ← exchange post ("experiments" ∷ []) (some definition)
    if code == 422
        then err (validation_error (http.text body) (http.errors (http.text body)))
        else or_status http.text http.experiment (code, body)

  unfoldable pub list_experiments : Result (List ExperimentSummary)
  list_experiments = do
    reply ← exchange get ("experiments" ∷ []) none
    or_status http.text http.experiments reply

  unfoldable pub get_experiment : String → Result Experiment
  get_experiment id = do
    (code, body) ← exchange get ("experiments" ∷ id ∷ []) none
    if code == 404 then err not_found else or_status http.text http.experiment (code, body)

  -- the `match` on the status of the calls that change something; the text is that of a conflict
  unfoldable pub acted : String → ℕ × B → Result (Unit {0})
  acted why (code, body) =
      if code == 404
      then err not_found
      else if code == 409
      then err (conflict why)
      else if is_success code
      then ok tt
      else err (status code (http.text body))

  unfoldable pub halt_experiment : String → Result (Unit {0})
  unfolding acted
  halt_experiment id = do
    reply ← exchange post ("experiments" ∷ id ∷ "halt" ∷ []) none
    acted "experiment is already terminal" reply

  unfoldable pub clear_taint : String → Result (Unit {0})
  unfolding acted
  clear_taint hostname = do
    reply ← exchange post ("agents" ∷ hostname ∷ "clear-taint" ∷ []) none
    acted "host has no live session; the agent must be connected to clear its taint" reply
