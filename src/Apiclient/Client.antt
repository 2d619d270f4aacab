-- ===== src/Apiclient/Client.antt =====
-- apiclient/client.go, player.go and brawlers.go: requests, and the errors that callers tell apart.
-- The network and the decoder of JSON are parameters.
use brawl_stars_guide.Base.{
  ℕ, Bool, false, Text, codes, ◌++◌, Option, some, none, Error, no_rows, api_error, global_halt,
  other, Result, ok, err, ◌==◌, if◌then◌else◌,
}
use brawl_stars_guide.Apiclient.Tags.{encoded_tag}
use brawl_stars_guide.Apiclient.Types.{PlayerResponse, BattleLogResponse, BrawlerListResponse}

abbrev pub base_url : Text
base_url = codes "https://api.brawlstars.com/v1"

-- What comes back for a request: no response (the transport's error), or a status and a body.
pub data Response : Type 0 where
  no_response : Response
  response : ℕ → Text → Response

pub record Network : Type 0 where
  pub valid_request : Text → Bool  -- http.NewRequestWithContext accepts the URL
  pub send : Text → Text → Response  -- the bearer token and the URL

pub record Client : Type 0 where
  pub token : Text
  pub network : Network

-- New: the timeout of ten seconds is the network's, which then gives no response.
abbrev pub new_client : Network → Text → Client
new_client network token = record { token = token; network = network }

abbrev decode_body {ℓ} : {A : Type ℓ} → Option A → Result A
decode_body none = err other
decode_body (some a) = ok a

abbrev receive {ℓ} : {A : Type ℓ} → (Text → Option A) → Text → Response → Result A
receive decode path no_response = err other
receive decode path (response status body) =
    if status == 200 then decode_body (decode body) else err (api_error status path)

unfoldable pub get {ℓ} : {A : Type ℓ} → Client → (Text → Option A) → Text → Result A
get c decode path =
    if c.network.valid_request (base_url ++ path)
    then receive decode path (c.network.send c.token (base_url ++ path))
    else err other

unfoldable pub get_player :
    (ℕ → ℕ) → Client → (Text → Option PlayerResponse) → Text → Result PlayerResponse
unfolding get
get_player wide c decode tag = get c decode (codes "/players/" ++ encoded_tag wide tag)

unfoldable pub get_battle_log :
    (ℕ → ℕ) → Client → (Text → Option BattleLogResponse) → Text → Result BattleLogResponse
unfolding get
get_battle_log wide c decode tag =
    get c decode (codes "/players/" ++ encoded_tag wide tag ++ codes "/battlelog")

unfoldable pub get_brawlers :
    Client → (Text → Option BrawlerListResponse) → Result BrawlerListResponse
unfolding get
get_brawlers c decode = get c decode (codes "/brawlers")

-- errors.As to *APIError, with a test of its status.
abbrev has_status : ℕ → Error → Bool
has_status code (api_error status path) = status == code
has_status code no_rows = false
has_status code global_halt = false
has_status code other = false

unfoldable pub is_not_found : Error → Bool
is_not_found e = has_status 404 e

unfoldable pub is_too_many_requests : Error → Bool
is_too_many_requests e = has_status 429 e

unfoldable pub is_unauthorized : Error → Bool
is_unauthorized e = has_status 401 e

unfoldable pub is_forbidden : Error → Bool
is_forbidden e = has_status 403 e
