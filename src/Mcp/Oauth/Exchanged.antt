-- ===== src/Mcp/Oauth/Exchanged.antt =====
-- What a token pair of `token_endpoint` in mcp_server/auth/oauth_routes.py is given for.
use vargate_telemetry.Base.{◌≡◌, some, ◌∷◌, String}
use vargate_telemetry.Mcp.Oauth.Responses.{Response, returned}
use vargate_telemetry.Mcp.Oauth.Stores.{store_pop}
use vargate_telemetry.Mcp.Oauth.Server.{CodePayload, Grant, Server, Host, Moment}
use vargate_telemetry.Mcp.Oauth.Token.{
  TokenForm, TokenBody, Pair, token_row, token_body, code_grant,
}

-- A pair was issued for a grant: the answer is its body, and its row is in the table.
pub record Issued (host : Host) (m : Moment) (pair : Pair) (g : Grant)
    (x : Response TokenBody × Server) : Type 0 where
  pub body : x.0 ≡ returned (token_body host pair g)
  pub row : (rows : _) × (x.1.access_tokens ≡ token_row host m pair g ∷ rows)

-- The code that was redeemed: one of the store, not expired, for the client that redeems it, with a
-- verifier whose hash is the code's challenge.
pub record Redeemed (host : Host) (m : Moment) (pair : Pair) (f : TokenForm) (s : Server)
    (x : Response TokenBody × Server) : Type 0 where
  pub code : String
  pub verifier : String
  pub client_id : String
  pub payload : CodePayload
  pub given_code : f.code ≡ some code
  pub given_verifier : f.code_verifier ≡ some verifier
  pub given_client : f.client_id ≡ some client_id
  pub popped : (store_pop m.now code s.auth_codes).0 ≡ some payload
  pub client : payload.client_id ≡ client_id
  pub pkce : host.sha256_base64url verifier ≡ payload.code_challenge
  pub issued : Issued host m pair (code_grant client_id payload) x
