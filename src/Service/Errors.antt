-- ===== src/Service/Errors.antt =====
-- packages/service/src/errors.ts: the OAuth error codes and their HTTP status.
use warden_md.Common.{ℕ, String}

pub data OauthErrorCode : Type 0 where
  access_denied : OauthErrorCode
  authorization_pending : OauthErrorCode
  expired_token : OauthErrorCode
  invalid_client : OauthErrorCode
  invalid_grant : OauthErrorCode
  invalid_request : OauthErrorCode
  invalid_scope : OauthErrorCode
  invalid_target : OauthErrorCode
  invalid_token : OauthErrorCode
  slow_down : OauthErrorCode
  temporarily_unavailable : OauthErrorCode
  unsupported_grant_type : OauthErrorCode

abbrev pub oauth_status : OauthErrorCode → ℕ
oauth_status access_denied = 400
oauth_status authorization_pending = 400
oauth_status expired_token = 400
oauth_status invalid_client = 401
oauth_status invalid_grant = 400
oauth_status invalid_request = 400
oauth_status invalid_scope = 400
oauth_status invalid_target = 400
oauth_status invalid_token = 401
oauth_status slow_down = 400
oauth_status temporarily_unavailable = 503
oauth_status unsupported_grant_type = 400

-- The code as text.
abbrev pub code_text : OauthErrorCode → String
code_text access_denied = "access_denied"
code_text authorization_pending = "authorization_pending"
code_text expired_token = "expired_token"
code_text invalid_client = "invalid_client"
code_text invalid_grant = "invalid_grant"
code_text invalid_request = "invalid_request"
code_text invalid_scope = "invalid_scope"
code_text invalid_target = "invalid_target"
code_text invalid_token = "invalid_token"
code_text slow_down = "slow_down"
code_text temporarily_unavailable = "temporarily_unavailable"
code_text unsupported_grant_type = "unsupported_grant_type"
