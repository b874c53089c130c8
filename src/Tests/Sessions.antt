-- ===== src/Tests/Sessions.antt =====
-- A refresh token that two requests rotate.
use order_lifecycle_backend.Prelude.{◌+◌, ◌≡◌, refl, false, [], ◌∷◌, arith}
use order_lifecycle_backend.Auth.{
  UserAccount, user, RefreshToken, AuthState, Crypto, ok, err, unauthorized, claim_and_issue,
  claim_token, issue_tokens, create_refresh_token,
}
use order_lifecycle_backend.Auth.Rotation.{live_in_family, rotation_twice}

abbrev pub crypto : Crypto
crypto = record {
  sha256 = λ n. n + 1000;
  random_bytes = λ n. n + 50;
  random_uuid = λ n. n + 100;
  sign = λ id role. id;
}

abbrev pub account : UserAccount
account = record {
  id = 7;
  email = 11;
  password = 1012;
  role = user;
  disabled = false;
  created_at = 5;
}

abbrev token : RefreshToken
token = record {
  id = 3;
  user_id = 7;
  family_id = 4;
  token_hash = 1003;
  expires_at = 90;
  revoked = false;
}

abbrev pub start : AuthState
start = record { users = account ∷ []; tokens = token ∷ []; drawn = 0; now = 50 }

abbrev rotated : AuthState
rotated = (claim_and_issue crypto 7 token account start).1

rotates :
    claim_and_issue crypto 7 token account start
    ≡ (ok (record { access_token = 7; refresh_token = 50 }), rotated)
unfolding claim_and_issue claim_token issue_tokens create_refresh_token
rotates = refl

rotation_twice_example :
    ((claim_and_issue crypto 7 token account rotated).0 ≡ err unauthorized)
    × (live_in_family 4 (claim_and_issue crypto 7 token account rotated).1.tokens ≡ 0)
rotation_twice_example =
    rotation_twice crypto 7 token account account (record { access_token = 7; refresh_token = 50 })
      start rotated (λ n. omega arith) rotates
