-- ===== src/Auth.antt =====
-- Refresh tokens, the disabling of users, and the role guard (src/modules/auth). Hashing, signing
-- and randomness are parameters.
pub mod Rotation
pub mod Accounts
pub mod Http
pub mod Calls
use order_lifecycle_backend.Prelude.{
  ℕ, suc, ◌+◌, ◌*◌, Bool, true, false, not, ◌||◌, Option, none, some, List, [], ◌∷◌, ◌++◌, ◌==◌,
  leb, if◌then◌else◌, find, find_by, at_key, update_where, count_where,
}

pub data UserRole : Type 0 where
  user admin : UserRole

-- A row of the users table. E-mail addresses, passwords and tokens are numbers that stand for the
-- strings.
pub record UserAccount : Type 0 where
  pub id : ℕ
  pub email : ℕ
  pub password : ℕ
  pub role : UserRole
  pub disabled : Bool
  pub created_at : ℕ

pub record RefreshToken : Type 0 where
  pub id : ℕ
  pub user_id : ℕ
  pub family_id : ℕ
  pub token_hash : ℕ
  pub expires_at : ℕ
  pub revoked : Bool

-- `drawn` counts the random values drawn so far.
pub record AuthState : Type 0 where
  pub users : List UserAccount
  pub tokens : List RefreshToken
  pub drawn : ℕ
  pub now : ℕ

-- SHA-256, `randomBytes`, `randomUUID` and the JWT service with its key.
pub record Crypto : Type 0 where
  pub sha256 : ℕ → ℕ
  pub random_bytes : ℕ → ℕ
  pub random_uuid : ℕ → ℕ
  pub sign : ℕ → UserRole → ℕ

pub data AuthFailure : Type 0 where
  unauthorized forbidden not_found conflict query_failed : AuthFailure

pub data AuthResult (A : Type 0) : Type 0 where
  ok : A → AuthResult A
  err : AuthFailure → AuthResult A

pub record TokenPair : Type 0 where
  pub access_token : ℕ
  pub refresh_token : ℕ

abbrev pub account_key : UserAccount → ℕ
account_key u = u.id

abbrev pub token_key : RefreshToken → ℕ
token_key t = t.id

abbrev pub revoke : RefreshToken → RefreshToken
revoke t = record t { revoked = true }

abbrev pub is_live : RefreshToken → Bool
is_live t = not t.revoked

abbrev pub day_in_ms : ℕ
day_in_ms = 86_400_000

module _ (C : Crypto) (refresh_days : ℕ) where
  -- `createRefreshToken`: the row has an id of its own.
  unfoldable pub create_refresh_token : ℕ → ℕ → AuthState → ℕ × AuthState
  create_refresh_token user_id family_id s =
      let token = C.random_bytes s.drawn in
      (
        token,
        record s {
          drawn = s.drawn + 2;
          tokens =
              s.tokens
              ++ record {
                id = C.random_uuid (s.drawn + 1);
                user_id = user_id;
                family_id = family_id;
                token_hash = C.sha256 token;
                expires_at = s.now + refresh_days * day_in_ms;
                revoked = false;
              }
                ∷ [];
        },
      )

  -- `issueTokens` in a given family
  unfoldable pub issue_tokens : UserAccount → ℕ → AuthState → AuthResult TokenPair × AuthState
  issue_tokens account family_id s =
      let (token, s') = create_refresh_token account.id family_id s in
      (ok (record { access_token = C.sign account.id account.role; refresh_token = token }), s')

  -- `issueTokens` of a login: a new family
  unfoldable pub issue_new_family : UserAccount → AuthState → AuthResult TokenPair × AuthState
  issue_new_family account s =
      issue_tokens account (C.random_uuid s.drawn) (record s { drawn = suc s.drawn })

  -- `revokeFamilyOnReuse`
  unfoldable pub revoke_family_on_reuse :
      RefreshToken → AuthState → AuthResult TokenPair × AuthState
  revoke_family_on_reuse stored s = (
    err unauthorized,
    record s { tokens = update_where (λ t. t.family_id == stored.family_id) revoke s.tokens },
  )

  -- `update({ id, revoked: false }, { revoked: true })`
  unfoldable pub claim_token : ℕ → AuthState → ℕ × AuthState
  claim_token id s = (
    count_where (at_key token_key id is_live) s.tokens,
    record s { tokens = update_where (at_key token_key id is_live) revoke s.tokens },
  )

  -- The end of `rotate`, from the token and its owner as they were read.
  unfoldable pub claim_and_issue :
      RefreshToken → UserAccount → AuthState → AuthResult TokenPair × AuthState
  claim_and_issue stored owner s =
      let (affected, s') = claim_token stored.id s in
      if affected == 0
      then revoke_family_on_reuse stored s'
      else issue_tokens owner stored.family_id s'

  abbrev pub is_disabled : Option UserAccount → Bool
  is_disabled none = false
  is_disabled (some u) = u.disabled

  abbrev pub claim_if_owned :
      RefreshToken → Option UserAccount → AuthState → AuthResult TokenPair × AuthState
  claim_if_owned stored none s = (err unauthorized, s)
  claim_if_owned stored (some owner) s =
      if leb stored.expires_at s.now then (err unauthorized, s) else claim_and_issue stored owner s

  -- `rotate` of a stored token, with its owner.
  unfoldable pub rotate_read :
      RefreshToken → Option UserAccount → AuthState → AuthResult TokenPair × AuthState
  rotate_read stored owner s =
      if is_disabled owner
      then (err unauthorized, s)
      else if stored.revoked
      then revoke_family_on_reuse stored s
      else claim_if_owned stored owner s

  -- `rotate`
  unfoldable pub rotate : ℕ → AuthState → AuthResult TokenPair × AuthState
  rotate presented s = elim (find (λ t. t.token_hash == C.sha256 presented) s.tokens) [
    | none ↦ (err unauthorized, s)
    | some stored ↦ rotate_read stored (find_by account_key stored.user_id s.users) s
  ]

abbrev pub any_account : UserAccount → Bool
any_account _ = true

-- `setDisabled`
unfoldable pub set_disabled : ℕ → Bool → AuthState → AuthResult UserAccount × AuthState
set_disabled id disabled s = elim (find_by account_key id s.users) [
  | none ↦ (err not_found, s)
  | some u ↦ (
    ok (record u { disabled = disabled }),
    record s {
      users =
          update_where (at_key account_key id any_account) (λ a. record a { disabled = disabled })
            s.users;
    },
  )
]

-- `disableUser`
unfoldable pub disable_user : ℕ → AuthState → AuthResult UserAccount × AuthState
disable_user id = set_disabled id true

-- `enableUser`
unfoldable pub enable_user : ℕ → AuthState → AuthResult UserAccount × AuthState
enable_user id = set_disabled id false

abbrev pub same_role : UserRole → UserRole → Bool
same_role user user = true
same_role admin admin = true
same_role _ _ = false

abbrev pub includes_role : List UserRole → UserRole → Bool
includes_role [] r = false
includes_role (q ∷ qs) r = same_role q r || includes_role qs r

-- `canActivate` of the roles guard, on the roles of the handler's metadata and the caller's.
unfoldable pub can_activate : List UserRole → Option UserRole → AuthResult Bool
can_activate [] caller = ok true
can_activate (q ∷ qs) none = err forbidden
can_activate (q ∷ qs) (some r) =
    if same_role r admin || includes_role (q ∷ qs) r then ok true else err forbidden
