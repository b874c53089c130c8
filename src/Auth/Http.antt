-- ===== src/Auth/Http.antt =====
-- The HTTP side of the sessions: the bearer guard (src/modules/auth/guards/JwtAuthGuard.ts), the
-- refresh cookie (src/modules/auth/auth.cookie.ts), and the controller's routes
-- (src/modules/auth/controllers/auth.controller.ts). Header values are split into words by the
-- language, and JWTs are verified by a library; both are parameters here.
pub mod Cookies
use order_lifecycle_backend.Prelude.{
  ℕ, ◌*◌, Bool, true, false, ◌||◌, Option, none, some, List, [], ◌∷◌, map, ◌==◌, if◌then◌else◌,
}
use order_lifecycle_backend.Auth.{
  UserRole, UserAccount, AuthState, Crypto, AuthResult, ok, err, unauthorized, TokenPair, rotate,
  day_in_ms, disable_user, enable_user,
}
use order_lifecycle_backend.Auth.Accounts.{Strings, login, register, list_users}

pub data SameSite : Type 0 where
  strict lax none_ : SameSite

-- The environment: `jwt.refreshExpiresInDays`, `COOKIE_SAMESITE`, and whether `NODE_ENV` is
-- 'production'.
pub record CookieConfig : Type 0 where
  pub refresh_expires_in_days : Option ℕ
  pub cookie_samesite : Option SameSite
  pub is_production : Bool

-- The path is the constant `/auth/refresh`.
pub record CookieOptions : Type 0 where
  pub http_only : Bool
  pub secure : Bool
  pub same_site : SameSite
  pub max_age : ℕ

abbrev pub refresh_token_ttl_default_days : ℕ
refresh_token_ttl_default_days = 7

abbrev pub days_of : Option ℕ → ℕ
days_of none = refresh_token_ttl_default_days
days_of (some days) = days

abbrev same_site_of : Option SameSite → SameSite
same_site_of none = strict
same_site_of (some s) = s

abbrev is_none : SameSite → Bool
is_none none_ = true
is_none _ = false

-- `buildRefreshTokenCookieOptions`
unfoldable pub build_refresh_token_cookie_options : CookieConfig → CookieOptions
build_refresh_token_cookie_options config = record {
  http_only = true;
  secure = config.is_production || is_none (same_site_of config.cookie_samesite);
  same_site = same_site_of config.cookie_samesite;
  max_age = days_of config.refresh_expires_in_days * day_in_ms;
}

pub record Cookie : Type 0 where
  pub token : ℕ
  pub options : CookieOptions

-- What a route answers: its body or an error, and the refresh cookie that it sets, if any.
pub record Answer : Type 0 where
  pub body : AuthResult ℕ
  pub cookie : Option Cookie

-- The access token in the body, and the refresh token in the cookie.
abbrev pub answered : CookieConfig → AuthResult TokenPair × AuthState → Answer × AuthState
answered config (ok pair, s) = (
  record {
    body = ok pair.access_token;
    cookie = some (record {
      token = pair.refresh_token;
      options = build_refresh_token_cookie_options config;
    });
  },
  s,
)
answered config (err e, s) = (record { body = err e; cookie = none }, s)

module _ (C : Crypto) (config : CookieConfig) where
  -- `POST /auth/login`
  unfoldable pub login_route : Strings → (email password : ℕ) → AuthState → Answer × AuthState
  login_route T email password s =
      answered config (login C T (days_of config.refresh_expires_in_days) email password s)

  -- `POST /auth/refresh`, with the cookie that the request presents, if it has one
  -- that is not empty
  unfoldable pub refresh_route : Option ℕ → AuthState → Answer × AuthState
  refresh_route none s = (record { body = err unauthorized; cookie = none }, s)
  refresh_route (some presented) s =
      answered config (rotate C (days_of config.refresh_expires_in_days) presented s)

-- The view of an account without its password.
pub record UserResponse : Type 0 where
  pub id : ℕ
  pub email : ℕ
  pub role : UserRole
  pub disabled : Bool
  pub created_at : ℕ

-- `toUserResponseDTO`
abbrev pub to_user_response : UserAccount → UserResponse
to_user_response u = record {
  id = u.id;
  email = u.email;
  role = u.role;
  disabled = u.disabled;
  created_at = u.created_at;
}

abbrev viewed : AuthResult UserAccount × AuthState → AuthResult UserResponse × AuthState
viewed (ok u, s) = (ok (to_user_response u), s)
viewed (err e, s) = (err e, s)

-- `POST /auth/register`
unfoldable pub register_route :
    Crypto → Strings → (email password : ℕ) → AuthState → AuthResult UserResponse × AuthState
register_route C T email password s = viewed (register C T email password s)

-- `GET /admin/users`
unfoldable pub list_route : AuthState → List UserResponse
list_route s = map to_user_response (list_users s)

-- `PATCH /admin/users/:id/disable`
unfoldable pub disable_route : ℕ → AuthState → AuthResult UserResponse × AuthState
disable_route id s = viewed (disable_user id s)

-- `PATCH /admin/users/:id/enable`
unfoldable pub enable_route : ℕ → AuthState → AuthResult UserResponse × AuthState
enable_route id s = viewed (enable_user id s)

-- `extractBearerToken`, on the words of the header: the first is the scheme.
abbrev extract_bearer_token : (bearer : ℕ) → Option (List ℕ) → Option ℕ
extract_bearer_token bearer none = none
extract_bearer_token bearer (some []) = none
extract_bearer_token bearer (some (scheme ∷ [])) = none
extract_bearer_token bearer (some (scheme ∷ token ∷ _)) =
    if scheme == bearer then some token else none

-- The claims that an access token carries; `me` answers with them.
pub record JwtPayload : Type 0 where
  pub sub : ℕ
  pub role : UserRole

abbrev verified : Option JwtPayload → AuthResult JwtPayload
verified none = err unauthorized
verified (some payload) = ok payload

-- `canActivate` of the bearer guard: the caller's claims, with the library's verification and the
-- empty string, which is no token.
unfoldable pub authenticate :
    (verify : ℕ → Option JwtPayload) (bearer empty : ℕ) → Option (List ℕ) → AuthResult JwtPayload
authenticate verify bearer empty header = elim (extract_bearer_token bearer header) [
  | none ↦ err unauthorized
  | some token ↦ if token == empty then err unauthorized else verified (verify token)
]
