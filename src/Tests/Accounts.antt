-- ===== src/Tests/Accounts.antt =====
-- An account that registers, logs in, is refreshed and disabled.
use order_lifecycle_backend.Prelude.{
  ℕ, suc, ◌+◌, ◌-◌, ◌≡◌, ◌<◌, refl, true, false, ◌==◌, leb, if◌then◌else◌, none, some, List, [],
  ◌∷◌, arith, find, find_by, every,
}
use order_lifecycle_backend.Auth.{
  user, UserAccount, RefreshToken, AuthState, TokenPair, ok, account_key, rotate, rotate_read,
  claim_and_issue, claim_token, issue_tokens, create_refresh_token, disable_user, set_disabled,
}
use order_lifecycle_backend.Auth.Accounts.{
  Strings, login, register, save_account, insert_user, new_account, normalize_email,
}
use order_lifecycle_backend.Auth.Accounts.Access.{login-register, rotate_issued}
use order_lifecycle_backend.Auth.Calls.{
  AuthCall, registering, logging_in, seeding, refreshing, disabling, run,
}
use order_lifecycle_backend.Auth.Calls.Lockout.{is_locked, tokens_of}
use order_lifecycle_backend.Auth.Calls.Lasting.{disable_user-lasts}
use order_lifecycle_backend.Auth.Http.{CookieConfig, Cookie, Answer, refresh_route}
use order_lifecycle_backend.Auth.Http.Cookies.{IsBacked, refresh_route-cookie}
use order_lifecycle_backend.Tests.Sessions.{crypto, account, start}

-- Hashes are passwords plus 1000, and the spellings from 100 on stand for upper case.
abbrev strings : Strings
strings = record {
  compare = λ password hash. hash == password + 1000;
  hash = λ salt rounds password. password + 1000;
  trim = λ n. n;
  to_lower_case = λ n. if leb 100 n then n - 100 else n;
  dummy_password_hash = 0;
}

abbrev newcomer : UserAccount
newcomer = record {
  id = 101;
  email = 20;
  password = 1030;
  role = user;
  disabled = false;
  created_at = 50;
}

abbrev registered : AuthState
registered = (register crypto strings 20 30 start).1

registers : register crypto strings 20 30 start ≡ (ok newcomer, registered)
unfolding register save_account insert_user new_account normalize_email
registers = refl

same_spelling : normalize_email strings 120 ≡ normalize_email strings 20
unfolding normalize_email
same_spelling = refl

compares : (salt password : ℕ) → ((password + 1000) == (password + 1000)) ≡ true
compares salt password = ground arith

login-register_example :
    (login crypto strings 7 120 30 registered).0
    ≡ ok (record {
      access_token = crypto.sign newcomer.id newcomer.role;
      refresh_token = crypto.random_bytes (suc registered.drawn);
    })
login-register_example =
    login-register crypto strings 7 compares 20 120 30 newcomer start registered registers
      same_spelling

abbrev pair : TokenPair
pair = record { access_token = 7; refresh_token = 50 }

abbrev refreshed : AuthState
refreshed = (rotate crypto 7 3 start).1

rotates : rotate crypto 7 3 start ≡ (ok pair, refreshed)
unfolding rotate rotate_read claim_and_issue claim_token issue_tokens create_refresh_token
rotates = refl

rotate_issued_example :
    (t : RefreshToken) × (u : UserAccount) × (find (λ r. r.token_hash == 1003) start.tokens
      ≡ some t)
    × (t.revoked ≡ false)
    × (start.now < t.expires_at)
    × (find_by account_key t.user_id start.users ≡ some u)
    × (u.disabled ≡ false)
    × (pair.access_token ≡ crypto.sign u.id u.role)
rotate_issued_example = rotate_issued crypto 7 3 pair start refreshed rotates

abbrev locked : AuthState
locked = (disable_user 7 start).1

disables : disable_user 7 start ≡ (ok (record account { disabled = true }), locked)
unfolding disable_user set_disabled
disables = refl

abbrev requests : List AuthCall
requests = logging_in 11 12 ∷ refreshing 3 ∷ registering 40 30 ∷ seeding 140 30 ∷ disabling 101 ∷ []

disable_user-lasts_example :
    (every (is_locked 7) (run crypto strings 7 requests locked).users ≡ true)
    × (tokens_of 7 (run crypto strings 7 requests locked) ≡ tokens_of 7 start)
disable_user-lasts_example =
    disable_user-lasts crypto strings 7 7 (λ n. omega arith) (record account { disabled = true })
      start locked disables requests refl

abbrev config : CookieConfig
config = record { refresh_expires_in_days = none; cookie_samesite = none; is_production = true }

abbrev answer : Answer
answer = (refresh_route crypto config (some 3) start).0

abbrev after_refresh : AuthState
after_refresh = (refresh_route crypto config (some 3) start).1

answers : answer.body ≡ ok 7
unfolding refresh_route rotate rotate_read claim_and_issue claim_token issue_tokens
    create_refresh_token
answers = refl

refresh_route-cookie_example :
    (cookie : Cookie) × (answer.cookie ≡ some cookie)
    × (cookie.options.http_only ≡ true)
    × IsBacked crypto cookie.token cookie.options.max_age after_refresh
refresh_route-cookie_example =
    refresh_route-cookie crypto config 3 start after_refresh answer refl 7 answers
