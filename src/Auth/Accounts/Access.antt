-- ===== src/Auth/Accounts/Access.antt =====
-- Who gets a token (src/modules/auth/services/auth.service.ts, token.service.ts).
use order_lifecycle_backend.Prelude.{
  ℕ, suc, ◌<◌, ◌≡◌, inl, inr, true, false, some, arith, ◌==◌, find, find_by, find_by-insert_self,
  Option-cases,
}
use order_lifecycle_backend.Auth.{
  user, UserAccount, RefreshToken, AuthState, Crypto, ok, TokenPair, account_key, issue_new_family,
  issue_tokens, create_refresh_token, rotate, rotate_read, claim_and_issue, claim_token,
  revoke_family_on_reuse,
}
use order_lifecycle_backend.Auth.Accounts.{
  Strings, normalize_email, email_key, login, register, save_account, insert_user, new_account,
  or_conflict-ok, bcrypt_salt_rounds,
}

module _ (C : Crypto) (T : Strings) (days : ℕ)
    (compares : (salt password : ℕ)
      → T.compare password (T.hash salt bcrypt_salt_rounds password) ≡ true) where
  saved-found :
      (email hashed : ℕ) (u : UserAccount) (s s' : AuthState)
      → save_account C T email hashed user s ≡ (some u, s')
      → (find_by email_key (normalize_email T email) s'.users ≡ some u)
        × (u.password ≡ hashed)
        × (u.disabled ≡ false)
  unfolding save_account insert_user new_account
  saved-found email hashed u s s' e =
      elim (Option-cases (find_by email_key (normalize_email T email) s.users)) [
        | inl free ↦ ground (
          arith,
          find_by-insert_self email_key (new_account C T email hashed user s) s.users free,
        )
        | inr (taken, found) ↦ absurd (ground arith)
      ]

  -- After a registration has returned, a login with the password, under any spelling of the e-mail
  -- with the same normal form, is answered with an access token for the new account and a fresh
  -- refresh token, given that bcrypt accepts a password for its own hash.
  pub login-register :
      (email spelling password : ℕ) (u : UserAccount) (s s' : AuthState)
      → register C T email password s ≡ (ok u, s')
      → normalize_email T spelling ≡ normalize_email T email
      → (login C T days spelling password s').0
        ≡ ok (record {
          access_token = C.sign u.id u.role;
          refresh_token = C.random_bytes (suc s'.drawn);
        })
  unfolding login register issue_new_family issue_tokens create_refresh_token
  login-register email spelling password u s s' e same = ground (
    arith,
    saved-found email (T.hash (C.random_bytes s.drawn) bcrypt_salt_rounds password) u
        (record s { drawn = suc s.drawn }) s' (or_conflict-ok _ u s' e),
    compares (C.random_bytes s.drawn) password,
  )

  -- The account that an access token is for, if a login has returned one.
  pub login_issued :
      (email password : ℕ) (pair : TokenPair) (s s' : AuthState)
      → login C T days email password s ≡ (ok pair, s')
      → (u : UserAccount) × (find_by email_key (normalize_email T email) s.users ≡ some u)
        × (T.compare password u.password ≡ true)
        × (u.disabled ≡ false)
        × (pair.access_token ≡ C.sign u.id u.role)
  unfolding login issue_new_family issue_tokens create_refresh_token
  login_issued email password pair s s' e =
      elim (Option-cases (find_by email_key (normalize_email T email) s.users)) [
        | inl missing ↦ absurd (ground arith)
        | inr (u, found) ↦ (u, found, ground arith, ground arith, ground arith)
      ]

-- A rotation that returns tokens was asked for with a stored token that is live and has not
-- expired, of an account that exists and is not disabled, and its access token is for that account.
pub rotate_issued :
    (C : Crypto) (days presented : ℕ) (pair : TokenPair) (s s' : AuthState)
    → rotate C days presented s ≡ (ok pair, s')
    → (t : RefreshToken) × (u : UserAccount) × (find
          (λ r. r.token_hash == C.sha256 presented)
          s.tokens
        ≡ some t)
      × (t.revoked ≡ false)
      × (s.now < t.expires_at)
      × (find_by account_key t.user_id s.users ≡ some u)
      × (u.disabled ≡ false)
      × (pair.access_token ≡ C.sign u.id u.role)
unfolding rotate rotate_read claim_and_issue claim_token revoke_family_on_reuse issue_tokens
    create_refresh_token
rotate_issued C days presented pair s s' e =
    elim (Option-cases (find (λ r. r.token_hash == C.sha256 presented) s.tokens)) [
      | inl unknown ↦ absurd (ground arith)
      | inr (t, stored) ↦ elim (Option-cases (find_by account_key t.user_id s.users)) [
        | inl orphan ↦ absurd (ground arith)
        | inr (u, owner) ↦
            (t, u, stored, ground arith, ground arith, owner, ground arith, ground arith)
      ]
    ]
