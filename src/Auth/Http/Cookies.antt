-- ===== src/Auth/Http/Cookies.antt =====
-- The refresh cookie against the refresh token that it carries
-- (src/modules/auth/controllers/auth.controller.ts, src/modules/auth/auth.cookie.ts).
use order_lifecycle_backend.Prelude.{
  ℕ, ◌+◌, ◌*◌, ◌≡◌, refl, subst, at_key, update_where, inl, inr, true, false, some, List, [], ◌∷◌,
  ◌++◌, arith, ◌==◌, find, find_by, Option-cases,
}
use order_lifecycle_backend.Auth.{
  UserAccount, RefreshToken, AuthState, Crypto, TokenPair, AuthResult, token_key, is_live, revoke,
  ok, err, rotate, rotate_read, claim_and_issue, claim_token, revoke_family_on_reuse, issue_tokens,
  create_refresh_token, account_key, day_in_ms,
}
use order_lifecycle_backend.Auth.Http.{
  CookieConfig, Cookie, build_refresh_token_cookie_options, refresh_route, Answer, answered,
  days_of,
}
use mathlib.Core.List.{Memᴰ}

-- A refresh token in the clear is stored under its hash, live, with this time left to its end.
pub record IsBacked (C : Crypto) (presentable lifetime : ℕ) (s : AuthState) : Type 0 where
  pub token : RefreshToken
  pub stored : Memᴰ token s.tokens
  pub hashed : token.token_hash ≡ C.sha256 presentable
  pub live : token.revoked ≡ false
  pub expires : token.expires_at ≡ s.now + lifetime

last-Memᴰ : (t : RefreshToken) (ts : List RefreshToken) → Memᴰ t (ts ++ t ∷ [])
last-Memᴰ t [] = Memᴰ.head refl
last-Memᴰ t (x ∷ ts) = Memᴰ.tail (last-Memᴰ t ts)

module _ (C : Crypto) (days : ℕ) where
  issue-IsBacked :
      (u : UserAccount) (family : ℕ) (s : AuthState) (pair : TokenPair) (s' : AuthState)
      → issue_tokens C days u family s ≡ (ok pair, s')
      → IsBacked C pair.refresh_token (days * day_in_ms) s'
  unfolding issue_tokens create_refresh_token
  issue-IsBacked u family s pair s' e =
      subst (λ (r : AuthResult TokenPair × AuthState). Backs r) e
        (record {
          token = record {
            id = C.random_uuid (s.drawn + 1);
            user_id = u.id;
            family_id = family;
            token_hash = C.sha256 (C.random_bytes s.drawn);
            expires_at = s.now + days * day_in_ms;
            revoked = false;
          };
          stored = last-Memᴰ _ s.tokens;
          hashed = refl;
          live = refl;
          expires = refl;
        })
    where
      Backs : AuthResult TokenPair × AuthState → Type 0
      Backs (ok p, t) = IsBacked C p.refresh_token (days * day_in_ms) t
      Backs (err f, t) = Unit

  rotate-IsBacked :
      (presented : ℕ) (s : AuthState) (pair : TokenPair) (s' : AuthState)
      → rotate C days presented s ≡ (ok pair, s')
      → IsBacked C pair.refresh_token (days * day_in_ms) s'
  unfolding rotate rotate_read claim_and_issue claim_token revoke_family_on_reuse
  rotate-IsBacked presented s pair s' e =
      elim (Option-cases (find (λ r. r.token_hash == C.sha256 presented) s.tokens)) [
        | inl unknown ↦ absurd (ground arith)
        | inr (t, stored) ↦ elim (Option-cases (find_by account_key t.user_id s.users)) [
          | inl orphan ↦ absurd (ground arith)
          | inr (u, owner) ↦
              issue-IsBacked u t.family_id
                (record s { tokens = update_where (at_key token_key t.id is_live) revoke s.tokens })
                pair s' (ground arith)
        ]
      ]

answered-cookie :
    (C : Crypto) (config : CookieConfig) (r : AuthResult TokenPair × AuthState) (s' : AuthState)
    (answer : Answer) (a : ℕ)
    → answered config r ≡ (answer, s')
    → answer.body ≡ ok a
    → ((pair : TokenPair) (t : AuthState)
        → r ≡ (ok pair, t)
        → IsBacked C pair.refresh_token (build_refresh_token_cookie_options config).max_age t)
    → (cookie : Cookie) × (answer.cookie ≡ some cookie)
      × (cookie.options.http_only ≡ true)
      × IsBacked C cookie.token cookie.options.max_age s'
unfolding build_refresh_token_cookie_options
answered-cookie C config (err f, t) s' answer a e done backed = absurd (ground arith)
answered-cookie C config (ok pair, t) s' answer a e done backed = (
  record { token = pair.refresh_token; options = build_refresh_token_cookie_options config },
  ground arith,
  refl,
  subst (IsBacked C pair.refresh_token (build_refresh_token_cookie_options config).max_age)
      (ground arith) (backed pair t refl),
)

-- A refresh that answers with an access token sets a cookie that scripts cannot read, whose token
-- is stored under its hash, live, and ends exactly when the cookie does.
pub refresh_route-cookie :
    (C : Crypto) (config : CookieConfig) (presented : ℕ) (s s' : AuthState) (answer : Answer)
    → refresh_route C config (some presented) s ≡ (answer, s')
    → (a : ℕ) → answer.body ≡ ok a
    → (cookie : Cookie) × (answer.cookie ≡ some cookie)
      × (cookie.options.http_only ≡ true)
      × IsBacked C cookie.token cookie.options.max_age s'
unfolding refresh_route build_refresh_token_cookie_options
refresh_route-cookie C config presented s s' answer e a done =
    answered-cookie C config _ s' answer a e done λ pair t won.
      rotate-IsBacked C (days_of config.refresh_expires_in_days) presented s pair t won
