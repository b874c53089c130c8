-- ===== src/Auth/Rotation.antt =====
-- A refresh token that is presented again (src/modules/auth/services/token.service.ts).
use order_lifecycle_backend.Prelude.{
  ℕ, ◌+◌, ◌*◌, ◌≡◌, ◌≢◌, refl, inl, inr, Bool, false, ◌&&◌, List, [], ◌∷◌, ◌++◌, arith, ◌==◌,
  Bool-cases, at_key, update_where, count_where, count-after_update,
}
use order_lifecycle_backend.Auth.{
  UserAccount, RefreshToken, AuthState, ok, err, unauthorized, Crypto, TokenPair, token_key,
  is_live, revoke, create_refresh_token, issue_tokens, revoke_family_on_reuse, claim_token,
  claim_and_issue, day_in_ms,
}

count-append :
    (p : RefreshToken → Bool) (x : RefreshToken) (xs : List RefreshToken)
    → p x ≡ false
    → count_where p (xs ++ x ∷ []) ≡ count_where p xs
count-append p x [] h = ground arith
count-append p x (y ∷ ys) h = ground (arith, count-append p x ys)

abbrev pub live_in_family : ℕ → List RefreshToken → ℕ
live_in_family family = count_where (λ t. (t.family_id == family) && is_live t)

revoked_family :
    (family : ℕ) (ts : List RefreshToken)
    → live_in_family family (update_where (λ t. t.family_id == family) revoke ts) ≡ 0
revoked_family family [] = refl
revoked_family family (t ∷ ts) = ground (arith, revoked_family family ts)

module _ (C : Crypto) (days : ℕ) (stored : RefreshToken) where
  -- The token that a won rotation stores.
  abbrev successor : UserAccount → AuthState → RefreshToken
  successor owner s = record {
    id = C.random_uuid (s.drawn + 1);
    user_id = owner.id;
    family_id = stored.family_id;
    token_hash = C.sha256 (C.random_bytes s.drawn);
    expires_at = s.now + days * day_in_ms;
    revoked = false;
  }

  won_claim :
      (owner : UserAccount) (pair : TokenPair) (s s' : AuthState)
      → ((n : ℕ) → C.random_uuid n ≢ stored.id)
      → claim_and_issue C days stored owner s ≡ (ok pair, s')
      → count_where (at_key token_key stored.id is_live) s'.tokens ≡ 0
  unfolding claim_and_issue claim_token revoke_family_on_reuse issue_tokens create_refresh_token
  won_claim owner pair s s' fresh e =
      elim (Bool-cases (count_where (at_key token_key stored.id is_live) s.tokens == 0)) [
        | inl lost ↦ ground arith
        | inr won ↦ ground (
          arith,
          count-append (at_key token_key stored.id is_live) (successor owner s)
              (update_where (at_key token_key stored.id is_live) revoke s.tokens)
              (ground (arith, fresh (s.drawn + 1))),
          count-after_update token_key stored.id is_live is_live revoke (λ r. refl) (λ r h. refl)
              (λ r h. h) s.tokens,
        )
      ]

  -- A refresh token is rotated at most once: after a successful rotation, the same token, however
  -- long ago a concurrent request has read it as valid, is refused, and every token of its family
  -- is revoked, given that a new row's id is not the token's.
  pub rotation_twice :
      (owner other : UserAccount) (pair : TokenPair) (s s' : AuthState)
      → ((n : ℕ) → C.random_uuid n ≢ stored.id)
      → claim_and_issue C days stored owner s ≡ (ok pair, s')
      → ((claim_and_issue C days stored other s').0 ≡ err unauthorized)
        × (live_in_family stored.family_id (claim_and_issue C days stored other s').1.tokens ≡ 0)
  unfolding claim_and_issue claim_token revoke_family_on_reuse
  rotation_twice owner other pair s s' fresh e = ground (
    arith,
    won_claim owner pair s s' fresh e,
    revoked_family stored.family_id
        (update_where (at_key token_key stored.id is_live) revoke s'.tokens),
  )
