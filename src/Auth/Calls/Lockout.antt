-- ===== src/Auth/Calls/Lockout.antt =====
-- What a disabled account can still obtain (src/modules/auth/services/auth.service.ts,
-- token.service.ts, user.service.ts).
use order_lifecycle_backend.Prelude.{
  sym, subst, ℕ, suc, ◌≡◌, ◌≢◌, refl, ◌∙◌, inl, inr, Bool, true, false, not, ◌||◌, some, List, [],
  ◌∷◌, ◌++◌, arith, ◌==◌, find_by, every, at_key, update_where, count_where, Bool-cases,
  Option-cases,
}
use order_lifecycle_backend.Auth.{
  UserRole, UserAccount, RefreshToken, AuthState, Crypto, account_key, any_account, token_key,
  is_live, revoke, issue_new_family, issue_tokens, create_refresh_token, claim_and_issue,
  claim_token, revoke_family_on_reuse,
}
use order_lifecycle_backend.Auth.Accounts.{
  Strings, normalize_email, email_key, login, register, seed_admin, save_account, insert_user,
  new_account, or_conflict-state, bcrypt_salt_rounds,
}

-- A row of this account is disabled.
abbrev pub is_locked : ℕ → UserAccount → Bool
is_locked id u = not (u.id == id) || u.disabled

abbrev pub is_token_of : ℕ → RefreshToken → Bool
is_token_of id t = t.user_id == id

-- The refresh tokens that are stored for an account.
abbrev pub tokens_of : ℕ → AuthState → ℕ
tokens_of id s = count_where (is_token_of id) s.tokens

-- The account is disabled, and has this many tokens.
abbrev pub IsLockedOut : ℕ → ℕ → AuthState → Type 0
IsLockedOut id n s = (every (is_locked id) s.users ≡ true) × (tokens_of id s ≡ n)

count-added :
    (id : ℕ) (t : RefreshToken) (ts : List RefreshToken)
    → (t.user_id == id) ≡ false
    → count_where (is_token_of id) (ts ++ t ∷ []) ≡ count_where (is_token_of id) ts
count-added id t [] h = ground arith
count-added id t (x ∷ ts) h = ground (arith, count-added id t ts)

count-revoked :
    (id : ℕ) (p : RefreshToken → Bool) (ts : List RefreshToken)
    → count_where (is_token_of id) (update_where p revoke ts) ≡ count_where (is_token_of id) ts
count-revoked id p [] = refl
count-revoked id p (t ∷ ts) = elim (Bool-cases (p t)) [
  | inl hit ↦ ground (arith, count-revoked id p ts)
  | inr miss ↦ ground (arith, count-revoked id p ts)
]

locked-added :
    (id : ℕ) (u : UserAccount) (us : List UserAccount)
    → every (is_locked id) us ≡ true
    → u.id ≢ id
    → every (is_locked id) (us ++ u ∷ []) ≡ true
locked-added id u [] h fresh = ground arith
locked-added id u (v ∷ us) h fresh = ground (arith, locked-added id u us)

pub locked-set :
    (id k : ℕ) (b : Bool) (us : List UserAccount)
    → every (is_locked id) us ≡ true
    → (b || not (k == id)) ≡ true
    → every
        (is_locked id)
        (update_where (at_key account_key k any_account) (λ a. record a { disabled = b }) us)
      ≡ true
locked-set id k b [] h allowed = refl
locked-set id k b (u ∷ us) h allowed = elim (Bool-cases (u.id == k)) [
  | inl hit ↦ ground (arith, locked-set id k b us)
  | inr miss ↦ ground (arith, locked-set id k b us)
]

pub all_locked :
    (id : ℕ) (us : List UserAccount)
    → every
        (is_locked id)
        (update_where (at_key account_key id any_account) (λ a. record a { disabled = true }) us)
      ≡ true
all_locked id [] = refl
all_locked id (u ∷ us) = elim (Bool-cases (u.id == id)) [
  | inl hit ↦ ground (arith, all_locked id us)
  | inr miss ↦ ground (arith, all_locked id us)
]

-- An account that a lookup finds enabled is not the locked one.
pub found-other :
    (id k : ℕ) (key : UserAccount → ℕ) (us : List UserAccount) (u : UserAccount)
    → every (is_locked id) us ≡ true
    → find_by key k us ≡ some u
    → u.disabled ≡ false
    → (u.id == id) ≡ false
found-other id k key [] u h e enabled = cc
found-other id k key (v ∷ us) u h e enabled = ground (arith, found-other id k key us u)

module _ (C : Crypto) (T : Strings) (days id : ℕ) (fresh : (n : ℕ) → C.random_uuid n ≢ id) where
  issue-IsLockedOut :
      (n family : ℕ) (u : UserAccount) (s : AuthState)
      → IsLockedOut id n s
      → (u.id == id) ≡ false
      → IsLockedOut id n (issue_tokens C days u family s).1
  unfolding issue_tokens create_refresh_token
  issue-IsLockedOut n family u s h other = (h.0, count-added id _ s.tokens other ∙ h.1)

  save-IsLockedOut :
      (n email hashed : ℕ) (role : UserRole) (s : AuthState)
      → IsLockedOut id n s
      → IsLockedOut id n (save_account C T email hashed role s).1
  unfolding save_account insert_user new_account
  save-IsLockedOut n email hashed role s h =
      elim (Option-cases (find_by email_key (normalize_email T email) s.users)) [
        | inl free ↦ ground (
          arith,
          locked-added id (new_account C T email hashed role s) s.users h.0 (fresh s.drawn),
        )
        | inr (u, taken) ↦ ground arith
      ]

  pub register-IsLockedOut :
      (n email password : ℕ) (s : AuthState)
      → IsLockedOut id n s
      → IsLockedOut id n (register C T email password s).1
  unfolding register
  register-IsLockedOut n email password s h =
      subst (IsLockedOut id n) (sym (or_conflict-state _))
        (save-IsLockedOut n email _ UserRole.user (record s { drawn = suc s.drawn }) h)

  pub seed-IsLockedOut :
      (n email password : ℕ) (s : AuthState)
      → IsLockedOut id n s
      → IsLockedOut id n (seed_admin C T email password s).1
  unfolding seed_admin save_account insert_user new_account
  seed-IsLockedOut n email password s h =
      elim (Option-cases (find_by email_key (normalize_email T email) s.users)) [
        | inr (u, taken) ↦ ground arith
        | inl free ↦ ground (
          arith,
          save-IsLockedOut n (normalize_email T email)
              (T.hash (C.random_bytes s.drawn) bcrypt_salt_rounds password) UserRole.admin
              (record s { drawn = suc s.drawn }) h,
        )
      ]

  pub login-IsLockedOut :
      (n email password : ℕ) (s : AuthState)
      → IsLockedOut id n s
      → IsLockedOut id n (login C T days email password s).1
  unfolding login issue_new_family
  login-IsLockedOut n email password s h =
      elim (Option-cases (find_by email_key (normalize_email T email) s.users)) [
        | inl unknown ↦ ground arith
        | inr (u, found) ↦ elim (Bool-cases u.disabled) [
          | inl off ↦ ground arith
          | inr on ↦ ground (
            arith,
            issue-IsLockedOut n (C.random_uuid s.drawn) u (record s { drawn = suc s.drawn }) h
                (found-other id (normalize_email T email) email_key s.users u h.0 found on),
          )
        ]
      ]

  pub revoke-IsLockedOut :
      (n : ℕ) (p : RefreshToken → Bool) (s : AuthState)
      → IsLockedOut id n s
      → IsLockedOut id n (record s { tokens = update_where p revoke s.tokens })
  revoke-IsLockedOut n p s h = (h.0, ground (arith, count-revoked id p s.tokens))

  pub claim-IsLockedOut :
      (n : ℕ) (t : RefreshToken) (u : UserAccount) (s : AuthState)
      → IsLockedOut id n s
      → (u.id == id) ≡ false
      → IsLockedOut id n (claim_and_issue C days t u s).1
  unfolding claim_and_issue claim_token revoke_family_on_reuse
  claim-IsLockedOut n t u s h other =
      elim (Bool-cases (count_where (at_key token_key t.id is_live) s.tokens == 0)) [
        | inl lost ↦ rw lost (
            revoke-IsLockedOut n (λ r. r.family_id == t.family_id) claimed
              (revoke-IsLockedOut n (at_key token_key t.id is_live) s h))
        | inr won ↦ rw won (
            issue-IsLockedOut n t.family_id u claimed
              (revoke-IsLockedOut n (at_key token_key t.id is_live) s h) other)
      ]
    where
      claimed : AuthState
      claimed = record s { tokens = update_where (at_key token_key t.id is_live) revoke s.tokens }
