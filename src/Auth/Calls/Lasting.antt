-- ===== src/Auth/Calls/Lasting.antt =====
-- How long a disabled account stays without new sessions
-- (src/modules/auth/services/user.service.ts).
use order_lifecycle_backend.Prelude.{
  ℕ, ◌≡◌, ◌≢◌, refl, inl, inr, Bool, true, false, not, ◌||◌, List, [], ◌∷◌, arith, ◌==◌, find,
  find_by, every, Bool-cases, Option-cases,
}
use order_lifecycle_backend.Auth.{
  UserAccount, AuthState, Crypto, ok, account_key, rotate, rotate_read, revoke_family_on_reuse,
  set_disabled, disable_user, enable_user,
}
use order_lifecycle_backend.Auth.Accounts.{Strings}
use order_lifecycle_backend.Auth.Calls.{
  AuthCall, registering, logging_in, seeding, refreshing, disabling, enabling, elapsing, step, run,
}
use order_lifecycle_backend.Auth.Calls.Lockout.{
  is_locked, tokens_of, IsLockedOut, locked-set, all_locked, found-other, claim-IsLockedOut,
  revoke-IsLockedOut, login-IsLockedOut, seed-IsLockedOut, register-IsLockedOut,
}

-- Whether a call enables this account.
abbrev pub enables : ℕ → AuthCall → Bool
enables id (enabling k) = k == id
enables id _ = false

set-IsLockedOut :
    (id n k : ℕ) (b : Bool) (s : AuthState)
    → IsLockedOut id n s
    → (b || not (k == id)) ≡ true
    → IsLockedOut id n (set_disabled k b s).1
unfolding set_disabled
set-IsLockedOut id n k b s h allowed = elim (Option-cases (find_by account_key k s.users)) [
  | inl missing ↦ ground arith
  | inr (u, found) ↦ ground (arith, locked-set id k b s.users h.0 allowed)
]

module _ (C : Crypto) (T : Strings) (days id : ℕ) (fresh : (n : ℕ) → C.random_uuid n ≢ id) where
  rotate-IsLockedOut :
      (n token : ℕ) (s : AuthState)
      → IsLockedOut id n s
      → IsLockedOut id n (rotate C days token s).1
  unfolding rotate rotate_read revoke_family_on_reuse
  rotate-IsLockedOut n token s h =
      elim (Option-cases (find (λ r. r.token_hash == C.sha256 token) s.tokens)) [
        | inl unknown ↦ ground arith
        | inr (t, stored) ↦ elim (Option-cases (find_by account_key t.user_id s.users)) [
          | inl orphan ↦
              ground (
                arith,
                revoke-IsLockedOut C T days id fresh n (λ r. r.family_id == t.family_id) s h,
              )
          | inr (u, owner) ↦ elim (Bool-cases u.disabled) [
            | inl off ↦ ground arith
            | inr on ↦ ground (
              arith,
              revoke-IsLockedOut C T days id fresh n (λ r. r.family_id == t.family_id) s h,
              claim-IsLockedOut C T days id fresh n t u s h
                  (found-other id t.user_id account_key s.users u h.0 owner on),
            )
          ]
        ]
      ]

  step-IsLockedOut :
      (n : ℕ) (c : AuthCall) (s : AuthState)
      → IsLockedOut id n s
      → enables id c ≡ false
      → IsLockedOut id n (step C T days c s)
  unfolding step disable_user enable_user
  step-IsLockedOut n (registering e p) s h k = register-IsLockedOut C T days id fresh n e p s h
  step-IsLockedOut n (logging_in e p) s h k = login-IsLockedOut C T days id fresh n e p s h
  step-IsLockedOut n (seeding e p) s h k = seed-IsLockedOut C T days id fresh n e p s h
  step-IsLockedOut n (refreshing t) s h k = rotate-IsLockedOut n t s h
  step-IsLockedOut n (disabling j) s h k = set-IsLockedOut id n j true s h refl
  step-IsLockedOut n (enabling j) s h k = set-IsLockedOut id n j false s h (ground arith)
  step-IsLockedOut n (elapsing now) s h k = h

  run-IsLockedOut :
      (n : ℕ) (cs : List AuthCall) (s : AuthState)
      → IsLockedOut id n s
      → every (λ c. not (enables id c)) cs ≡ true
      → IsLockedOut id n (run C T days cs s)
  unfolding run
  run-IsLockedOut n [] s h k = h
  run-IsLockedOut n (c ∷ cs) s h k =
      run-IsLockedOut n cs (step C T days c s) (step-IsLockedOut n c s h (ground arith))
        (ground arith)

  disabled-IsLockedOut :
      (u : UserAccount) (s s' : AuthState)
      → disable_user id s ≡ (ok u, s')
      → IsLockedOut id (tokens_of id s) s'
  unfolding disable_user set_disabled
  disabled-IsLockedOut u s s' e = elim (Option-cases (find_by account_key id s.users)) [
    | inl missing ↦ absurd (ground arith)
    | inr (v, found) ↦ ground (arith, all_locked id s.users)
  ]

  -- Once an account has been disabled, no sequence of requests short of enabling it again (logins
  -- and rotations by anyone, also of its own tokens, registrations, seeding, other accounts
  -- disabled or enabled) stores another refresh token for it: the number of its tokens stays, and
  -- its row stays disabled. A new account's id is taken to differ from it.
  pub disable_user-lasts :
      (u : UserAccount) (s s' : AuthState)
      → disable_user id s ≡ (ok u, s')
      → (cs : List AuthCall) → every (λ c. not (enables id c)) cs ≡ true
      → (every (is_locked id) (run C T days cs s').users ≡ true)
        × (tokens_of id (run C T days cs s') ≡ tokens_of id s)
  disable_user-lasts u s s' e cs quiet =
      run-IsLockedOut (tokens_of id s) cs s' (disabled-IsLockedOut u s s' e) quiet
