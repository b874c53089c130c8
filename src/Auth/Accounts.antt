-- ===== src/Auth/Accounts.antt =====
-- Accounts (src/modules/auth/services/auth.service.ts, user.service.ts, src/entities/user, and
-- src/database/seeds/create-admin.ts): login, registration, the listing of users and the first
-- administrator. bcrypt and the string functions are parameters.
pub mod Access
use order_lifecycle_backend.Prelude.{
  ℕ, suc, ◌+◌, Bool, true, false, not, ◌||◌, Option, none, some, List, [], ◌∷◌, ◌++◌, leb,
  if◌then◌else◌, find_by, ◌≡◌, refl, arith,
}
use order_lifecycle_backend.Auth.{
  UserRole, user, admin, UserAccount, AuthState, Crypto, AuthResult, ok, err, unauthorized,
  conflict, query_failed, TokenPair, issue_new_family, rotate, disable_user, enable_user,
}

-- `bcrypt.compare(password, hash)`; `bcrypt.hash` with the salt that it draws and the cost; the two
-- string functions of `normalizeEmail`; and the hash for an unknown account.
pub record Strings : Type 0 where
  pub compare : ℕ → ℕ → Bool
  pub hash : ℕ → ℕ → ℕ → ℕ
  pub trim : ℕ → ℕ
  pub to_lower_case : ℕ → ℕ
  pub dummy_password_hash : ℕ

abbrev pub bcrypt_salt_rounds : ℕ
bcrypt_salt_rounds = 10

abbrev pub email_key : UserAccount → ℕ
email_key u = u.email

-- An older account goes before a newer one.
abbrev pub insert_oldest : UserAccount → List UserAccount → List UserAccount
insert_oldest u [] = u ∷ []
insert_oldest u (v ∷ vs) =
    if leb u.created_at v.created_at then u ∷ v ∷ vs else v ∷ insert_oldest u vs

-- ORDER BY createdAt ASC
abbrev pub oldest_first : List UserAccount → List UserAccount
oldest_first [] = []
oldest_first (u ∷ us) = insert_oldest u (oldest_first us)

-- `listUsers`
unfoldable pub list_users : AuthState → List UserAccount
list_users s = oldest_first s.users

module _ (T : Strings) where
  -- `normalizeEmail`
  unfoldable pub normalize_email : ℕ → ℕ
  normalize_email email = T.to_lower_case (T.trim email)

  -- `user?.password ?? DUMMY_PASSWORD_HASH`
  abbrev pub password_of : Option UserAccount → ℕ
  password_of none = T.dummy_password_hash
  password_of (some u) = u.password

  abbrev pub has_matching_password : ℕ → Option UserAccount → Bool
  has_matching_password password found = T.compare password (password_of found)

-- The INSERT of a row under the column's `unique: true`: none for a unique violation, which inserts
-- nothing.
unfoldable pub insert_user : UserAccount → AuthState → Option UserAccount × AuthState
insert_user u s = elim (find_by email_key u.email s.users) [
  | none ↦ (some u, record s { users = s.users ++ u ∷ [] })
  | some _ ↦ (none, s)
]

-- Whether `seedAdmin` has created the account.
pub data SeedAdminResult : Type 0 where
  created exists : SeedAdminResult

-- The `catch` of `register`
abbrev pub or_conflict : Option UserAccount × AuthState → AuthResult UserAccount × AuthState
or_conflict (some u, s) = (ok u, s)
or_conflict (none, s) = (err conflict, s)

pub or_conflict-state : (r : Option UserAccount × AuthState) → (or_conflict r).1 ≡ r.1
or_conflict-state (some u, s) = refl
or_conflict-state (none, s) = refl

pub or_conflict-ok :
    (r : Option UserAccount × AuthState) (u : UserAccount) (s' : AuthState)
    → or_conflict r ≡ (ok u, s')
    → r ≡ (some u, s')
or_conflict-ok (some v, s) u s' e = ground (arith, e)
or_conflict-ok (none, s) u s' e = absurd (ground (arith, e))

module _ (C : Crypto) (T : Strings) where
  -- The row of `create`, as the hook and the column defaults complete it.
  unfoldable pub new_account : (email hashed : ℕ) → UserRole → AuthState → UserAccount
  new_account email hashed role s = record {
    id = C.random_uuid s.drawn;
    email = normalize_email T email;
    password = hashed;
    role = role;
    disabled = false;
    created_at = s.now;
  }

  -- `create` and `save` of an account; none when the INSERT is refused.
  unfoldable pub save_account :
      (email hashed : ℕ) → UserRole → AuthState → Option UserAccount × AuthState
  save_account email hashed role s =
      insert_user (new_account email hashed role s) (record s { drawn = suc s.drawn })

  -- `bcrypt.hash(password, BCRYPT_SALT_ROUNDS)`, with the salt that it draws
  abbrev pub hash_password : ℕ → AuthState → ℕ × AuthState
  hash_password password s = (
    T.hash (C.random_bytes s.drawn) bcrypt_salt_rounds password,
    record s { drawn = suc s.drawn },
  )

  -- `register`
  unfoldable pub register : (email password : ℕ) → AuthState → AuthResult UserAccount × AuthState
  register email password s =
      let (hashed, s') = hash_password password s in or_conflict (save_account email hashed user s')

  abbrev pub login_found :
      ℕ → (email password : ℕ) → Option UserAccount → AuthState → AuthResult TokenPair × AuthState
  login_found days email password none s = (err unauthorized, s)
  login_found days email password (some u) s =
      if not (has_matching_password T password (some u))
      then (err unauthorized, s)
      else if u.disabled
      then (err unauthorized, s)
      else issue_new_family C days u s

  -- `login`, with the refresh tokens' lifetime in days
  unfoldable pub login : ℕ → (email password : ℕ) → AuthState → AuthResult TokenPair × AuthState
  login days email password s =
      login_found days email password (find_by email_key (normalize_email T email) s.users) s

  -- `seedAdmin` catches nothing.
  abbrev seeded : Option UserAccount × AuthState → AuthResult SeedAdminResult × AuthState
  seeded (some u, s) = (ok created, s)
  seeded (none, s) = (err query_failed, s)

  -- `seedAdmin`
  unfoldable pub seed_admin :
      (email password : ℕ) → AuthState → AuthResult SeedAdminResult × AuthState
  seed_admin email password s = elim (find_by email_key (normalize_email T email) s.users) [
    | some _ ↦ (ok exists, s)
    | none ↦
        let (hashed, s') = hash_password password s in
        seeded (save_account (normalize_email T email) hashed admin s')
  ]
