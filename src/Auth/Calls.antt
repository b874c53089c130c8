-- ===== src/Auth/Calls.antt =====
-- The requests that reach the accounts and the sessions (src/modules/auth/controllers), in any
-- sequence.
pub mod Lockout
pub mod Lasting
use order_lifecycle_backend.Prelude.{ℕ, Bool, List, [], ◌∷◌}
use order_lifecycle_backend.Auth.{AuthState, Crypto, rotate, disable_user, enable_user}
use order_lifecycle_backend.Auth.Accounts.{Strings, login, register, seed_admin}

pub data AuthCall : Type 0 where
  registering logging_in seeding : (email password : ℕ) → AuthCall
  refreshing : (token : ℕ) → AuthCall
  disabling enabling : (id : ℕ) → AuthCall
  elapsing : (now : ℕ) → AuthCall

module _ (C : Crypto) (T : Strings) (days : ℕ) where
  unfoldable pub step : AuthCall → AuthState → AuthState
  step (registering email password) s = (register C T email password s).1
  step (logging_in email password) s = (login C T days email password s).1
  step (seeding email password) s = (seed_admin C T email password s).1
  step (refreshing token) s = (rotate C days token s).1
  step (disabling id) s = (disable_user id s).1
  step (enabling id) s = (enable_user id s).1
  step (elapsing now) s = record s { now = now }

  unfoldable pub run : List AuthCall → AuthState → AuthState
  run [] s = s
  run (c ∷ cs) s = run cs (step c s)
