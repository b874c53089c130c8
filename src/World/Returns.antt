-- ===== src/World/Returns.antt =====
-- What an action returns, whenever it returns: the rules of the services' monad.
use order_lifecycle_backend.Prelude.{◌≡◌, refl, subst}
use order_lifecycle_backend.World.{
  World, Db, M, Result, ok, err, pure, throw, transaction, settle, ◌>>=◌, ◌>>◌,
}

pub record Returns {A : Type 0} (Q : A → Type 0) (m : M A) : Type 0 where
  pub given : (w : World) (a : A) → (m w).0 ≡ ok a → Q a

module _ {A B : Type 0} (Q : B → Type 0) where
  bound :
      (f : A → M B) (r : Result A) (w : World) (b : B)
      → ((a : A) → r ≡ ok a → Returns Q (f a))
      → (elim r as (λ _. Result B × World) [ ok a ↦ f a w | err e ↦ throw e w ]).0 ≡ ok b
      → Q b
  bound f (ok a) w b h e = (h a refl).given w b e
  bound f (err x) w b h e = absurd (cc)

  pub >>=-Returns :
      (R : A → Type 0) (m : M A) (f : A → M B)
      → Returns R m
      → ((a : A) → R a → Returns Q (f a))
      → Returns Q (m >>= f)
  >>=-Returns R m f g h = record {
    given = λ w b e. bound f (m w).0 (m w).1 b (λ a r. h a (g.given w a r)) e;
  }

  pub any->>=-Returns : (m : M A) (f : A → M B) → ((a : A) → Returns Q (f a)) → Returns Q (m >>= f)
  any->>=-Returns m f h =
      >>=-Returns (λ _. Unit {0}) m f (record { given = λ w a e. tt }) (λ a _. h a)

  pub >>-Returns : (m : M A) (k : M B) → Returns Q k → Returns Q (m >> k)
  >>-Returns m k h = any->>=-Returns m (λ _. k) (λ _. h)

module _ {A : Type 0} (Q : A → Type 0) where
  returned : (a b : A) → Q a → ◌≡◌ {A = Result A} (ok a) (ok b) → Q b
  returned a b q e = subst Q (cc) q

  pub pure-Returns : (a : A) → Q a → Returns Q (pure a)
  pure-Returns a q = record { given = λ w b e. returned a b q e }

  settled :
      (old : Db) (r : Result A) (w : World) (a : A)
      → (r ≡ ok a → Q a)
      → (settle old (r, w)).0 ≡ ok a
      → Q a
  settled old (ok b) w a h e = h e
  settled old (err x) w a h e = absurd (cc)

  pub transaction-Returns : (m : M A) → Returns Q m → Returns Q (transaction m)
  transaction-Returns m h = record {
    given = λ w a e. settled w.db (m w).0 (m w).1 a (h.given w a) e;
  }
