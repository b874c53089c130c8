-- ===== src/World/Always.antt =====
-- Relations between the world before an action and the world after it, and the rules of the
-- services' monad for actions that always stand in such a relation, whether they return or throw.
use order_lifecycle_backend.Prelude.{Bool, Option}
use order_lifecycle_backend.World.{
  World, Db, M, Result, ok, err, Failure, pure, throw, throw_if, gets, or_throw, transaction,
  settle, catch_error, ◌>>=◌, ◌>>◌,
}

pub record WorldRelation : Type 1 where
  pub holds : World → World → Type 0
  pub same : (w : World) → holds w w
  pub join : (u v w : World) → holds u v → holds v w → holds u w

pub record Always (R : WorldRelation) {A : Type 0} (m : M A) : Type 0 where
  pub always : (w : World) → R.holds w (m w).1

module _ {R : WorldRelation} {A B : Type 0} where
  bind_result :
      (f : A → M B) (r : Result A) (u w : World)
      → R.holds u w
      → ((a : A) → Always R (f a))
      → R.holds u (elim r as (λ _. Result B × World) [ ok a ↦ f a w | err e ↦ throw e w ]).1
  bind_result f (ok a) u w h fs = R.join u w _ h ((fs a).always w)
  bind_result f (err e) u w h fs = h

  pub >>=-Always :
      (m : M A) (f : A → M B) → Always R m → ((a : A) → Always R (f a)) → Always R (m >>= f)
  >>=-Always m f h fs = record { always = λ w. bind_result f (m w).0 w (m w).1 (h.always w) fs }

  pub >>-Always : (m : M A) (k : M B) → Always R m → Always R k → Always R (m >> k)
  >>-Always m k h g = >>=-Always m (λ _. k) h (λ _. g)

settle_result :
    {A : Type 0} (holds : World → Type 0) (old : Db) (r : Result A) (w : World)
    → (holds w → holds (record w { db = old }))
    → holds w
    → holds (settle old (r, w)).1
settle_result holds old (ok a) w back h = h
settle_result holds old (err e) w back h = back h

module _ {R : WorldRelation} {A : Type 0} where
  pub pure-Always : (a : A) → Always R (pure a)
  pure-Always a = record { always = R.same }

  pub throw-Always : (e : Failure) → Always R (throw {A = A} e)
  throw-Always e = record { always = R.same }

  pub gets-Always : (f : World → A) → Always R (gets f)
  gets-Always f = record { always = R.same }

  pub or_throw-Always : (o : Option A) (e : Failure) → Always R (or_throw o e)
  or_throw-Always o e = record { always = R.same }

  -- A transaction keeps a relation that a rollback of the tables does not end.
  pub transaction-Always :
      (m : M A)
      → ((w w' : World) → R.holds w w' → R.holds w (record w' { db = w.db }))
      → Always R m
      → Always R (transaction m)
  transaction-Always m back h = record {
    always = λ w. settle_result (R.holds w) w.db (m w).0 (m w).1 (back w (m w).1) (h.always w);
  }

  catch_result :
      (g : Failure → M A) (r : Result A) (u w : World)
      → R.holds u w
      → ((e : Failure) → Always R (g e))
      → R.holds u (elim r as (λ _. Result A × World) [ ok a ↦ pure a w | err e ↦ g e w ]).1
  catch_result g (ok a) u w h gs = h
  catch_result g (err e) u w h gs = R.join u w _ h ((gs e).always w)

  pub catch-Always :
      (m : M A) (g : Failure → M A)
      → Always R m
      → ((e : Failure) → Always R (g e))
      → Always R (catch_error m g)
  catch-Always m g h gs = record { always = λ w. catch_result g (m w).0 w (m w).1 (h.always w) gs }

pub throw_if-Always : {R : WorldRelation} (c : Bool) (e : Failure) → Always R (throw_if c e)
throw_if-Always {R} c e = record { always = R.same }

-- An action in a relation is in every relation that this one entails.
pub weaken-Always :
    {R S : WorldRelation} {A : Type 0} (m : M A)
    → ((u w : World) → R.holds u w → S.holds u w)
    → Always R m
    → Always S m
weaken-Always m entails h = record { always = λ w. entails w _ (h.always w) }
