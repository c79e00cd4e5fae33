-- ===== src/Bff/Upstream/Laws.antt =====
-- A call that is tried: its result is mapped by the client, and its outcome by the operation.
use microservice_workspace.Base.{◌≡◌, refl, ap}
use microservice_workspace.Base.Result.{Result, ok, err, M, ◌>>=◌, pure, attempt, and_then}

-- What follows a call leaves the world as the call left it.
pub tried-world :
    {W A B : Type 0} (m : M W A) (g : Result A → B) (w : W)
    → ((attempt m >>= λ r. pure (g r)) w).1 ≡ (m w).1
tried-world {W} {A} {B} m g w = go (m w)
  where
    go : (p : Result A × W) → ((attempt (λ (v : W). p) >>= λ r. pure (g r)) w).1 ≡ p.1
    go (ok a, v) = refl
    go (err e, v) = refl

pub mapped-world :
    {W A B : Type 0} (m : M W A) (f : A → B) (w : W) → ((m >>= λ a. pure (f a)) w).1 ≡ (m w).1
mapped-world {W} {A} {B} m f w = go (m w)
  where
    go : (p : Result A × W) → (((λ (v : W). p) >>= λ a. pure (f a)) w).1 ≡ p.1
    go (ok a, v) = refl
    go (err e, v) = refl

-- The outcome as a function of the outcome of the call.
abbrev pub answered_by : {W A B : Type 0} → (Result A → B) → Result A × W → Result B × W
answered_by f (r, w) = (ok (f r), w)

pub tried-eq :
    {W A B C : Type 0} (m : M W A) (f : A → B) (g : Result B → C) (h : Result A → C) (w : W)
    → ((r : Result A) → g (and_then r (λ a. ok (f a))) ≡ h r)
    → (attempt (m >>= λ a. pure (f a)) >>= λ r. pure (g r)) w ≡ answered_by h (m w)
unfolding and_then
tried-eq {W} {A} {B} {C} m f g h w e = go (m w)
  where
    go :
        (p : Result A × W)
        → (attempt ((λ (v : W). p) >>= λ a. pure (f a)) >>= λ r. pure (g r)) w ≡ answered_by h p
    go (ok a, v) = ap (λ c. (ok c, v)) (e (ok a))
    go (err x, v) = ap (λ c. (ok c, v)) (e (err x))

pub ok-eq :
    {W A B C : Type 0} (m : M W A) (f : A → B) (g : Result B → C) (w : W) (a : A)
    → (m w).0 ≡ ok a
    → ((attempt (m >>= λ a. pure (f a)) >>= λ r. pure (g r)) w).0 ≡ ok (g (ok (f a)))
ok-eq {W} {A} {B} {C} m f g w a h = go (m w) h
  where
    go :
        (p : Result A × W)
        → p.0 ≡ ok a
        → ((attempt ((λ (v : W). p) >>= λ a. pure (f a)) >>= λ r. pure (g r)) w).0
          ≡ ok (g (ok (f a)))
    go (ok b, v) h = let q : b ≡ a = cc in ap (λ x. ok (g (ok (f x)))) q
    go (err e, v) h = cc
