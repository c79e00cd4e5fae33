-- ===== src/Ledger/Always.antt =====
-- What an action does to the world however it ends: a relation between the world before and after
-- that is reflexive and transitive. A record, so that rules for it can be searched.
use microservice_workspace.Base.Result.{Result, ok, err, M, ◌>>=◌, pure, attempt, from_result}

pub record Always {W A : Type 0} (R : W → W → Type 0) (m : M W A) : Type 0 where
  pub run : (w : W) → R w (m w).1

module _ {W : Type 0} (R : W → W → Type 0) (here : (w : W) → R w w)
    (next : (u v w : W) → R u v → R v w → R u w) where
  module _ {A : Type 0} where
    pub Always-from_result : (r : Result A) → Always R (from_result r)
    Always-from_result r = record { run = λ w. here w }

    pub Always-pure : (a : A) → Always R (pure a)
    Always-pure a = record { run = λ w. here w }

    pub Always-attempt : (m : M W A) → Always R m → Always R (attempt m)
    Always-attempt m h = record { run = h.run }

  module _ {A B : Type 0} where
    bind_step :
        (f : A → M W B)
        → ((a : A) → Always R (f a))
        → (w : W) (p : Result A × W) → R w p.1
        → R w
            (let (r, w') = p in
              let q : Result B × W = elim r [ ok a ↦ f a w' | err e ↦ (err e, w') ] in q).1
    bind_step f k w (ok a, v) e = next w v (f a v).1 e ((k a).run v)
    bind_step f k w (err x, v) e = e

    pub Always-bind :
        (m : M W A) (f : A → M W B) → Always R m → ((a : A) → Always R (f a)) → Always R (m >>= f)
    Always-bind m f h k = record { run = λ w. bind_step f k w (m w) (h.run w) }
