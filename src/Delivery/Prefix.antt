-- ===== src/Delivery/Prefix.antt =====
-- What a batch sends, in which order, and what of it is marked.
use microservice_workspace.Domain.Remote.{Effect, published}
use microservice_workspace.Delivery.{publish_all}
use microservice_workspace.Base.{
  ◌∙◌, ℕ, suc, ◌≡◌, ◌<◌, ◌⊎◌, inl, inr, refl, ap, List, [], ◌∷◌, map, take, length, arith, all,
  Bool, true, drop, false,
}
use microservice_workspace.Base.Result.{Result, ok, err}
use microservice_workspace.Domain.{OutboxEvent, Uuid}
use microservice_workspace.Domain.External.{External}
use microservice_workspace.Store.{World}
use microservice_workspace.Store.Calls.{publish, call}

abbrev pub is_ok : {A : Type 0} → Result A → Bool
is_ok (ok a) = true
is_ok (err e) = false

module _ (X : External) where
  abbrev pub id_of : OutboxEvent → Uuid
  id_of e = e.id

  -- The log after the events were sent in their order.
  unfoldable pub sent : List OutboxEvent → List (Effect X.Float) → List (Effect X.Float)
  sent [] l = l
  sent (e ∷ es) l =
      sent es (published e.event_type (X.uuid_string e.aggregate_id) e.payload_json ∷ l)

  -- Whether each of the events is published when they are sent in their order from `env` on.
  unfoldable pub outcomes : List OutboxEvent → X.Env → List Bool
  outcomes [] env = []
  outcomes (e ∷ es) env =
      let (r, env') = X.publish e.event_type (X.uuid_string e.aggregate_id) e.payload_json env in
      is_ok r ∷ outcomes es env'

  -- The first `count` events were published and are to be marked. They are all, or the next one was
  -- sent as well and failed, and no other was sent.
  pub record IsPrefix (es : List OutboxEvent) (w : World X) (r : List Uuid × World X) : Type 0 where
    pub count : ℕ
    pub marked : r.0 ≡ map id_of (take count es)
    pub succeeded : all (λ b. b) (take count (outcomes es w.env)) ≡ true
    pub logged :
        ((count ≡ length es) × (r.1.log ≡ sent es w.log))
        ⊎ (((rest : List Bool) × (drop count (outcomes es w.env) ≡ false ∷ rest))
            × ((count < length es) × (r.1.log ≡ sent (take (suc count) es) w.log)))
    pub tables : r.1.db ≡ w.db

  -- The first event was sent, with the outcome `r`.
  one-IsPrefix :
      (e : OutboxEvent) (es : List OutboxEvent) (w w' : World X) (r : Result (Unit {0}))
      → outcomes (e ∷ es) w.env ≡ is_ok r ∷ outcomes es w'.env
      → w'.db ≡ w.db
      → w'.log ≡ published e.event_type (X.uuid_string e.aggregate_id) e.payload_json ∷ w.log
      → IsPrefix es w' (publish_all X es w')
      → IsPrefix (e ∷ es) w (elim r [
        | err f ↦ ([], w')
        | ok u ↦ (let (ids, v) = publish_all X es w' in (e.id ∷ ids, v))
      ])
  unfolding sent outcomes
  one-IsPrefix e es w w' (err f) o d l h = record {
    count = 0;
    marked = refl;
    succeeded = refl;
    logged = inr ((outcomes es w'.env, o), (omega arith, l));
    tables = d;
  }
  one-IsPrefix e es w w' (ok u) o d l h = record {
    count = suc h.count;
    marked = ap (λ ids. e.id ∷ ids) h.marked;
    succeeded = ap (λ q. all (λ b. b) (take (suc h.count) q)) o ∙ h.succeeded;
    logged = elim (h.logged) [
      | inl (n, k) ↦ inl (ap (λ m. suc m) n, k ∙ ap (sent es) l)
      | inr (f, (n, k)) ↦ inr (
        (f.0, ap (λ q. drop (suc h.count) q) o ∙ f.1),
        (omega (arith, n), k ∙ ap (sent (take (suc h.count) es)) l),
      )
    ];
    tables = h.tables ∙ d;
  }

  -- The worker sends a batch in order until an event is not published; it goes on to mark exactly
  -- the events before that one, each of which was published, or all if none failed. Nothing is sent
  -- after a failure, and the tables are as they were.
  pub publish_all-IsPrefix :
      (es : List OutboxEvent) (w : World X) → IsPrefix es w (publish_all X es w)
  unfolding publish_all sent publish call outcomes
  publish_all-IsPrefix [] w = record {
    count = 0;
    marked = refl;
    succeeded = refl;
    logged = inl (refl, refl);
    tables = refl;
  }
  publish_all-IsPrefix (e ∷ es) w =
      let (r, env') = X.publish e.event_type (X.uuid_string e.aggregate_id) e.payload_json w.env in
      let w' : World X = record w {
        env = env';
        log = published e.event_type (X.uuid_string e.aggregate_id) e.payload_json ∷ w.log;
      } in
      one-IsPrefix e es w w' r refl refl refl (publish_all-IsPrefix es w')
