-- ===== src/Store/Outbox/Order.antt =====
-- The order of the claims on outbox events: `ORDER BY created_at ASC LIMIT n` among the rows that
-- can be claimed.
use mathlib.Core.List.Perm
use mathlib.Core.List.{Perm}
use microservice_workspace.Base.{
  ℕ, zero, suc, ◌≤◌, ◌≡◌, ◌⊎◌, inl, inr, refl, ap, List, [], ◌∷◌, ◌++◌, map, select, take, drop,
  length, All, All-map, arith, Bool-cases, leb, length-take-le,
}
use microservice_workspace.Domain.{Time, Uuid}
use microservice_workspace.Store.{OutboxEventEntity}
use microservice_workspace.Store.Outbox.{is_claimable, insert_asc, sort_asc, next_ids}

-- Created no later than every one of the rows.
abbrev pub IsFirst : OutboxEventEntity → List OutboxEventEntity → Type 0
IsFirst m rows = All (λ (r : OutboxEventEntity). m.created_at ≤ r.created_at) rows

abbrev pub IsAscending : List OutboxEventEntity → Type 0
IsAscending [] = Unit
IsAscending (m ∷ rows) = IsFirst m rows × IsAscending rows

IsFirst-trans :
    (m r : OutboxEventEntity) (rows : List OutboxEventEntity)
    → m.created_at ≤ r.created_at
    → IsFirst r rows
    → IsFirst m rows
IsFirst-trans m r rows h =
    All-map (λ (x : OutboxEventEntity). r.created_at ≤ x.created_at)
      (λ (x : OutboxEventEntity). m.created_at ≤ x.created_at) (λ x k. omega (arith, h, k)) rows

insert_asc-IsFirst :
    (k m : OutboxEventEntity) (rows : List OutboxEventEntity)
    → k.created_at ≤ m.created_at
    → IsFirst k rows
    → IsFirst k (insert_asc m rows)
unfolding insert_asc
insert_asc-IsFirst k m [] h g = (h, tt)
insert_asc-IsFirst k m (r ∷ rows) h g = elim (Bool-cases (leb m.created_at r.created_at)) [
  | inl e ↦ rw e (h, g)
  | inr e ↦ rw e (g.0, insert_asc-IsFirst k m rows h g.1)
]

insert_asc-IsAscending :
    (m : OutboxEventEntity) (rows : List OutboxEventEntity)
    → IsAscending rows
    → IsAscending (insert_asc m rows)
unfolding insert_asc
insert_asc-IsAscending m [] h = (tt, tt)
insert_asc-IsAscending m (r ∷ rows) h = elim (Bool-cases (leb m.created_at r.created_at)) [
  | inl e ↦ rw e ((ground arith, IsFirst-trans m r rows (ground arith) h.0), h)
  | inr e ↦ rw e (insert_asc-IsFirst r m rows (ground arith) h.0, insert_asc-IsAscending m rows h.1)
]

sort_asc-IsAscending : (rows : List OutboxEventEntity) → IsAscending (sort_asc rows)
unfolding sort_asc
sort_asc-IsAscending [] = tt
sort_asc-IsAscending (m ∷ rows) =
    insert_asc-IsAscending m (sort_asc rows) (sort_asc-IsAscending rows)

insert_asc-Perm :
    (m : OutboxEventEntity) (rows : List OutboxEventEntity) → Perm (insert_asc m rows) (m ∷ rows)
unfolding insert_asc
insert_asc-Perm m [] = Perm.rfl
insert_asc-Perm m (r ∷ rows) = elim (Bool-cases (leb m.created_at r.created_at)) [
  | inl e ↦ rw e Perm.rfl
  | inr e ↦ rw e (Perm.trans (Perm.cons r (insert_asc-Perm m rows)) (Perm.swap m r rows))
]

pub sort_asc-Perm : (rows : List OutboxEventEntity) → Perm (sort_asc rows) rows
unfolding sort_asc
sort_asc-Perm [] = Perm.rfl
sort_asc-Perm (m ∷ rows) =
    Perm.trans (insert_asc-Perm m (sort_asc rows)) (Perm.cons m (sort_asc-Perm rows))

take-drop : (n : ℕ) (rows : List OutboxEventEntity) → take n rows ++ drop n rows ≡ rows
take-drop zero rows = refl
take-drop (suc n) [] = refl
take-drop (suc n) (m ∷ rows) = ap (λ rs. m ∷ rs) (take-drop n rows)

All-take :
    (P : OutboxEventEntity → Type 0) (n : ℕ) (rows : List OutboxEventEntity)
    → All P rows
    → All P (take n rows)
All-take P zero rows h = tt
All-take P (suc n) [] h = tt
All-take P (suc n) (m ∷ rows) h = (h.0, All-take P n rows h.1)

All-drop :
    (P : OutboxEventEntity → Type 0) (n : ℕ) (rows : List OutboxEventEntity)
    → All P rows
    → All P (drop n rows)
All-drop P zero rows h = h
All-drop P (suc n) [] h = tt
All-drop P (suc n) (m ∷ rows) h = All-drop P n rows h.1

take-IsAscending :
    (n : ℕ) (rows : List OutboxEventEntity) → IsAscending rows → IsAscending (take n rows)
take-IsAscending zero rows h = tt
take-IsAscending (suc n) [] h = tt
take-IsAscending (suc n) (m ∷ rows) h = (
  All-take (λ (r : OutboxEventEntity). m.created_at ≤ r.created_at) n rows h.0,
  take-IsAscending n rows h.1,
)

take-before-drop :
    (n : ℕ) (rows : List OutboxEventEntity)
    → IsAscending rows
    → All (λ m. IsFirst m (drop n rows)) (take n rows)
take-before-drop zero rows h = tt
take-before-drop (suc n) [] h = tt
take-before-drop (suc n) (m ∷ rows) h = (
  All-drop (λ (r : OutboxEventEntity). m.created_at ≤ r.created_at) n rows h.0,
  take-before-drop n rows h.1,
)

length-take-full :
    (n : ℕ) (rows : List OutboxEventEntity) → (length (take n rows) ≡ n) ⊎ (drop n rows ≡ [])
length-take-full zero rows = inl refl
length-take-full (suc n) [] = inr refl
length-take-full (suc n) (m ∷ rows) = elim (length-take-full n rows) [
  | inl e ↦ inl (ap (λ k. suc k) e)
  | inr e ↦ inr e
]

-- The rows that can be claimed fall into a batch and a rest. The identifiers are the batch's, in
-- the order of creation; nothing of the rest was created before any of the batch; and the batch is
-- as large as allowed, unless nothing is left.
pub record IsOldest (now : Time) (limit : ℕ) (rows : List OutboxEventEntity) (ids : List Uuid)
    : Type 0 where
  pub batch : List OutboxEventEntity
  pub rest : List OutboxEventEntity
  pub shared : Perm (batch ++ rest) (select (is_claimable now) rows)
  pub named : ids ≡ map (λ (m : OutboxEventEntity). m.id) batch
  pub ascending : IsAscending batch
  pub oldest : All (λ m. IsFirst m rest) batch
  pub within : length batch ≤ limit
  pub full : (length batch ≡ limit) ⊎ (rest ≡ [])

-- A worker claims the oldest of the events that can be claimed, in the order of their creation: no
-- event is left out that was created before one of them. It claims as many as it may, or all.
pub next_ids-IsOldest :
    (now : Time) (limit : ℕ) (rows : List OutboxEventEntity)
    → IsOldest now limit rows (next_ids now limit rows)
unfolding next_ids
next_ids-IsOldest now limit rows =
    let found = select (is_claimable now) rows in
    let sorted = sort_asc found in
    let order = sort_asc-IsAscending found in
    record {
      batch = take limit sorted;
      rest = drop limit sorted;
      shared = rw (take-drop limit sorted) (sort_asc-Perm found);
      named = refl;
      ascending = take-IsAscending limit sorted order;
      oldest = take-before-drop limit sorted order;
      within = length-take-le limit sorted;
      full = length-take-full limit sorted;
    }
