-- ===== src/Delivery/Rows.antt =====
-- The table of outbox events over a turn of the worker: what is still to be published.
use microservice_workspace.Base.{
  ℕ, ◌+◌, ◌≤◌, ◌<◌, ◌≡◌, ◌∙◌, refl, sym, ap, Bool, true, not, ◌&&◌, ◌||◌, List, [], ◌∷◌, map, any,
  all, select, update, All, All-map, arith, Bool-cases, inl, inr, ==_iff, if◌then◌else◌, ◌==◌,
}
use microservice_workspace.Base.Text.{Text}
use microservice_workspace.Domain.{Time, Uuid, OutboxEvent}
use microservice_workspace.Store.{OutboxEventEntity}
use microservice_workspace.Store.Outbox.{
  is_among, claim, set_published, sort_asc, insert_asc, to_event,
}

abbrev pub event_id : OutboxEvent → Uuid
event_id e = e.id

-- The events that are not published yet.
unfoldable pub pending : List OutboxEventEntity → ℕ
pending [] = 0
pending (m ∷ rows) = (if m.published then 0 else 1) + pending rows

-- No event is in the hands of a worker.
abbrev pub IsSettled : List OutboxEventEntity → Type 0
IsSettled rows = all (λ (m : OutboxEventEntity). m.published || not m.processing) rows ≡ true

-- One of the rows has the identifier of `m`.
abbrev pub names : List OutboxEventEntity → OutboxEventEntity → Bool
names rows m = any (λ (r : OutboxEventEntity). m.id == r.id) rows

any-insert_asc :
    (p : OutboxEventEntity → Bool) (m : OutboxEventEntity) (rows : List OutboxEventEntity)
    → any p (insert_asc m rows) ≡ (p m || any p rows)
unfolding insert_asc
any-insert_asc p m [] = refl
any-insert_asc p m (r ∷ rows) = ground (arith, any-insert_asc p m rows)

pub any-sort_asc :
    (p : OutboxEventEntity → Bool) (rows : List OutboxEventEntity)
    → any p (sort_asc rows) ≡ any p rows
unfolding sort_asc
any-sort_asc p [] = refl
any-sort_asc p (m ∷ rows) =
    any-insert_asc p m (sort_asc rows) ∙ ap (λ b. p m || b) (any-sort_asc p rows)

is_among-names :
    (rows : List OutboxEventEntity) (m : OutboxEventEntity)
    → is_among (map event_id (map to_event rows)) m ≡ names rows m
is_among-names [] m = refl
is_among-names (r ∷ rows) m = ap (λ b. (m.id == r.id) || b) (is_among-names rows m)

is_among-same :
    (ids : List Uuid) (m r : OutboxEventEntity)
    → (m.id == r.id) ≡ true
    → is_among ids m ≡ true
    → is_among ids r ≡ true
is_among-same ids m r h k =
    let e : m.id ≡ r.id = (==_iff m.id r.id).0 h in ap (λ u. any (λ id. u == id) ids) (sym e) ∙ k

names-select :
    (ids : List Uuid) (rows : List OutboxEventEntity) (m : OutboxEventEntity)
    → is_among ids m ≡ true
    → names rows m ≡ true
    → names (select (is_among ids) rows) m ≡ true
names-select ids [] m h k = k
names-select ids (r ∷ rows) m h k = elim (Bool-cases (m.id == r.id)) [
  | inl e ↦ rw (is_among-same ids m r e h, e) refl
  | inr e ↦ let i = names-select ids rows m h in ground arith
]

names-claimed :
    (ids : List Uuid) (owner : Text) (now : Time) (rows : List OutboxEventEntity)
    (m : OutboxEventEntity)
    → names (update (is_among ids) (claim owner now) rows) m ≡ names rows m
names-claimed ids owner now [] m = refl
names-claimed ids owner now (r ∷ rows) m =
    let i = names-claimed ids owner now rows m in
    elim (Bool-cases (is_among ids r)) [ inl e ↦ rw (e, i) refl | inr e ↦ rw (e, i) refl ]

names_self : (rows : List OutboxEventEntity) → All (λ m. names rows m ≡ true) rows
names_self [] = tt
names_self (r ∷ rows) = (
  ground arith,
  All-map (λ m. names rows m ≡ true) (λ m. names (r ∷ rows) m ≡ true) (λ m h. ground arith) rows
      (names_self rows),
)

-- The rows that a claim of `ids` reads back.
abbrev pub claimed : List Uuid → Text → Time → List OutboxEventEntity → List OutboxEventEntity
claimed ids owner now rows =
    sort_asc (select (is_among ids) (update (is_among ids) (claim owner now) rows))

-- The table after the claim of `ids` and after what it read back is marked as published.
abbrev pub delivered :
    List Uuid → Text → Time → Time → List OutboxEventEntity → List OutboxEventEntity
delivered ids owner now later rows =
    update (is_among (map event_id (map to_event (claimed ids owner now rows))))
      (set_published later) (update (is_among ids) (claim owner now) rows)

-- Every row that is claimed is among those that are marked.
Covers : List Uuid → List Uuid → List OutboxEventEntity → Type 0
Covers ids marked rows = All (λ m. is_among ids m ≡ true → is_among marked m ≡ true) rows

claimed-Covers :
    (ids : List Uuid) (owner : Text) (now : Time) (rows : List OutboxEventEntity)
    → Covers ids (map event_id (map to_event (claimed ids owner now rows))) rows
unfolding Covers
claimed-Covers ids owner now rows =
    let read = update (is_among ids) (claim owner now) rows in
    All-map (λ m. names rows m ≡ true) _
      (λ m h k.
        is_among-names (claimed ids owner now rows) m
        ∙ any-sort_asc (λ (r : OutboxEventEntity). m.id == r.id) (select (is_among ids) read)
        ∙ names-select ids read m k (names-claimed ids owner now rows m ∙ h))
      rows (names_self rows)

-- What two passes over the table leave of one row.
pending-delivered :
    (ids marked : List Uuid) (owner : Text) (now later : Time) (rows : List OutboxEventEntity)
    → pending (
        update
          (is_among marked)
          (set_published later)
          (update (is_among ids) (claim owner now) rows))
      ≤ pending rows
unfolding pending
pending-delivered ids marked owner now later [] = omega arith
pending-delivered ids marked owner now later (m ∷ rows) =
    let i = pending-delivered ids marked owner now later rows in
    elim (Bool-cases (is_among ids m)) [
      | inl e ↦ elim (Bool-cases (is_among marked m)) [
        | inl k ↦ rw (e, k) (ground arith)
        | inr k ↦ rw (e, k) (ground arith)
      ]
      | inr e ↦ elim (Bool-cases (is_among marked m)) [
        | inl k ↦ rw (e, k) (ground arith)
        | inr k ↦ rw (e, k) (ground arith)
      ]
    ]

-- An event that is not published, and is claimed.
abbrev pub waits : List Uuid → OutboxEventEntity → Bool
waits ids m = not m.published && is_among ids m

pending-delivered-lt :
    (ids marked : List Uuid) (owner : Text) (now later : Time) (rows : List OutboxEventEntity)
    → Covers ids marked rows
    → any (waits ids) rows ≡ true
    → pending (
        update
          (is_among marked)
          (set_published later)
          (update (is_among ids) (claim owner now) rows))
      < pending rows
unfolding pending Covers
pending-delivered-lt ids marked owner now later [] c h = ground arith
pending-delivered-lt ids marked owner now later (m ∷ rows) c h =
    let le = pending-delivered ids marked owner now later rows in
    let lt = pending-delivered-lt ids marked owner now later rows c.1 in
    elim (Bool-cases (is_among ids m)) [
      | inl e ↦ let k = c.0 e in rw (e, k) (ground arith)
      | inr e ↦ elim (Bool-cases (is_among marked m)) [
        | inl k ↦ rw (e, k) (ground arith)
        | inr k ↦ rw (e, k) (ground arith)
      ]
    ]

updated-IsSettled :
    (ids marked : List Uuid) (owner : Text) (now later : Time) (rows : List OutboxEventEntity)
    → Covers ids marked rows
    → IsSettled rows
    → IsSettled (
        update
          (is_among marked)
          (set_published later)
          (update (is_among ids) (claim owner now) rows))
unfolding Covers
updated-IsSettled ids marked owner now later [] c h = refl
updated-IsSettled ids marked owner now later (m ∷ rows) c h =
    let i = updated-IsSettled ids marked owner now later rows c.1 in
    elim (Bool-cases (is_among ids m)) [
      | inl e ↦ let k = c.0 e in rw (e, k) (ground arith)
      | inr e ↦ elim (Bool-cases (is_among marked m)) [
        | inl k ↦ rw (e, k) (ground arith)
        | inr k ↦ rw (e, k) (ground arith)
      ]
    ]

-- A turn over the table: what was claimed is published, so no event stays in the worker's hands.
pub delivered-IsSettled :
    (ids : List Uuid) (owner : Text) (now later : Time) (rows : List OutboxEventEntity)
    → IsSettled rows
    → IsSettled (delivered ids owner now later rows)
delivered-IsSettled ids owner now later rows s =
    updated-IsSettled ids (map event_id (map to_event (claimed ids owner now rows))) owner now later
      rows (claimed-Covers ids owner now rows) s

-- If an event that is not published was claimed, fewer are left.
pub fewer_after :
    (ids : List Uuid) (owner : Text) (now later : Time) (rows : List OutboxEventEntity)
    → any (waits ids) rows ≡ true
    → pending (delivered ids owner now later rows) < pending rows
fewer_after ids owner now later rows h =
    pending-delivered-lt ids (map event_id (map to_event (claimed ids owner now rows))) owner now
      later rows (claimed-Covers ids owner now rows) h

pub no_more_after :
    (ids : List Uuid) (owner : Text) (now later : Time) (rows : List OutboxEventEntity)
    → pending (delivered ids owner now later rows) ≤ pending rows
no_more_after ids owner now later rows =
    pending-delivered ids (map event_id (map to_event (claimed ids owner now rows))) owner now later
      rows

pub update_none :
    (f : OutboxEventEntity → OutboxEventEntity) (rows : List OutboxEventEntity)
    → update (is_among []) f rows ≡ rows
update_none f [] = refl
update_none f (m ∷ rows) = ap (λ rs. m ∷ rs) (update_none f rows)

pub select_none : (rows : List OutboxEventEntity) → select (is_among []) rows ≡ []
select_none [] = refl
select_none (m ∷ rows) = select_none rows
