-- ===== src/Distributor/Routing.antt =====
-- Which tasks a round of relayer_base/src/distributor.rs puts on which queue.
use axelar_relayer.Base.{
  ◌≡◌, refl, Bool, not, ◌&&◌, Option, some, List, [], ◌∷◌, ◌++◌, keep, ap, arith, ok, err, calls,
  if◌then◌else◌, Result-cases, inl, inr,
}
use axelar_relayer.Gmp.Task.{Task, TaskKind, id, kind, kind_eq}
use axelar_relayer.Distributor.{
  Distributor, Call, publish_includer, publish_ingestor, Answers, contains, passes, route,
  store_last_task_id, process, work,
}

-- The tasks that calls put on the queue of the includer, and of the ingestor, in order.
abbrev pub includer_tasks : List Call → List Task
includer_tasks [] = []
includer_tasks (publish_includer t ∷ cs) = t ∷ includer_tasks cs
includer_tasks (_ ∷ cs) = includer_tasks cs

abbrev pub ingestor_tasks : List Call → List Task
ingestor_tasks [] = []
ingestor_tasks (publish_ingestor t ∷ cs) = t ∷ ingestor_tasks cs
ingestor_tasks (_ ∷ cs) = ingestor_tasks cs

-- Whether a task is wanted: it passes the filter, and is no refund while these are off.
abbrev pub is_wanted : Distributor → Option (List TaskKind) → Task → Bool
is_wanted d f t =
    passes f (kind t) && not (kind_eq (kind t) TaskKind.refund && not d.refunds_enabled)

abbrev pub for_includer : Distributor → Option (List TaskKind) → Task → Bool
for_includer d f t = is_wanted d f t && contains d.supported_includer_tasks (kind t)

abbrev pub for_ingestor : Distributor → Option (List TaskKind) → Task → Bool
for_ingestor d f t =
    is_wanted d f t
    && not (contains d.supported_includer_tasks (kind t))
    && contains d.supported_ingestor_tasks (kind t)

includer_tasks-append :
    (xs ys : List Call) → includer_tasks (xs ++ ys) ≡ includer_tasks xs ++ includer_tasks ys
includer_tasks-append [] ys = refl
includer_tasks-append (publish_includer t ∷ xs) ys = ap (◌∷◌ t) (includer_tasks-append xs ys)
includer_tasks-append (_ ∷ xs) ys = includer_tasks-append xs ys

ingestor_tasks-append :
    (xs ys : List Call) → ingestor_tasks (xs ++ ys) ≡ ingestor_tasks xs ++ ingestor_tasks ys
ingestor_tasks-append [] ys = refl
ingestor_tasks-append (publish_ingestor t ∷ xs) ys = ap (◌∷◌ t) (ingestor_tasks-append xs ys)
ingestor_tasks-append (_ ∷ xs) ys = ingestor_tasks-append xs ys

module _ (a : Answers) where
  stores_nothing :
      (d : Distributor)
      → (includer_tasks (calls (store_last_task_id a d)) ≡ [])
        × (ingestor_tasks (calls (store_last_task_id a d)) ≡ [])
  unfolding store_last_task_id
  stores_nothing d = (ground arith, ground arith)

  module _ (f : Option (List TaskKind)) where
    route-includer :
        (d : Distributor) (t : Task) (rest : List Task)
        → includer_tasks (route d f t) ++ rest ≡ (if for_includer d f t then t ∷ rest else rest)
    unfolding route
    route-includer d t rest = ground arith

    route-ingestor :
        (d : Distributor) (t : Task) (rest : List Task)
        → ingestor_tasks (route d f t) ++ rest ≡ (if for_ingestor d f t then t ∷ rest else rest)
    unfolding route
    route-ingestor d t rest = ground arith

    process-includer :
        (ts : List Task) (d : Distributor)
        → includer_tasks (process a f ts d).1 ≡ keep (for_includer d f) ts
    unfolding process
    process-includer [] d = refl
    process-includer (t ∷ ts) d =
        let d' = record d { last_task_id = some (id t) } in
        simp (includer_tasks-append, (stores_nothing d').0, process-includer ts d')
          (route-includer d' t (keep (for_includer d f) ts))

    process-ingestor :
        (ts : List Task) (d : Distributor)
        → ingestor_tasks (process a f ts d).1 ≡ keep (for_ingestor d f) ts
    unfolding process
    process-ingestor [] d = refl
    process-ingestor (t ∷ ts) d =
        let d' = record d { last_task_id = some (id t) } in
        simp (ingestor_tasks-append, (stores_nothing d').1, process-ingestor ts d')
          (route-ingestor d' t (keep (for_ingestor d f) ts))

-- The tasks that the API handed out in a round, none if it failed.
abbrev pub fetched : Answers → List Task
fetched a = elim a.tasks [ ok ts ↦ ts | err _ ↦ [] ]

-- A round puts exactly the wanted tasks of the includer's kinds on the includer's queue, and the
-- other wanted tasks of the ingestor's kinds on the ingestor's, each once and in the order of the
-- API; the rest is dropped, and so is everything if the API fails.
pub work_routes :
    (a : Answers) (f : Option (List TaskKind)) (d : Distributor)
    → (includer_tasks (calls (work a f d).0) ≡ keep (for_includer d f) (fetched a))
      × (ingestor_tasks (calls (work a f d).0) ≡ keep (for_ingestor d f) (fetched a))
unfolding work
work_routes a f d = elim (Result-cases a.tasks) [
  | inl (ts, e) ↦
      (ground (arith, process-includer a f ts d), ground (arith, process-ingestor a f ts d))
  | inr (_, e) ↦ (ground arith, ground arith)
]
