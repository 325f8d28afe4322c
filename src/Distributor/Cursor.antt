-- ===== src/Distributor/Cursor.antt =====
-- The cursor of relayer_base/src/distributor.rs.
use axelar_relayer.Base.{
  String, ◌≡◌, refl, Option, none, some, List, [], ◌∷◌, ◌++◌, map, ap, arith, Result-cases, ◌⊎◌,
  inl, inr, ok, calls, done, outcome,
}
use axelar_relayer.Gmp.Task.{Task, TaskKind, id}
use axelar_relayer.Distributor.{
  Distributor, Call, publish_includer, publish_ingestor, store_latest_task_id, get_tasks,
  get_latest_task_id, Answers, route, store_last_task_id, process, work,
}

-- The last element, or `o` if there is none.
abbrev pub last_or {ℓ} : {A : Type ℓ} → Option A → List A → Option A
last_or o [] = o
last_or o (x ∷ xs) = last_or (some x) xs

process_state :
    (a : Answers) (f : Option (List TaskKind)) (ts : List Task) (d : Distributor)
    → ((process a f ts d).0 ≡ map id ts)
      × ((process a f ts d).2 ≡ record d { last_task_id = last_or d.last_task_id (map id ts) })
unfolding process
process_state a f [] d = (refl, refl)
process_state a f (t ∷ ts) d =
    let ih = process_state a f ts (record d { last_task_id = some (id t) }) in
    (ap (◌∷◌ (id t)) ih.0, ih.1)

-- A round that gets tasks returns their ids in order, moves the cursor to the id of the last one
-- (and leaves it if there is none), whatever is published and whether or not the database takes
-- the cursor; nothing else of the distributor changes.
pub work_cursor :
    (a : Answers) (f : Option (List TaskKind)) (d : Distributor) (ts : List Task)
    → a.tasks ≡ ok ts
    → (outcome (work a f d).0 ≡ done (map id ts))
      × ((work a f d).1 ≡ record d { last_task_id = last_or d.last_task_id (map id ts) })
unfolding work
work_cursor a f d ts e =
    (ground (arith, process_state a f ts d), ground (arith, process_state a f ts d))

-- `Checkpointed o cs`: with the cursor `o` stored before, each publication in `cs` follows a store
-- of its task's id, with no other store between them.
abbrev pub Checkpointed : Option String → List Call → Type 0
Checkpointed o [] = Unit
Checkpointed o (store_latest_task_id _ _ i ∷ cs) = Checkpointed (some i) cs
Checkpointed o (publish_includer t ∷ cs) = (o ≡ some (id t)) × Checkpointed o cs
Checkpointed o (publish_ingestor t ∷ cs) = (o ≡ some (id t)) × Checkpointed o cs
Checkpointed o (get_tasks _ ∷ cs) = Checkpointed o cs
Checkpointed o (get_latest_task_id _ _ ∷ cs) = Checkpointed o cs

module _ (a : Answers) (f : Option (List TaskKind)) where
  stored :
      (d : Distributor) (i : String)
      → calls (store_last_task_id a (record d { last_task_id = some i }))
        ≡ store_latest_task_id d.chain d.context i ∷ []
  unfolding store_last_task_id
  stored d i = ground arith

  route-cases :
      (d : Distributor) (t : Task)
      → (route d f t ≡ [])
        ⊎ (route d f t ≡ publish_includer t ∷ [])
        ⊎ (route d f t ≡ publish_ingestor t ∷ [])
  unfolding route
  route-cases d t = ground arith

  routed :
      (d : Distributor) (t : Task) (rest : List Call)
      → Checkpointed (some (id t)) rest
      → Checkpointed (some (id t)) (route d f t ++ rest)
  routed d t rest h = elim (route-cases d t) [
    | inl e ↦ rw e h
    | inr (inl e) ↦ rw e (refl, h)
    | inr (inr e) ↦ rw e (refl, h)
  ]

  process-Checkpointed :
      (ts : List Task) (o : Option String) (d : Distributor) → Checkpointed o (process a f ts d).1
  unfolding process
  process-Checkpointed [] o d = tt
  process-Checkpointed (t ∷ ts) o d =
      let d' = record d { last_task_id = some (id t) } in
      rw (stored d (id t)) (routed d' t _ (process-Checkpointed ts (some (id t)) d'))

-- In a round every publication of a task comes after the call that stores the task's id as the
-- cursor, and before the next such call.
pub store_before_publish :
    (a : Answers) (f : Option (List TaskKind)) (d : Distributor)
    → Checkpointed none (calls (work a f d).0)
unfolding work
store_before_publish a f d = elim (Result-cases a.tasks) [
  | inl (ts, e) ↦ rw (e, work) (process-Checkpointed a f ts none d)
  | inr (_, e) ↦ rw (e, work) tt
]
