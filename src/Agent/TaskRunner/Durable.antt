-- ===== src/Agent/TaskRunner/Durable.antt =====
-- The results of internal/agent/task_runner.go over crashes and failed reports.
use ai_edge.Prelude.{
  ◌≡◌, refl, sym, String, Bool, true, false, ◌||◌, none, some, List, [], ◌∷◌, arith, ◌==◌, eq_iff,
  any_text, where_rows, Bool-cases, inl, inr,
}
use ai_edge.Gateway.AgentService.{NodeTask}
use ai_edge.Agent.TaskRunner.{
  TaskRunner, PendingResult, unopened, torn, whole, is_not, Reply, refused, taken, is_other,
  started, is_duplicate, mark_processed, take_tasks, poll, save_pending_result,
  remove_pending_result, result_of, report_result, execute, drain_entry,
}
use ai_edge.Agent.TaskRunner.Steps.{
  Step, began, drained, polled, executed, reported, Reachable, fresh, next,
}

abbrev pub has_result : String → List PendingResult → Bool
has_result id [] = false
has_result id (p ∷ ps) = p.task_id == id || has_result id ps

-- A result of the task is on the disk or was accepted by the gateway.
abbrev pub is_kept : String → TaskRunner → Bool
is_kept id r = has_result id r.files || has_result id r.accepted

pub record IsDurable (r : TaskRunner) : Type 0 where
  pub kept : (id : String) → any_text id r.saved ≡ true → is_kept id r ≡ true

-- Taking the result of one task away leaves those of the others.
has_result-where_rows :
    (id other : String) (ps : List PendingResult)
    → (other == id) ≡ false
    → has_result id (where_rows (is_other other) ps) ≡ has_result id ps
unfolding where_rows
has_result-where_rows id other [] n = refl
has_result-where_rows id other (p ∷ ps) n = elim (Bool-cases (p.task_id == other)) [
  | inr f ↦ rw f (ground (arith, has_result-where_rows id other ps n))
  | inl t ↦
      let same = (eq_iff p.task_id other).0 t in
      let differs : (p.task_id == id) ≡ false = rw same n in
      rw t (rw differs (has_result-where_rows id other ps n))
]

accept-IsDurable :
    (p : PendingResult) (r : TaskRunner)
    → IsDurable r
    → IsDurable (remove_pending_result p.task_id (record r { accepted = p ∷ r.accepted }))
unfolding remove_pending_result
accept-IsDurable p r d = record {
  kept = λ id h. elim (Bool-cases (p.task_id == id)) [
    | inl t ↦ ground (arith, t)
    | inr f ↦ ground (arith, f, d.kept id h, has_result-where_rows id p.task_id r.files f)
  ];
}

report_result-IsDurable :
    (reply : Reply) (p : PendingResult) (r : TaskRunner)
    → IsDurable r
    → IsDurable (report_result reply p r)
unfolding report_result
report_result-IsDurable refused p r d = d
report_result-IsDurable (taken false) p r d = record { kept = λ id h. ground (arith, d.kept id h) }
report_result-IsDurable (taken true) p r d = accept-IsDurable p r d

save-IsDurable :
    (p : PendingResult) (r : TaskRunner) → IsDurable r → IsDurable (save_pending_result whole p r)
unfolding save_pending_result
save-IsDurable p r d = record {
  kept = λ id h. elim (Bool-cases (p.task_id == id)) [
    | inl t ↦ ground (arith, t)
    | inr f ↦
        let earlier : any_text id r.saved ≡ true = ground (arith, f, h) in
        ground (arith, f, d.kept id earlier, has_result-where_rows id p.task_id r.files f)
  ];
}

-- A task whose file was torn is not among those with a whole file.
any_text-where_rows :
    (id other : String) (xs : List String)
    → any_text id (where_rows (is_not other) xs) ≡ true
    → ((other == id) ≡ false) × (any_text id xs ≡ true)
unfolding where_rows
any_text-where_rows id other [] h = absurd (ground (arith, h))
any_text-where_rows id other (x ∷ xs) h = elim (Bool-cases (x == other)) [
  | inl t ↦
      let (differs, rest) = any_text-where_rows id other xs (ground (arith, h, t)) in
      (differs, ground (arith, rest))
  | inr f ↦ elim (Bool-cases (x == id)) [
    | inl same ↦ (rw⁻¹ ((eq_iff x id).0 same) (flip x other f), ground (arith, same))
    | inr n ↦
        let (differs, rest) = any_text-where_rows id other xs (ground (arith, h, f, n)) in
        (differs, ground (arith, rest))
  ]
]
  where
    flip : (a b : String) → (a == b) ≡ false → (b == a) ≡ false
    flip a b n = elim (Bool-cases (b == a)) [
      | inr f ↦ f
      | inl t ↦
          absurd (ground (arith, n, (eq_iff b a).0 t, (eq_iff a b).1 (sym ((eq_iff b a).0 t))))
    ]

tear-IsDurable :
    (p : PendingResult) (r : TaskRunner) → IsDurable r → IsDurable (save_pending_result torn p r)
unfolding save_pending_result
tear-IsDurable p r d = record {
  kept = λ id h.
      let (differs, earlier) = any_text-where_rows id p.task_id r.saved h in
      ground (arith, d.kept id earlier, has_result-where_rows id p.task_id r.files differs);
}

take_tasks-IsDurable :
    (ts : List NodeTask) (r : TaskRunner) → IsDurable r → IsDurable (take_tasks ts r)
unfolding take_tasks mark_processed
take_tasks-IsDurable [] r d = d
take_tasks-IsDurable (t ∷ ts) r d = elim (Bool-cases (is_duplicate r t.task_id)) [
  | inl known ↦ rw known (take_tasks-IsDurable ts r d)
  | inr new ↦ rw new (take_tasks-IsDurable ts _ (record { kept = d.kept }))
]

Step-IsDurable : {r r' : TaskRunner} → Step r r' → IsDurable r → IsDurable r'
unfolding started poll execute drain_entry mark_processed save_pending_result
Step-IsDurable (began listed) d = record { kept = d.kept }
Step-IsDurable (drained false reply p rest e) d = record { kept = d.kept }
Step-IsDurable (drained true reply p rest e) d =
    report_result-IsDurable reply p _ (record { kept = d.kept })
Step-IsDurable (polled none e) d = d
Step-IsDurable (polled (some tasks) e) d = take_tasks-IsDurable tasks _ d
Step-IsDurable (executed t outcome unopened before after e) d = record { kept = d.kept }
Step-IsDurable {r} (executed t outcome torn before after e) d =
    tear-IsDurable (result_of r.node_id t outcome) _ (record { kept = d.kept })
Step-IsDurable (executed t outcome whole before after e) d =
    save-IsDurable _ _ (record { kept = d.kept })
Step-IsDurable (reported p reply before after e) d =
    report_result-IsDurable reply p _ (record { kept = d.kept })

-- A task whose result was written as a whole has a result on the disk or one that the gateway has
-- accepted, whatever crashes, failed reports, failed removals and writes that cannot open the file
-- follow, until a later write of a result of that task is torn.
pub Reachable-is_kept :
    {node_id : String} {r : TaskRunner} (id : String)
    → Reachable node_id r
    → any_text id r.saved ≡ true
    → is_kept id r ≡ true
Reachable-is_kept id reached h = (durable reached).kept id h
  where
    durable : {node_id : String} {r : TaskRunner} → Reachable node_id r → IsDurable r
    durable fresh = record { kept = λ id h. absurd (ground arith) }
    durable (next before step) = Step-IsDurable step (durable before)
