-- ===== src/Task/Service/Listing.antt =====
-- ListTasks of internal/task/service.go, called page after page: a client sends the token of each
-- answer with its next request until an answer has none.
use ai_edge.Prelude.{
  ℕ, zero, suc, ◌+◌, ◌-◌, ◌≤◌, ◌<◌, ◌≡◌, refl, sym, ap, ◌∙◌, String, Bool, false, Option, none,
  some, List, [], ◌∷◌, ◌++◌, map, append-nil, arith, ◌==◌, if◌then◌else◌, length, take, drop,
  length-drop, take-append-drop, take_all, drop-drop, length-order_by, length-where_rows,
  where_rows, count_rows, order_by, Bool-cases, inl, inr,
}
use ai_edge.Prelude.Int.{ℤ, pos, ◌+ℤ◌, ltb_ℤ}
use ai_edge.Pages.{offset_of, next_token, clamp_limit}
use ai_edge.Store.Errors.{ok}
use ai_edge.Store.Schema.{Db, TaskRow}
use ai_edge.Store.Session.{Env, Session, Exec, pure, ◌>>=◌, select_now, autocommit}
use ai_edge.Store.Transactions.{IsQuiet}
use ai_edge.Task.Store.{ListFilter, in_filter, newest_first, Scan, list_tasks}
use ai_edge.Prelude.Orders.{HaveDistinctKeys, where_rows-Perm, order_by-Perm}
use mathlib.Core.List.{Permᴰ}
use ai_edge.Task.Service.{
  ListTasksRequest, ListTasksResponse, TaskMessage, row_to_proto, filter_of, list_tasks_handler,
}

-- What the client asks for, without the page.
abbrev pub on_page : ListTasksRequest → (size : ℕ) → (token : String) → ListTasksRequest
on_page req size token = record req {
  page = some (record { page_size = pos size; page_token = token });
}

-- All matching rows, newest first.
abbrev pub matching : (String → Option ℤ) → ListTasksRequest → Db → List TaskRow
matching atoi req db = order_by newest_first (where_rows (in_filter (filter_of atoi req)) db.tasks)

clamp_id : (k : ℕ) → suc k ≤ 100 → clamp_limit (pos (suc k)) ≡ suc k
unfolding clamp_limit
clamp_id k h = ground arith

abbrev answer : (ℤ → String) → List TaskRow → (offset size : ℕ) → ListTasksResponse
answer itoa rows offset size = record {
  tasks = map row_to_proto (take size (drop offset rows));
  next_page_token = next_token itoa (pos (offset + size)) (length rows);
  total_count = length rows;
}

list_tasks_quiet :
    (env : Env) (scan : Scan) (f : ListFilter) (n o : ℕ) (s : Session)
    → IsQuiet env
    → clamp_limit f.limit ≡ n
    → f.offset ≡ pos o
    → ((list_tasks env scan f s).0
        ≡ ok (
          take n (drop o (order_by newest_first (where_rows (in_filter f) (scan s.db.tasks)))),
          count_rows (in_filter f) s.db.tasks,
        ))
      × ((list_tasks env scan f s).1.db ≡ s.db)
unfolding list_tasks select_now autocommit
list_tasks_quiet env scan f n o s q c p =
    rw (q s.tick) (rw (q (suc s.tick)) (rw c (rw p (refl, refl))))

pos_add : (a b : ℕ) → pos a +ℤ pos b ≡ pos (a + b)
pos_add a b = ground arith

matching_counted :
    (p : TaskRow → Bool) (rows : List TaskRow)
    → count_rows p rows ≡ length (order_by newest_first (where_rows p rows))
matching_counted p rows =
    sym (length-order_by newest_first (where_rows p rows) ∙ length-where_rows p rows)

-- A scan comes to every row of a table once.
abbrev pub IsScan : Scan → Type 0
IsScan scan = (rows : List TaskRow) → Permᴰ rows (scan rows)

-- No two matching tasks were created at one time.
abbrev pub HaveDistinctTimes : (String → Option ℤ) → ListTasksRequest → Db → Type 0
HaveDistinctTimes atoi req db =
    HaveDistinctKeys (λ (r : TaskRow). r.created_at)
      (where_rows (in_filter (filter_of atoi req)) db.tasks)

scanned-matching :
    (scan : Scan) (atoi : String → Option ℤ) (req : ListTasksRequest) (db : Db)
    → IsScan scan
    → HaveDistinctTimes atoi req db
    → order_by newest_first (where_rows (in_filter (filter_of atoi req)) (scan db.tasks))
      ≡ matching atoi req db
scanned-matching scan atoi req db complete distinct = sym (
    order_by-Perm (λ (r : TaskRow). r.created_at)
      (where_rows-Perm (λ (r : TaskRow). r.created_at) (in_filter (filter_of atoi req))
        (complete db.tasks))
      distinct)

handler_quiet :
    (env : Env) (scan : Scan) (atoi : String → Option ℤ) (itoa : ℤ → String)
    (req : ListTasksRequest) (k offset : ℕ) (token : String) (s : Session)
    → IsQuiet env
    → IsScan scan
    → HaveDistinctTimes atoi req s.db
    → suc k ≤ 100
    → offset_of atoi (some (record { page_size = pos (suc k); page_token = token })) ≡ pos offset
    → ((list_tasks_handler env scan atoi itoa (on_page req (suc k) token) s).0
        ≡ ok (answer itoa (matching atoi req s.db) offset (suc k)))
      × ((list_tasks_handler env scan atoi itoa (on_page req (suc k) token) s).1.db ≡ s.db)
unfolding list_tasks_handler in_filter
handler_quiet env scan atoi itoa req k offset token s q complete distinct h o =
    let (r, d) =
      list_tasks_quiet env scan (filter_of atoi (on_page req (suc k) token)) (suc k) offset s q
        (clamp_id k h) o in
    let c = matching_counted (in_filter (filter_of atoi req)) s.db.tasks in
    let sorted = scanned-matching scan atoi req s.db complete distinct in
    let n : offset_of atoi (some (record { page_size = pos (suc k); page_token = token }))
          +ℤ pos (suc k)
        ≡ pos (offset + suc k) =
      ap (λ z. z +ℤ pos (suc k)) o ∙ pos_add offset (suc k) in
    (rw r (rw sorted (rw n (rw c refl))), rw r d)

-- A client that follows the tokens for at most `fuel` answers; `none` where they go on. Each
-- answer is scanned anew.
unfoldable pub follow :
    ℕ
    → Env
    → (ℕ → Scan)
    → (String → Option ℤ)
    → (ℤ → String)
    → ListTasksRequest
    → (size : ℕ) → (token : String) → Exec (Option (List TaskMessage))
follow zero env scans atoi itoa req size token = pure none
follow (suc fuel) env scans atoi itoa req size token = do
  page ← list_tasks_handler env (scans fuel) atoi itoa (on_page req size token)
  rest ←
      (if page.next_page_token == ""
        then pure (some [])
        else follow fuel env scans atoi itoa req size page.next_page_token)
  pure (elim rest [ none ↦ none | some tasks ↦ some (page.tasks ++ tasks) ])

map-append :
    (xs ys : List TaskRow)
    → map row_to_proto (xs ++ ys) ≡ map row_to_proto xs ++ map row_to_proto ys
map-append [] ys = refl
map-append (x ∷ xs) ys = ap (λ r. row_to_proto x ∷ r) (map-append xs ys)

-- What strconv.Itoa writes of an offset is not empty, and strconv.Atoi reads it back.
pub record AreInverse (total : ℕ) (atoi : String → Option ℤ) (itoa : ℤ → String) : Type 0 where
  pub itoa_some : (n : ℕ) → n < total → (itoa (pos n) == "") ≡ false
  pub atoi-itoa : (n : ℕ) → n < total → atoi (itoa (pos n)) ≡ some (pos n)

module _ (env : Env) (scans : ℕ → Scan) (atoi : String → Option ℤ) (itoa : ℤ → String) (total : ℕ)
    (inverse : AreInverse total atoi itoa) (req : ListTasksRequest) (k : ℕ) (quiet : IsQuiet env)
    (small : suc k ≤ 100) (complete : (n : ℕ) → IsScan (scans n)) where
  abbrev rest_of : Db → ℕ → List TaskMessage
  rest_of db offset = map row_to_proto (drop offset (matching atoi req db))

  follow_from :
      (fuel offset : ℕ) (token : String) (s : Session)
      → offset_of atoi (some (record { page_size = pos (suc k); page_token = token })) ≡ pos offset
      → HaveDistinctTimes atoi req s.db
      → length (matching atoi req s.db) ≡ total
      → length (matching atoi req s.db) - offset < fuel
      → ((follow fuel env scans atoi itoa req (suc k) token s).0 ≡ ok (some (rest_of s.db offset)))
        × ((follow fuel env scans atoi itoa req (suc k) token s).1.db ≡ s.db)
  unfolding follow
  follow_from zero offset token s o distinct all_rows enough = absurd (omega (arith, enough))
  follow_from (suc fuel) offset token s o distinct all_rows enough =
      let rows = matching atoi req s.db in
      let (r, d) =
        handler_quiet env (scans fuel) atoi itoa req k offset token s quiet (complete fuel) distinct
          small o in
      let s₁ = (list_tasks_handler env (scans fuel) atoi itoa (on_page req (suc k) token) s).1 in
      elim (Bool-cases (ltb_ℤ (pos (offset + suc k)) (pos (length rows)))) [
        | inr last ↦
            let most : length rows ≤ offset + suc k = ground arith in
            let short : length (drop offset rows) ≤ suc k =
              omega (arith, length-drop offset rows, most) in
            let all =
              append-nil (map row_to_proto (take (suc k) (drop offset rows)))
              ∙ ap (map row_to_proto) (take_all (suc k) (drop offset rows) short) in
            rw r (rw last (ap (λ x. ok (some x)) all, d))
        | inl more ↦
            let left : offset + suc k < length rows = ground arith in
            let below : offset + suc k < total = omega (arith, left, all_rows) in
            let next : offset_of atoi (
                  some
                    (record { page_size = pos (suc k); page_token = itoa (pos (offset + suc k)) }))
                ≡ pos (offset + suc k) =
              rw (inverse.itoa_some (offset + suc k) below)
                (rw (inverse.atoi-itoa (offset + suc k) below) refl) in
            let fewer : length (matching atoi req s₁.db) - (offset + suc k) < fuel =
              rw d (omega (arith, left, enough)) in
            let (r', d') =
              follow_from fuel (offset + suc k) (itoa (pos (offset + suc k))) s₁ next
                (rw d distinct) (rw d all_rows) fewer in
            let split : map row_to_proto (take (suc k) (drop offset rows))
                  ++ rest_of s.db (offset + suc k)
                ≡ rest_of s.db offset =
              sym (map-append (take (suc k) (drop offset rows)) (drop (offset + suc k) rows))
              ∙ ap (λ ys. map row_to_proto (take (suc k) (drop offset rows) ++ ys))
                  (sym (drop-drop (suc k) offset rows))
              ∙ ap (map row_to_proto) (take-append-drop (suc k) (drop offset rows)) in
            let same = ap (λ db. rest_of db (offset + suc k)) d in
            rw r (
              rw more (
                rw (inverse.itoa_some (offset + suc k) below) (
                  rw r' (
                    ap (λ x. ok (some x))
                        (ap (λ ys. map row_to_proto (take (suc k) (drop offset rows)) ++ ys) same
                          ∙ split),
                    d' ∙ d,
                  ))))
      ]

-- Where every statement reaches the database, strconv.Atoi reads what Itoa writes of an offset, and no
-- two matching tasks were created at one time: following the tokens of ListTasks from the first page,
-- with pages of at most 100 tasks, ends within one answer more than there are matching tasks, and the
-- answers together are exactly the matching tasks, newest first, each once, in whatever order the
-- database comes to the rows each time.
pub list_tasks_complete :
    (env : Env) (scans : ℕ → Scan) (atoi : String → Option ℤ) (itoa : ℤ → String)
    (req : ListTasksRequest) (k : ℕ) (s : Session)
    → AreInverse (length (matching atoi req s.db)) atoi itoa
    → IsQuiet env
    → ((n : ℕ) → IsScan (scans n))
    → HaveDistinctTimes atoi req s.db
    → suc k ≤ 100
    → (follow (suc (length (matching atoi req s.db))) env scans atoi itoa req (suc k) "" s).0
      ≡ ok (some (map row_to_proto (matching atoi req s.db)))
list_tasks_complete env scans atoi itoa req k s inverse quiet complete distinct small =
    (follow_from env scans atoi itoa _ inverse req k quiet small complete
      (suc (length (matching atoi req s.db))) 0 "" s refl distinct refl (omega arith)).0
