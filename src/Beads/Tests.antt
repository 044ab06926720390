-- ===== src/Beads/Tests.antt =====
-- beads/store.py on three issues, one of which has an id of another form.
use proto_trader.Prelude.{
  ◌≡◌, refl, codes, text_eq, strip, lower, starts_with, show, read_onto, true, none, some, List, [],
  ◌∷◌,
}
use proto_trader.Tags.{starts_ci}
use proto_trader.Beads.{
  Issue, closed, in_progress, task, NewIssue, new_issue, Fields, title_required, id_required,
  unknown_issue, issue, deleted, norm_status, norm_type, id_number, numbers, next_id, get, create,
  list, set_rows, change, update, close, delete, creates, after_op,
}
use proto_trader.Beads.Refine.{Promises, after_op-Promises}

abbrev sample : NewIssue
sample = record {
  title = codes " fix it ";
  description = [];
  priority = none;
  issue_type = codes "Bug";
  assignee = codes "ann";
}

abbrev kept : Issue
kept = record (new_issue (codes "bd-7") sample 3) { status = closed }

abbrev table : List Issue
table =
    kept
    ∷ record (new_issue (codes "BD-9") sample 2) { title = codes "old" }
    ∷ new_issue (codes "bd-x") sample 1
    ∷ []

abbrev no_fields : Fields
no_fields = record {
  title = none;
  description = none;
  status = none;
  priority = none;
  assignee = none;
  type = none;
  issue_type = none;
}

program : Unit {0}
unfolding norm_status norm_type id_number numbers next_id get create list set_rows change update
    close delete show read_onto strip lower text_eq starts_with starts_ci
program = tt

create_runs :
    ((create sample 5 table).1 ≡ issue (new_issue (codes "bd-10") sample 5))
    × ((create (record sample { title = codes "  " }) 5 table).1 ≡ title_required)
    × ((create sample 5 []).1 ≡ issue (new_issue (codes "bd-1") sample 5))
unfolding program
create_runs = (refl, refl, refl)

update_runs :
    (get
        (codes "bd-7")
        (update
          (codes "bd-7")
          (record no_fields {
            status = some (codes " In_Progress");
            type = some (some (codes "nonsense"));
          })
          8
          table).0
      ≡ some (record kept { status = in_progress; issue_type = task; updated_at = 8 }))
    × ((update [] no_fields 8 table).1 ≡ id_required)
    × ((close (codes "bd-8") [] 8 table).1 ≡ unknown_issue (codes "bd-8"))
    × ((delete (codes "bd-x") table).1 ≡ deleted true)
unfolding program
update_runs = (refl, refl, refl, refl)

after_op-Promises_example :
    Promises
      (creates sample 5)
      (λ k. get k table)
      (λ k. get k (after_op (creates sample 5) table).0)
      (after_op (creates sample 5) table).1
after_op-Promises_example = after_op-Promises (creates sample 5) table
