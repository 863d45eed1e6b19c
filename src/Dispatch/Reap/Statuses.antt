-- ===== src/Dispatch/Reap/Statuses.antt =====
-- The statuses in the table of runs under an update, and under the choice of the active ones.
use tac_master.Shared.{
  String, Bool, false, ◌≡◌, refl, sym, Option, none, some, List, [], ◌∷◌, arith, if◌then◌else◌,
  ◌==◌, string_eq, nat_eq, eq_iff, find_row, any_row, update_rows, select_rows, find-update,
  find-eq_some, find-none_of_any, Option-cases, Bool-cases, inl, inr, Unique,
}
use tac_master.Store.{Store, RunRow, RunStatus, is_run}
use tac_master.Store.Runs.{same_run}
use tac_master.Tokens.Frame.{IsTokensOnly}
use tac_master.Dispatch.Reap.Status.{status_in}

-- The new status for a row that is there.
abbrev pub after : {A B : Type 0} → (A → B) → Option A → Option B → Option B
after f none old = old
after f (some end) none = none
after f (some end) (some _) = some (f end)

pub status-update :
    (adw_id key : String) (f : RunRow → RunRow) (rows : List RunRow) (end : Option RunStatus)
    → ((r : RunRow) → (f r).adw_id ≡ r.adw_id)
    → ((r : RunRow) → some (f r).status ≡ after (λ x. x) end (some r.status))
    → status_in (find_row (is_run adw_id) (update_rows (is_run key) f rows)) ≡ (
        if key == adw_id
        then after (λ x. x) end (status_in (find_row (is_run adw_id) rows))
        else status_in (find_row (is_run adw_id) rows))
status-update adw_id key f rows end id stat = elim (Option-cases (find_row (is_run adw_id) rows)) [
  | inl e ↦
      rw (find-update (is_run adw_id) (is_run key) f (λ r. rw (id r) refl) rows, e)
        (elim end [ none ↦ ground arith | some x ↦ ground arith ])
  | inr (r, e) ↦
      rw (find-update (is_run adw_id) (is_run key) f (λ r. rw (id r) refl) rows, e)
        (ground (
          arith,
          stat r,
          eq_iff r.adw_id key,
          eq_iff key adw_id,
          eq_iff r.adw_id adw_id,
          find-eq_some (is_run adw_id) rows r e,
        ))
]

pub tokens-status :
    (key : String) (s t : Store) (adw_id : String)
    → IsTokensOnly key s t
    → status_in (find_row (is_run adw_id) t.runs) ≡ status_in (find_row (is_run adw_id) s.runs)
tokens-status key s t adw_id h = elim h.runs [
  | inl e ↦ rw e refl
  | inr (n, e) ↦
      rw
        (
          e,
          status-update adw_id key (λ (r : RunRow). record r { tokens_used = n }) s.runs none
              (λ (r : RunRow). refl) (λ (r : RunRow). refl),
        )
        (ground arith)
]

any-select :
    (p q : RunRow → Bool) (rows : List RunRow)
    → any_row p rows ≡ false
    → any_row p (select_rows q rows) ≡ false
unfolding any_row select_rows
any-select p q [] h = refl
any-select p q (r ∷ rows) h = ground (arith, any-select p q rows)

pub Unique-select :
    (q : RunRow → Bool) (rows : List RunRow)
    → Unique same_run rows
    → Unique same_run (select_rows q rows)
unfolding select_rows
Unique-select q [] u = tt
Unique-select q (r ∷ rows) u = elim (Bool-cases (q r)) [
  | inl e ↦ rw e (any-select (same_run r) q rows u.0, Unique-select q rows u.1)
  | inr e ↦ rw e (Unique-select q rows u.1)
]

pub find-select :
    (adw_id : String) (q : RunRow → Bool) (rows : List RunRow)
    → Unique same_run rows
    → find_row (is_run adw_id) (select_rows q rows)
      ≡ elim (find_row (is_run adw_id) rows) [ none ↦ none | some r ↦ if q r then some r else none ]
unfolding select_rows find_row
find-select adw_id q [] u = refl
find-select adw_id q (r ∷ rows) u = elim (Bool-cases (r.adw_id == adw_id)) [
  | inl e ↦
      let same : adw_id ≡ r.adw_id = sym ((eq_iff r.adw_id adw_id).0 e) in
      ground (
        arith,
        e,
        find-none_of_any (is_run adw_id) (select_rows q rows)
            (rw same (any-select (same_run r) q rows u.0)),
      )
  | inr e ↦ ground (arith, e, find-select adw_id q rows u.1)
]
