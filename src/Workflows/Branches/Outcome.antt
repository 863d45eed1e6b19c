-- ===== src/Workflows/Branches/Outcome.antt =====
-- How the search for a branch ends.
use tac_master.Shared.{
  String, false, ◌≡◌, refl, sym, ap, ◌∙◌, Option, none, some, List, [], ◌∷◌, inl, inr, Bool-cases,
  Option-cases, ◌==◌, string_eq, eq_iff, arith, ok, err, any_row, subst, codes,
}
use tac_master.Tokens.{occurs}
use tac_master.Workflows.Retry.{AgentPromptResponse}
use tac_master.Workflows.Classify.{classify_issue, generate_branch_name}
use tac_master.Workflows.State.{
  Value, null, flag, number, text, texts, fraction, AdwState, get, get_key, set_key, field, update,
}
use tac_master.Workflows.State.Reload.{get_key-set_key}
use tac_master.Workflows.Branches.{
  Git, Workspace, BranchResult, create_branch, use_branch, use_existing, use_new,
  classify_and_create, create_or_find_branch, find_existing_branch_for_issue, text_of, set_text,
}

abbrev branch_name : Workspace → Value
branch_name w = get "branch_name" null w.state

-- A branch that is returned is checked out and is the state's. With an error or a raise the branch
-- that was checked out is so still, and the state has the branch that it had.
abbrev pub Lands : Workspace → BranchResult → Type 0
Lands w (ok (branch, none), after) =
    (after.current ≡ branch) × (get "branch_name" null after.state ≡ text branch)
Lands w (ok (branch, some error), after) =
    (branch ≡ "")
    × (after.current ≡ w.current)
    × (get "branch_name" null after.state ≡ get "branch_name" null w.state)
Lands w (err e, after) =
    (after.current ≡ w.current)
    × (get "branch_name" null after.state ≡ get "branch_name" null w.state)

get-branch_name :
    (branch : String) (s : AdwState)
    → get "branch_name" null (set_text "branch_name" branch s) ≡ text branch
unfolding get field update any_row
get-branch_name branch s = rw (get_key-set_key "branch_name" (text branch) s.values) refl

get_key-set_other :
    {A : Type 0} (key other : String) (value : A) (entries : List (String × A))
    → (other == key) ≡ false
    → get_key key (set_key other value entries) ≡ get_key key entries
unfolding get_key set_key
get_key-set_other key other value [] h = rw h refl
get_key-set_other key other value ((k, v) ∷ rest) h = elim (Bool-cases (k == other)) [
  | inl e ↦ rw (e, h, subst (λ x. (x == key) ≡ false) (sym ((eq_iff k other).0 e)) h) refl
  | inr e ↦ rw e (ground (arith, get_key-set_other key other value rest h))
]

get-issue_class :
    (value : Value) (s : AdwState)
    → get "branch_name" null (update (("issue_class", value) ∷ []) s) ≡ get "branch_name" null s
unfolding get field update any_row
get-issue_class value s =
    rw (get_key-set_other "branch_name" "issue_class" value s.values refl) refl

text_of-some : (v : Value) (s : String) → text_of v ≡ some s → v ≡ text s
text_of-some (text t) s h = elim (Bool-cases (t == "")) [
  | inl e ↦ absurd (ground (arith, e, h))
  | inr e ↦ ap text (ground (arith, e, h))
]
text_of-some null s h = absurd (ground (arith, h))
text_of-some (flag b) s h = absurd (ground (arith, h))
text_of-some (number n) s h = absurd (ground (arith, h))
text_of-some (texts ts) s h = absurd (ground (arith, h))
text_of-some (fraction n) s h = absurd (ground (arith, h))

use_branch-Lands :
    (git : Git) (branch : String) (w : Workspace)
    → branch_name w ≡ text branch
    → Lands w (use_branch git branch w)
unfolding use_branch
use_branch-Lands git branch w named = elim (Bool-cases (w.current == branch)) [
  | inl e ↦ rw e ((eq_iff w.current branch).0 e, named)
  | inr e ↦ elim (Option-cases (git.checkout branch)) [
    | inl o ↦ rw (e, o) (refl, named)
    | inr (x, o) ↦ elim (Option-cases (git.checkout_remote branch)) [
      | inl r ↦ rw (e, o, r) (refl, named)
      | inr (y, r) ↦ rw (e, o, r) (refl, refl, refl)
    ]
  ]
]

use_existing-Lands :
    (git : Git) (branch : String) (w : Workspace) → Lands w (use_existing git branch w)
unfolding use_existing
use_existing-Lands git branch w = elim (Option-cases (git.checkout branch)) [
  | inl o ↦ rw (use_existing, o) (refl, get-branch_name branch w.state)
  | inr (x, o) ↦ rw (use_existing, o) (refl, refl, refl)
]

-- A new branch is checked out, or nothing is.
create_branch-current :
    (git : Git) (branch : String) (w : Workspace)
    → ((create_branch git branch w).1.state ≡ w.state)
      × ((create_branch git branch w).1.current
          ≡ elim (create_branch git branch w).0 [ none ↦ branch | some e ↦ w.current ])
unfolding create_branch
create_branch-current git branch w = elim (Option-cases (git.checkout_new branch)) [
  | inl o ↦ rw (create_branch, o) (refl, refl)
  | inr (x, o) ↦ elim (Bool-cases (occurs (codes "already exists") (codes x))) [
    | inr e ↦ rw (create_branch, o, e) (refl, refl)
    | inl e ↦ elim (Option-cases (git.checkout branch)) [
      | inl p ↦ rw (create_branch, o, e, p) (refl, refl)
      | inr (y, p) ↦ rw (create_branch, o, e, p) (refl, refl)
    ]
  ]
]

use_new-Lands :
    (git : Git) (generated : Option String × Option String) (w : Workspace)
    → Lands w (use_new git generated w)
unfolding use_new
use_new-Lands git (name, some error) w = elim (Bool-cases (error == "")) [
  | inl e ↦ rw e (refl, refl)
  | inr e ↦ rw e (refl, refl, refl)
]
use_new-Lands git (none, none) w = (refl, refl)
use_new-Lands git (some name, none) w =
    let (same, current) = create_branch-current git name w in
    elim (Option-cases (create_branch git name w).0) [
      | inl e ↦
          rw (use_new, e)
            (
              current ∙ ap (λ o. elim o [ none ↦ name | some x ↦ w.current ]) e,
              get-branch_name name (create_branch git name w).1.state,
            )
      | inr (x, e) ↦
          rw (use_new, e)
            (
              refl,
              current ∙ ap (λ o. elim o [ none ↦ name | some y ↦ w.current ]) e,
              ap (get "branch_name" null) same,
            )
    ]

-- The field that step 3 writes first is not the branch's name.
Lands-after :
    (w v : Workspace) (r : BranchResult)
    → v.current ≡ w.current
    → branch_name v ≡ branch_name w
    → Lands v r
    → Lands w r
Lands-after w v (ok (branch, none), after) c n h = h
Lands-after w v (ok (branch, some error), after) c n h = (h.0, h.1 ∙ c, h.2 ∙ n)
Lands-after w v (err e, after) c n h = (h.0 ∙ c, h.1 ∙ n)

classify_and_create-Lands :
    (git : Git) (classified generated : AgentPromptResponse) (w : Workspace)
    → Lands w (classify_and_create git classified generated w)
unfolding classify_and_create
classify_and_create-Lands git classified generated w =
    elim (Option-cases (classify_issue classified).1) [
      | inr (error, e) ↦ elim (Bool-cases (error == "")) [
        | inl y ↦ rw (classify_and_create, e, y) (refl, get-issue_class null w.state)
        | inr n ↦ rw (classify_and_create, e, n) (refl, refl, refl)
      ]
      | inl e ↦ elim (Option-cases (classify_issue classified).0) [
        | inl c ↦ rw (classify_and_create, e, c) (refl, refl)
        | inr (command, c) ↦
            let v : Workspace = record w { state = set_text "issue_class" command w.state } in
            rw (classify_and_create, e, c)
              (Lands-after w v (use_new git (generate_branch_name generated) v) refl
                (get-issue_class (text command) w.state)
                (use_new-Lands git (generate_branch_name generated) v))
      ]
    ]

-- However the search for a branch ends: a branch that is returned without an error is checked out
-- and is the state's branch; with an error or a raise, the branch that was checked out is so still,
-- and the state has the branch that it had.
pub create_or_find_branch-Lands :
    (git : Git) (classified generated : AgentPromptResponse) (issue_number : String) (w : Workspace)
    → Lands w (create_or_find_branch git classified generated issue_number w)
unfolding create_or_find_branch
create_or_find_branch-Lands git classified generated issue_number w =
    elim (Option-cases (text_of (branch_name w))) [
      | inr (branch, e) ↦
          rw (create_or_find_branch, e)
            (use_branch-Lands git branch w (text_of-some (branch_name w) branch e))
      | inl e ↦
          elim (Option-cases (
            find_existing_branch_for_issue issue_number (text_of (get "adw_id" null w.state))
              git.branches)) [
                | inl f ↦
                    rw (create_or_find_branch, e, f)
                      (classify_and_create-Lands git classified generated w)
                | inr (branch, f) ↦ elim (Bool-cases (branch == "")) [
                  | inl y ↦
                      rw (create_or_find_branch, e, f, y)
                        (classify_and_create-Lands git classified generated w)
                  | inr n ↦ rw (create_or_find_branch, e, f, n) (use_existing-Lands git branch w)
                ]
              ]
    ]
