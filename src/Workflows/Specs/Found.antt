-- ===== src/Workflows/Specs/Found.antt =====
-- Where the spec file of a workflow is found.
use tac_master.Shared.{
  String, Bool, true, false, ◌&&◌, ◌≡◌, refl, ap, ◌⊎◌, Option, none, some, List, [], ◌∷◌, ◌++◌, inl,
  inr, Bool-cases, Option-cases, any_row, select_rows,
}
use Prim.Native.String.{◌++◌ as concat}
use tac_master.Workflows.State.{AdwState, null, get}
use tac_master.Workflows.Classify.{strip_str}
use tac_master.Workflows.Branches.{split_lines, text_of}
use tac_master.Workflows.Specs.{
  begins_with, ends_with, path_join, first_of, in_worktree, spec_of_state, spec_of_diff,
  spec_of_branch, spec_pattern, issue_of_branch, find_spec_file,
}

abbrev is_spec_line : String → Bool
is_spec_line line = begins_with line "specs/" && ends_with line ".md"

-- A pattern below the worktree, or below the current directory where there is none.
abbrev expected_pattern : String → Option String → Option String → String → String
expected_pattern cwd none none n =
    path_join cwd (concat "specs/issue-" (concat n (concat "-adw-" (concat "None" "*.md"))))
expected_pattern cwd none (some id) n =
    path_join cwd (concat "specs/issue-" (concat n (concat "-adw-" (concat id "*.md"))))
expected_pattern cwd (some w) none n =
    path_join w (concat "specs/issue-" (concat n (concat "-adw-" (concat "None" "*.md"))))
expected_pattern cwd (some w) (some id) n =
    path_join w (concat "specs/issue-" (concat n (concat "-adw-" (concat id "*.md"))))

abbrev FirstSpec : List String → String → Type 0
FirstSpec lines line =
    (before after : List String) × (lines ≡ before ++ line ∷ after)
    × (any_row is_spec_line before ≡ false)
    × (is_spec_line line ≡ true)

first_of-FirstSpec :
    (lines : List String)
    → ((line : String) × (first_of (select_rows is_spec_line lines) ≡ some line)
        × FirstSpec lines line)
      ⊎ ((first_of (select_rows is_spec_line lines) ≡ none) × (any_row is_spec_line lines ≡ false))
unfolding select_rows any_row
first_of-FirstSpec [] = inr (refl, refl)
first_of-FirstSpec (l ∷ ls) = elim (Bool-cases (is_spec_line l)) [
  | inl e ↦ inl (l, rw e refl, ([], ls, refl, refl, e))
  | inr e ↦ elim (first_of-FirstSpec ls) [
    | inl (line, found, (before, after, same, unlike, is)) ↦
        inl (line, rw e found, (l ∷ before, after, ap (λ xs. l ∷ xs) same, rw e unlike, is))
    | inr (found, unlike) ↦ inr (rw e found, rw e unlike)
  ]
]

List-cases :
    (xs : List String) → ((x : String) × (rest : List String) × (xs ≡ x ∷ rest)) ⊎ (xs ≡ [])
List-cases [] = inr refl
List-cases (x ∷ rest) = inl (x, rest, refl)

pattern_lem :
    (cwd : String) (worktree adw_id : Option String) (n : String)
    → spec_pattern (elim worktree [ none ↦ cwd | some w ↦ w ]) n adw_id
      ≡ expected_pattern cwd worktree adw_id n
pattern_lem cwd none none n = refl
pattern_lem cwd none (some id) n = refl
pattern_lem cwd (some w) none n = refl
pattern_lem cwd (some w) (some id) n = refl

module _ (exists : String → Bool) (glob : String → List String) (cwd : String)
    (worktree plan diff adw_id branch : Option String) where
  -- The state names a file, and that exists.
  pub record OfState (f : String) : Type 0 where
    pub spec : String
    pub planned : plan ≡ some spec
    pub path : f ≡ in_worktree worktree spec
    pub there : exists f ≡ true

  abbrev pub NoState : Type 0
  NoState =
      (plan ≡ none)
      ⊎ ((spec : String) × (plan ≡ some spec) × (exists (in_worktree worktree spec) ≡ false))

  -- The first line of the diff that is a spec file.
  pub record OfDiff (f : String) : Type 0 where
    pub stdout : String
    pub before : List String
    pub line : String
    pub after : List String
    pub answered : diff ≡ some stdout
    pub lines : split_lines (strip_str stdout) ≡ before ++ line ∷ after
    pub first : any_row is_spec_line before ≡ false
    pub is_spec : is_spec_line line ≡ true
    pub path : f ≡ in_worktree worktree line

  abbrev pub NoDiff : Type 0
  NoDiff =
      (diff ≡ none)
      ⊎ ((stdout : String) × (diff ≡ some stdout)
          × (any_row is_spec_line (split_lines (strip_str stdout)) ≡ false))

  -- The first match of the pattern for the issue that the branch is named after.
  pub record OfBranch (f : String) : Type 0 where
    pub name : String
    pub issue : String
    pub others : List String
    pub named : branch ≡ some name
    pub numbered : issue_of_branch name ≡ some issue
    pub matches : glob (expected_pattern cwd worktree adw_id issue) ≡ f ∷ others

  abbrev pub NoBranch : Type 0
  NoBranch =
      (branch ≡ none)
      ⊎ ((name : String) × (branch ≡ some name) × (issue_of_branch name ≡ none))
      ⊎ ((name issue : String) × (branch ≡ some name)
          × (issue_of_branch name ≡ some issue)
          × (glob (expected_pattern cwd worktree adw_id issue) ≡ []))

  -- The three places in their order.
  pub data IsFound : Option String → Type 0 where
    of_state : (f : String) → OfState f → IsFound (some f)
    of_diff : (f : String) → NoState → OfDiff f → IsFound (some f)
    of_branch : (f : String) → NoState → NoDiff → OfBranch f → IsFound (some f)
    of_nothing : NoState → NoDiff → NoBranch → IsFound none

  abbrev At : Option String → (String → Type 0) → Type 0 → Type 0
  At found There Nowhere = ((f : String) × (found ≡ some f) × There f) ⊎ ((found ≡ none) × Nowhere)

  state-At : At (spec_of_state exists worktree plan) OfState NoState
  unfolding spec_of_state
  state-At = elim (Option-cases plan) [
    | inl p ↦ inr (rw p refl, inl p)
    | inr (spec, p) ↦ elim (Bool-cases (exists (in_worktree worktree spec))) [
      | inl e ↦ inl (
        in_worktree worktree spec,
        rw (p, e) refl,
        record { spec = spec; planned = p; path = refl; there = e },
      )
      | inr e ↦ inr (rw (p, e) refl, inr (spec, p, e))
    ]
  ]

  diff-At : At (spec_of_diff worktree diff) OfDiff NoDiff
  unfolding spec_of_diff
  diff-At = elim (Option-cases diff) [
    | inl d ↦ inr (rw d refl, inl d)
    | inr (stdout, d) ↦ elim (first_of-FirstSpec (split_lines (strip_str stdout))) [
      | inl (line, e, (before, after, same, unlike, is)) ↦ inl (
        in_worktree worktree line,
        rw (d, spec_of_diff, e) refl,
        record {
          stdout = stdout;
          before = before;
          line = line;
          after = after;
          answered = d;
          lines = same;
          first = unlike;
          is_spec = is;
          path = refl;
        },
      )
      | inr (e, unlike) ↦ inr (rw (d, spec_of_diff, e) refl, inr (stdout, d, unlike))
    ]
  ]

  branch-At : At (spec_of_branch glob cwd worktree adw_id branch) OfBranch NoBranch
  unfolding spec_of_branch
  branch-At = elim (Option-cases branch) [
    | inl b ↦ inr (rw b refl, inl b)
    | inr (name, b) ↦ elim (Option-cases (issue_of_branch name)) [
      | inl n ↦ inr (rw (b, spec_of_branch, n) refl, inr (inl (name, b, n)))
      | inr (issue, n) ↦ elim (List-cases (glob (expected_pattern cwd worktree adw_id issue))) [
        | inl (f, rest, m) ↦ inl (
          f,
          rw (b, spec_of_branch, n, pattern_lem cwd worktree adw_id issue, m) refl,
          record {
            name = name;
            issue = issue;
            others = rest;
            named = b;
            numbered = n;
            matches = m;
          },
        )
        | inr m ↦ inr (
          rw (b, spec_of_branch, n, pattern_lem cwd worktree adw_id issue, m) refl,
          inr (inr (name, issue, b, n, m)),
        )
      ]
    ]
  ]

-- The spec file is the one that the state names, where that exists; else the first line of the diff
-- that begins with `specs/` and ends in `.md`, in the worktree; else the first match, below the
-- worktree or the current directory, of the pattern made of the issue in the branch's name and the
-- workflow's id; and there is none exactly where none of the three is there.
pub find_spec_file-IsFound :
    (exists : String → Bool) (glob : String → List String) (cwd : String) (diff : Option String)
    (s : AdwState)
    → IsFound exists glob cwd
        (text_of (get "worktree_path" null s))
        (text_of (get "plan_file" null s))
        diff
        (text_of (get "adw_id" null s))
        (text_of (get "branch_name" null s))
        (find_spec_file exists glob cwd diff s)
unfolding find_spec_file
find_spec_file-IsFound exists glob cwd diff s =
    let worktree = text_of (get "worktree_path" null s) in
    let plan = text_of (get "plan_file" null s) in
    let adw_id = text_of (get "adw_id" null s) in
    let branch = text_of (get "branch_name" null s) in
    elim (state-At exists glob cwd worktree plan diff adw_id branch) [
      | inl (f, e, found) ↦ rw e (IsFound.of_state f found)
      | inr (e, no_state) ↦ elim (diff-At exists glob cwd worktree plan diff adw_id branch) [
        | inl (f, d, found) ↦ rw (e, d) (IsFound.of_diff f no_state found)
        | inr (d, no_diff) ↦ elim (branch-At exists glob cwd worktree plan diff adw_id branch) [
          | inl (f, b, found) ↦ rw (e, d, b) (IsFound.of_branch f no_state no_diff found)
          | inr (b, no_branch) ↦ rw (e, d, b) (IsFound.of_nothing no_state no_diff no_branch)
        ]
      ]
    ]
