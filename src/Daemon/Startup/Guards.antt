-- ===== src/Daemon/Startup/Guards.antt =====
-- What a start needs before it touches the database, and what --doctor does to it.
use tac_master.Shared.{
  ℕ, String, Bool, true, false, not, ◌&&◌, Option, none, some, List, [], ◌∷◌, ◌≡◌, refl, ap, ◌∙◌,
  sym, subst, str_eq_self, ◌⊎◌, inl, inr, Bool-cases, Option-cases, ok, Result, arith, any_row,
  any-append, ◌==◌, string_eq,
}
use tac_master.Orchestrator.Tables.{limit}
use tac_master.Orchestrator.Tables.Limits.{In}
use tac_master.Config.{RepoConfig, BudgetsConfig}
use tac_master.Config.Validator.{Document, Warning, validate_all, has_fatal}
use tac_master.Config.Validator.Usable.{usable_repos, usable_budgets}
use tac_master.Config.Validator.Fatal.{validate_all-fatal}
use tac_master.Tokens.{Prices}
use tac_master.Daemon.{World}
use tac_master.Daemon.Startup.{
  Args, Checks, Database, Openings, has_table, create_table, create_tables, open_part, open_parts,
  required_tables, store_tables, knowledge_tables, tracker_tables, cmd_doctor, main,
}

-- Every table of the first list is in the second.
abbrev pub AllThere : List String → List String → Type 0
AllThere before after = (name : String) → has_table name before ≡ true → has_table name after ≡ true

create_table-AllThere :
    (name : String) (tables : List String) → AllThere tables (create_table name tables)
unfolding create_table
create_table-AllThere name tables other h = elim (Bool-cases (has_table name tables)) [
  | inl e ↦ rw e h
  | inr e ↦ rw e (ground (arith, h, any-append (λ t. t == other) tables (name ∷ [])))
]

create_tables-AllThere : (names tables : List String) → AllThere tables (create_tables names tables)
unfolding create_tables
create_tables-AllThere [] tables other h = h
create_tables-AllThere (name ∷ names) tables other h =
    create_tables-AllThere names (create_table name tables) other
      (create_table-AllThere name tables other h)

open_part-AllThere :
    (names : List String) (raises : Option ℕ) (tables : List String)
    → AllThere tables (open_part names raises tables).1
unfolding open_part
open_part-AllThere names none tables = create_tables-AllThere names tables
open_part-AllThere names (some n) tables = create_tables-AllThere (limit n names) tables

open_parts-AllThere :
    (o : Openings) (built : Bool) (tables : List String)
    → AllThere tables (open_parts o built tables).1
unfolding open_parts
open_parts-AllThere o built tables name h =
    let store = open_part store_tables o.state_store tables in
    let knowledge = open_part knowledge_tables o.knowledge_base store.1 in
    let one = open_part-AllThere store_tables o.state_store tables name h in
    let two = open_part-AllThere knowledge_tables o.knowledge_base store.1 name one in
    let three = open_part-AllThere tracker_tables o.token_tracker knowledge.1 name two in
    elim (Bool-cases store.0) [
      | inr e ↦ rw e one
      | inl e ↦ elim (Bool-cases knowledge.0) [
        | inr k ↦ rw (e, k) two
        | inl k ↦ elim (Bool-cases built) [ inl b ↦ rw (e, k, b) three | inr b ↦ rw (e, k, b) two ]
      ]
    ]

create_table-there :
    (name : String) (tables : List String) → has_table name (create_table name tables) ≡ true
unfolding create_table any_row
create_table-there name tables = elim (Bool-cases (has_table name tables)) [
  | inl e ↦ rw e e
  | inr e ↦ rw e (ground (arith, any-append (λ t. t == name) tables (name ∷ []), str_eq_self name))
]

create_tables-there :
    (name : String) (names tables : List String)
    → In name names
    → has_table name (create_tables names tables) ≡ true
unfolding create_tables
create_tables-there name [] tables i = absurd i
create_tables-there name (n ∷ names) tables (inl e) =
    create_tables-AllThere names (create_table n tables) name (
      subst (λ m. has_table m (create_table n tables) ≡ true) (sym e) (create_table-there n tables))
create_tables-there name (n ∷ names) tables (inr i) =
    create_tables-there name names (create_table n tables) i

-- Each of the required tables is one of a schema.
required-In :
    (name : String)
    → In name required_tables
    → In name store_tables ⊎ In name knowledge_tables ⊎ In name tracker_tables
required-In name (inl e) = inl (inl e)
required-In name (inr (inl e)) = inl (inr (inl e))
required-In name (inr (inr (inl e))) = inl (inr (inr (inl e)))
required-In name (inr (inr (inr (inl e)))) = inl (inr (inr (inr (inl e))))
required-In name (inr (inr (inr (inr (inl e))))) = inl (inr (inr (inr (inr (inl e)))))
required-In name (inr (inr (inr (inr (inr (inl e)))))) = inl (inr (inr (inr (inr (inr (inl e))))))
required-In name (inr (inr (inr (inr (inr (inr (inl e))))))) = inr (inr (inl e))
required-In name (inr (inr (inr (inr (inr (inr (inr (inl e)))))))) = inr (inl (inl e))
required-In name (inr (inr (inr (inr (inr (inr (inr (inr i)))))))) = absurd i

-- No part raises while it is opened.
pub record AllOpen (o : Openings) : Type 0 where
  pub state_store : o.state_store ≡ none
  pub knowledge_base : o.knowledge_base ≡ none
  pub token_tracker : o.token_tracker ≡ none

open_parts-all :
    (o : Openings) (tables : List String)
    → AllOpen o
    → open_parts o true tables ≡ (
      true,
      create_tables tracker_tables
          (create_tables knowledge_tables (create_tables store_tables tables)),
    )
unfolding open_parts open_part
open_parts-all o tables opens =
    rw (open_parts, opens.state_store, opens.knowledge_base, opens.token_tracker) refl

all-required :
    (tables : List String) (name : String)
    → In name required_tables
    → has_table name (
        create_tables tracker_tables
          (create_tables knowledge_tables (create_tables store_tables tables)))
      ≡ true
all-required tables name i =
    let store = create_tables store_tables tables in
    let knowledge = create_tables knowledge_tables store in
    elim (required-In name i) [
      | inl s ↦ create_tables-AllThere tracker_tables knowledge name (
          create_tables-AllThere knowledge_tables store name
            (create_tables-there name store_tables tables s))
      | inr (inl k) ↦
          create_tables-AllThere tracker_tables knowledge name
            (create_tables-there name knowledge_tables store k)
      | inr (inr t) ↦ create_tables-there name tracker_tables knowledge t
    ]

-- Some part raises while it is opened.
abbrev pub Raises : Openings → Type 0
Raises o =
    ((n : ℕ) × (o.state_store ≡ some n))
    ⊎ ((n : ℕ) × (o.knowledge_base ≡ some n))
    ⊎ ((n : ℕ) × (o.token_tracker ≡ some n))

AllOpen-cases : (o : Openings) → AllOpen o ⊎ Raises o
AllOpen-cases o = elim (Option-cases o.state_store) [
  | inr a ↦ inr (inl a)
  | inl a ↦ elim (Option-cases o.knowledge_base) [
    | inr b ↦ inr (inr (inl b))
    | inl b ↦ elim (Option-cases o.token_tracker) [
      | inr c ↦ inr (inr (inr c))
      | inl c ↦ inl (record { state_store = a; knowledge_base = b; token_tracker = c })
    ]
  ]
]

-- What --doctor leaves: the rows as they were, every table that was there, and each of the required
-- tables unless a part raises.
pub record IsExamined (o : Openings) (d t : Database) : Type 0 where
  pub rows : t.store ≡ d.store
  pub kept : AllThere d.tables t.tables
  pub complete :
      Raises o ⊎ ((name : String) → In name required_tables → has_table name t.tables ≡ true)

cmd_doctor-IsExamined :
    (checks : Checks) (o : Openings) (d : Database) → IsExamined o d (cmd_doctor checks o d).1
unfolding cmd_doctor
cmd_doctor-IsExamined checks o d = record {
  rows = refl;
  kept = open_parts-AllThere o true d.tables;
  complete = elim (AllOpen-cases o) [
    | inr raises ↦ inl raises
    | inl opens ↦
        inr (λ name i. rw (open_parts-all o d.tables opens) (all-required d.tables name i))
  ];
}

-- How a start ends that does not get as far as serving: the database, and what is returned with it.
pub data IsGuarded (loads usable : Bool) (o : Openings) (d : Database)
    : Result ℕ × Database → Type 0 where
  not_loaded : loads ≡ false → IsGuarded loads usable o d (ok 2, d)
  aborted : loads ≡ true → usable ≡ false → IsGuarded loads usable o d (ok 3, d)
  examined :
      (problems : ℕ) (t : Database)
      → loads ≡ true
      → usable ≡ true
      → IsExamined o d t
      → IsGuarded loads usable o d (ok problems, t)

-- A start whose checks do not raise and that finds a configuration that does not load or a file that
-- is not usable, or is given --doctor, serves nothing: without a configuration it ends with the exit
-- code 2, with a file that is not usable with 3, both leaving the database as it was; and --doctor
-- leaves all rows and tables, with the required tables there unless a part raises while it opens.
pub main-IsGuarded :
    (day : String) (cfg : BudgetsConfig) (repos : List RepoConfig) (prices : Prices) (args : Args)
    (loads : Bool) (repos_yaml budgets_yaml : Document) (checks : Checks) (o : Openings)
    (built : Bool) (w : World) (ws : List World) (d : Database) (warnings : List Warning)
    → validate_all repos_yaml budgets_yaml ≡ ok warnings
    → (loads && (usable_repos repos_yaml && usable_budgets budgets_yaml) ≡ false)
      ⊎ (args.doctor ≡ true)
    → IsGuarded loads
        (usable_repos repos_yaml && usable_budgets budgets_yaml)
        o
        d
        (main day cfg repos prices args loads repos_yaml budgets_yaml checks o built w ws d)
unfolding main
main-IsGuarded day cfg repos prices args loads repos_yaml budgets_yaml checks o built w ws d
      warnings valid guard =
    elim (Bool-cases loads) [
      | inr n ↦ rw n (IsGuarded.not_loaded refl)
      | inl h ↦ elim (Bool-cases (usable_repos repos_yaml && usable_budgets budgets_yaml)) [
        | inr bad ↦ rw (main, h, valid, fatal ∙ ap not bad, bad) (IsGuarded.aborted refl refl)
        | inl good ↦
            rw (main, h, valid, fatal ∙ ap not good, needs_doctor guard h good, good)
              (IsGuarded.examined (cmd_doctor checks o d).0 (cmd_doctor checks o d).1 refl refl
                (cmd_doctor-IsExamined checks o d))
      ]
    ]
  where
    fatal : has_fatal warnings ≡ not (usable_repos repos_yaml && usable_budgets budgets_yaml)
    fatal = validate_all-fatal repos_yaml budgets_yaml warnings valid

    needs_doctor :
        (loads && (usable_repos repos_yaml && usable_budgets budgets_yaml) ≡ false)
          ⊎ (args.doctor ≡ true)
        → loads ≡ true
        → usable_repos repos_yaml && usable_budgets budgets_yaml ≡ true
        → args.doctor ≡ true
    needs_doctor (inl e) h good = absurd (ground (arith, e, h, good))
    needs_doctor (inr d) h good = d
