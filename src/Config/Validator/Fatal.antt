-- ===== src/Config/Validator/Fatal.antt =====
-- When the configuration aborts the startup.
use tac_master.Shared.{
  Bool, true, false, not, ◌&&◌, ◌≡◌, refl, sym, subst, Option, none, some, List, [], ◌∷◌, ◌++◌, inl,
  inr, Bool-cases, Option-cases, if◌then◌else◌, string_eq, nat_eq, text_eq, any_row, Result, ok,
  err, external_error, String, ◌⊎◌,
}
use tac_master.Config.Validator.{
  Leaf, Item, Node, leaf, items, section, Document, unreadable, other, document, Warning, fatal,
  warning, not_a_list, no_entries, is_empty, field_warnings, is_int, is_items, value_of, is_true,
  append_all, repo_warnings, list_of, validate_repos_yaml, has_max_tokens, global_warnings,
  budget_warnings, repos_of, validate_budgets_yaml, validate_all, has_fatal,
}
use tac_master.Config.Validator.Usable.{
  is_some, usable_items, filled_items, usable_repos, usable_budgets, Says, Says-append_all,
  repo_warnings-Says, budget_warnings-Says,
}

field_warnings-Says :
    (name : String) (fits : Node → Bool) (v : Option Node)
    → Says (ok (field_warnings name fits v)) (is_some v)
unfolding has_fatal any_row
field_warnings-Says name fits none = refl
field_warnings-Says name fits (some v) = elim (Bool-cases (fits v)) [
  | inl e ↦ rw e refl
  | inr e ↦ rw e refl
]

and_last : (b c d : Bool) → (c ≡ true) ⊎ (d ≡ false) → (b && c) && d ≡ b && d
and_last true c d (inl e) = rw e refl
and_last true true d (inr e) = refl
and_last true false d (inr e) = sym e
and_last false c d h = refl

module _ (version repos : Option Node) where
  abbrev checked : List Warning
  checked = field_warnings "version" is_int version ++ field_warnings "repos" is_items repos

  checked-Says : Says (ok checked) (is_some version && is_some repos)
  checked-Says =
      Says-append_all (ok (field_warnings "version" is_int version))
        (ok (field_warnings "repos" is_items repos)) (is_some version) (is_some repos)
        (field_warnings-Says "version" is_int version) (field_warnings-Says "repos" is_items repos)

  with_checked :
      (r : Result (List Warning)) (b : Bool)
      → (is_some repos ≡ true) ⊎ (b ≡ false)
      → Says r b
      → Says (append_all (ok checked) r) (is_some version && b)
  with_checked r b kept h =
      subst (λ c. Says (append_all (ok checked) r) c)
        (and_last (is_some version) (is_some repos) b kept)
        (Says-append_all (ok checked) r (is_some version && is_some repos) b checked-Says h)

abbrev repos_result : Option Node → Option Node → Result (List Warning)
repos_result version repos = elim (list_of repos) [
  | none ↦ ok (checked version repos ++ fatal not_a_list ∷ [])
  | some [] ↦ ok (checked version repos ++ warning no_entries ∷ [])
  | some (item ∷ more) ↦ append_all (ok (checked version repos)) (repo_warnings 0 (item ∷ more))
]

repos_result-Says :
    (version repos : Option Node)
    → Says
        (repos_result version repos)
        (is_some version && elim (list_of repos) [ none ↦ false | some xs ↦ usable_items xs ])
unfolding has_fatal any_row usable_items
repos_result-Says version none =
    with_checked version none (ok (fatal not_a_list ∷ [])) false (inr refl) refl
repos_result-Says version (some (leaf v)) =
    with_checked version (some (leaf v)) (ok (fatal not_a_list ∷ [])) false (inr refl) refl
repos_result-Says version (some (section e)) =
    with_checked version (some (section e)) (ok (fatal not_a_list ∷ [])) false (inr refl) refl
repos_result-Says version (some (items [])) =
    with_checked version (some (items [])) (ok (warning no_entries ∷ [])) true (inl refl) refl
repos_result-Says version (some (items (item ∷ more))) =
    with_checked version (some (items (item ∷ more))) (repo_warnings 0 (item ∷ more))
      (usable_items (item ∷ more)) (inl refl) (repo_warnings-Says 0 (item ∷ more))

no_mapping-Says :
    (v : Leaf) → Says (if is_true v then err external_error else ok (fatal is_empty ∷ [])) false
unfolding has_fatal any_row
no_mapping-Says v = elim (Bool-cases (is_true v)) [ inl e ↦ rw e tt | inr e ↦ rw e refl ]

validate_repos_yaml-Says : (doc : Document) → Says (validate_repos_yaml doc) (usable_repos doc)
unfolding validate_repos_yaml usable_repos has_fatal any_row value_of
validate_repos_yaml-Says unreadable = refl
validate_repos_yaml-Says (other v) = no_mapping-Says v
validate_repos_yaml-Says (document []) = refl
validate_repos_yaml-Says (document (first ∷ rest)) =
    repos_result-Says (value_of "version" (first ∷ rest)) (value_of "repos" (first ∷ rest))

global_warnings-Says :
    (node : Option Node)
    → Says (global_warnings node) (elim node [
      | none ↦ false
      | some n ↦ elim (has_max_tokens n) [ none ↦ false | some b ↦ b ]
    ])
unfolding global_warnings has_fatal any_row
global_warnings-Says none = refl
global_warnings-Says (some n) = elim (Option-cases (has_max_tokens n)) [
  | inl e ↦ rw (global_warnings, e) tt
  | inr (b, e) ↦ elim (Bool-cases b) [
    | inl y ↦ rw (global_warnings, e, y) refl
    | inr m ↦ rw (global_warnings, e, m) refl
  ]
]

listed-Says :
    (xs : Result (List Item))
    → Says
        (elim xs [ err e ↦ err e | ok ys ↦ budget_warnings 0 ys ])
        (elim xs [ err e ↦ false | ok ys ↦ filled_items ys ])
listed-Says (ok xs) = budget_warnings-Says 0 xs
listed-Says (err e) = tt

validate_budgets_yaml-Says :
    (doc : Document) → Says (validate_budgets_yaml doc) (usable_budgets doc)
unfolding validate_budgets_yaml usable_budgets has_fatal any_row value_of
validate_budgets_yaml-Says unreadable = refl
validate_budgets_yaml-Says (other v) = no_mapping-Says v
validate_budgets_yaml-Says (document []) = refl
validate_budgets_yaml-Says (document (first ∷ rest)) =
    Says-append_all (global_warnings (value_of "global" (first ∷ rest)))
      (elim (repos_of (value_of "repos" (first ∷ rest))) [
        | err e ↦ err e
        | ok xs ↦ budget_warnings 0 xs
      ])
      (elim (value_of "global" (first ∷ rest)) [
        | none ↦ false
        | some n ↦ elim (has_max_tokens n) [ none ↦ false | some b ↦ b ]
      ])
      (elim (repos_of (value_of "repos" (first ∷ rest))) [
        | err e ↦ false
        | ok xs ↦ filled_items xs
      ])
      (global_warnings-Says (value_of "global" (first ∷ rest)))
      (listed-Says (repos_of (value_of "repos" (first ∷ rest))))

-- Checks that do not raise have a fatal warning exactly when one of the files is not usable:
-- repos.yaml without a version or a list that names each of its repositories, or budgets.yaml without
-- the global cap on tokens or with a placeholder among its repositories.
pub validate_all-fatal :
    (repos budgets : Document) (ws : List Warning)
    → validate_all repos budgets ≡ ok ws
    → has_fatal ws ≡ not (usable_repos repos && usable_budgets budgets)
unfolding validate_all
validate_all-fatal repos budgets ws done =
    subst (λ r. Says r (usable_repos repos && usable_budgets budgets)) done
      (Says-append_all (validate_repos_yaml repos) (validate_budgets_yaml budgets)
        (usable_repos repos) (usable_budgets budgets) (validate_repos_yaml-Says repos)
        (validate_budgets_yaml-Says budgets))
