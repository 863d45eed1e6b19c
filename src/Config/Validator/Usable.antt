-- ===== src/Config/Validator/Usable.antt =====
-- Which configuration is usable, and what the loops of the checks say of it.
use tac_master.Shared.{
  ℕ, suc, Bool, true, false, not, ◌&&◌, ◌≡◌, refl, subst, Option, none, some, List, [], ◌∷◌, inl,
  inr, Bool-cases, Option-cases, if◌then◌else◌, ◌==◌, string_eq, nat_eq, text_eq, any_row,
  any-append, Result, ok, err,
}
use tac_master.Config.Validator.{
  Leaf, null, flag, number, text, collection, Entry, Item, scalar, mapping, Document, unreadable,
  other, document, Warning, fatal, warning, missing_url, not_a_mapping, value_of, is_true, or_empty,
  has_placeholder, placeholder_warning, workflow_warning, known_workflows, append_all,
  entry_warnings, repo_warnings, list_of, has_max_tokens, budget_warnings, repos_of, is_fatal,
  has_fatal,
}

-- A url that is searched and holds no placeholder.
unfoldable pub is_filled : Leaf → Bool
is_filled url = elim (has_placeholder url) [ none ↦ false | some b ↦ not b ]

abbrev pub url_of : Entry → Leaf
url_of entry = or_empty (value_of "url" entry)

-- Every mapping of repos.yaml's list names a repository.
unfoldable pub usable_items : List Item → Bool
unfolding is_filled
usable_items [] = true
usable_items (scalar v ∷ rest) = usable_items rest
usable_items (mapping entry ∷ rest) =
    (is_true (url_of entry) && is_filled (url_of entry)) && usable_items rest

-- No url of budgets.yaml holds the placeholder.
unfoldable pub filled_items : List Item → Bool
unfolding is_filled
filled_items [] = true
filled_items (scalar v ∷ rest) = filled_items rest
filled_items (mapping entry ∷ rest) = is_filled (url_of entry) && filled_items rest

abbrev pub is_some {ℓ} : {A : Type ℓ} → Option A → Bool
is_some none = false
is_some (some a) = true

-- repos.yaml has a version and a list of repositories that names each one.
unfoldable pub usable_repos : Document → Bool
unfolding usable_items
usable_repos unreadable = false
usable_repos (other v) = false
usable_repos (document fields) =
    is_some (value_of "version" fields)
    && elim (list_of (value_of "repos" fields)) [ none ↦ false | some xs ↦ usable_items xs ]

-- budgets.yaml has the global cap on tokens, and no placeholder among its repositories.
unfoldable pub usable_budgets : Document → Bool
unfolding filled_items
usable_budgets unreadable = false
usable_budgets (other v) = false
usable_budgets (document fields) =
    elim (value_of "global" fields) [
      | none ↦ false
      | some node ↦ elim (has_max_tokens node) [ none ↦ false | some b ↦ b ]
    ]
    && elim (repos_of (value_of "repos" fields)) [ err e ↦ false | ok xs ↦ filled_items xs ]

-- The warnings have a fatal one exactly when `b` is false; or the check raised.
abbrev pub Says : Result (List Warning) → Bool → Type 0
Says (ok ws) b = has_fatal ws ≡ not b
Says (err e) b = Unit

pub Says-append_all :
    (r q : Result (List Warning)) (b c : Bool)
    → Says r b
    → Says q c
    → Says (append_all r q) (b && c)
unfolding has_fatal
Says-append_all (ok ws) (ok more) true c h k = rw (any-append is_fatal ws more, h) k
Says-append_all (ok ws) (ok more) false c h k = rw (any-append is_fatal ws more, h) refl
Says-append_all (ok ws) (err e) b c h k = tt
Says-append_all (err e) q b c h k = tt

and_true : (b : Bool) → b && true ≡ b
and_true true = refl
and_true false = refl

pub placeholder_warning-Says :
    (i : ℕ) (url : Leaf) → Says (placeholder_warning i url) (is_filled url)
unfolding placeholder_warning is_filled has_fatal any_row
placeholder_warning-Says i url = elim (Option-cases (has_placeholder url)) [
  | inl e ↦ rw (placeholder_warning, e) tt
  | inr (b, e) ↦ elim (Bool-cases b) [
    | inl y ↦ rw (placeholder_warning, is_filled, e, y) refl
    | inr n ↦ rw (placeholder_warning, is_filled, e, n) refl
  ]
]

workflow_warning-Says : (i : ℕ) (v : Leaf) → Says (workflow_warning i v) true
unfolding workflow_warning has_fatal any_row
workflow_warning-Says i null = refl
workflow_warning-Says i (flag true) = refl
workflow_warning-Says i (flag false) = refl
workflow_warning-Says i (number n) = elim (Bool-cases (n == 0)) [
  | inl e ↦ rw e refl
  | inr e ↦ rw e refl
]
workflow_warning-Says i (text s) = elim (Bool-cases (s == [])) [
  | inl e ↦ rw e refl
  | inr e ↦ elim (Bool-cases (any_row (λ w. w == s) known_workflows)) [
    | inl f ↦ rw (e, f) refl
    | inr f ↦ rw (e, f) refl
  ]
]
workflow_warning-Says i (collection []) = refl
workflow_warning-Says i (collection (p ∷ parts)) = tt

url-Says :
    (i : ℕ) (url : Leaf)
    → Says
        (if is_true url then placeholder_warning i url else ok (fatal (missing_url i) ∷ []))
        (is_true url && is_filled url)
unfolding has_fatal any_row
url-Says i url = elim (Bool-cases (is_true url)) [
  | inl e ↦ rw e (placeholder_warning-Says i url)
  | inr e ↦ rw e refl
]

entry_warnings-Says :
    (i : ℕ) (entry : Entry)
    → Says (entry_warnings i entry) (is_true (url_of entry) && is_filled (url_of entry))
unfolding entry_warnings
entry_warnings-Says i entry =
    let wf = or_empty (value_of "default_workflow" entry) in
    subst (λ b. Says (entry_warnings i entry) b)
      (and_true (is_true (url_of entry) && is_filled (url_of entry)))
      (Says-append_all
        (if is_true (url_of entry)
          then placeholder_warning i (url_of entry)
          else ok (fatal (missing_url i) ∷ []))
        (workflow_warning i wf) (is_true (url_of entry) && is_filled (url_of entry)) true
        (url-Says i (url_of entry)) (workflow_warning-Says i wf))

pub repo_warnings-Says : (i : ℕ) (xs : List Item) → Says (repo_warnings i xs) (usable_items xs)
unfolding repo_warnings usable_items has_fatal any_row
repo_warnings-Says i [] = refl
repo_warnings-Says i (scalar v ∷ rest) =
    Says-append_all (ok (warning (not_a_mapping i) ∷ [])) (repo_warnings (suc i) rest) true
      (usable_items rest) refl (repo_warnings-Says (suc i) rest)
repo_warnings-Says i (mapping entry ∷ rest) =
    Says-append_all (entry_warnings i entry) (repo_warnings (suc i) rest)
      (is_true (url_of entry) && is_filled (url_of entry)) (usable_items rest)
      (entry_warnings-Says i entry) (repo_warnings-Says (suc i) rest)

pub budget_warnings-Says : (i : ℕ) (xs : List Item) → Says (budget_warnings i xs) (filled_items xs)
unfolding budget_warnings filled_items has_fatal any_row
budget_warnings-Says i [] = refl
budget_warnings-Says i (scalar v ∷ rest) = budget_warnings-Says (suc i) rest
budget_warnings-Says i (mapping entry ∷ rest) =
    Says-append_all (placeholder_warning i (url_of entry)) (budget_warnings (suc i) rest)
      (is_filled (url_of entry)) (filled_items rest) (placeholder_warning-Says i (url_of entry))
      (budget_warnings-Says (suc i) rest)
