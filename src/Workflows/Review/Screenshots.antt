-- ===== src/Workflows/Review/Screenshots.antt =====
-- The screenshots of a review (upload_review_screenshots of adws/adw_review_iso.py): whether a file
-- of the worktree exists, and the url that its upload gives, are the parameters.
use tac_master.Shared.{
  String, Bool, true, false, ◌&&◌, ◌≡◌, refl, ap, Option, none, some, List, [], ◌∷◌, map,
  if◌then◌else◌, ◌==◌, string_eq, eq_iff, Bool-cases, inl, inr, arith,
}
use tac_master.Workflows.Review.{ReviewIssue, ReviewResult}

module _ (exists : String → Bool) (upload_file : String → Option String) where
  -- The url of a screenshot, or its local path where the upload fails.
  unfoldable pub uploaded : String → String
  uploaded local_path = elim (upload_file local_path) [ none ↦ local_path | some url ↦ url ]

  unfoldable pub upload_all : List String → List String
  unfolding uploaded
  upload_all [] = []
  upload_all (local_path ∷ screenshots) =
      let rest = upload_all screenshots in
      if exists local_path then uploaded local_path ∷ rest else rest

-- The loop over the screenshots for one issue, with the urls from the same index on.
unfoldable pub find_url : String → List String → List String → Option String
find_url path [] urls = none
find_url path (local_path ∷ screenshots) [] = none
find_url path (local_path ∷ screenshots) (url ∷ urls) =
    let rest = find_url path screenshots urls in if local_path == path then some url else rest

unfoldable pub with_url : List String → List String → ReviewIssue → ReviewIssue
unfolding find_url
with_url screenshots urls issue =
    if issue.screenshot_path == ""
    then issue
    else elim (find_url issue.screenshot_path screenshots urls) [
      | none ↦ issue
      | some url ↦ record issue { screenshot_url = some url }
    ]

unfoldable pub upload_review_screenshots :
    (String → Bool) → (String → Option String) → ReviewResult → ReviewResult
unfolding upload_all with_url
upload_review_screenshots exists upload_file result = elim result.screenshots [
  | [] ↦ result
  | local_path ∷ screenshots ↦
      let urls = upload_all exists upload_file (local_path ∷ screenshots) in
      record result {
        screenshot_urls = urls;
        review_issues = map (with_url (local_path ∷ screenshots) urls) result.review_issues;
      }
]

unfoldable pub is_listed : String → List String → Bool
is_listed path [] = false
is_listed path (local_path ∷ screenshots) =
    let rest = is_listed path screenshots in if local_path == path then true else rest

unfoldable pub all_exist : (String → Bool) → List String → Bool
all_exist exists [] = true
all_exist exists (local_path ∷ screenshots) = exists local_path && all_exist exists screenshots

module _ (exists : String → Bool) (upload_file : String → Option String) where
  find-upload_all :
      (path : String) (screenshots : List String)
      → all_exist exists screenshots ≡ true
      → find_url path screenshots (upload_all exists upload_file screenshots)
        ≡ (if is_listed path screenshots then some (uploaded exists upload_file path) else none)
  unfolding find_url upload_all is_listed all_exist
  find-upload_all path [] h = refl
  find-upload_all path (p ∷ screenshots) h = elim (Bool-cases (exists p)) [
    | inr e ↦ absurd (ground (arith, e, h))
    | inl e ↦ elim (Bool-cases (p == path)) [
      | inl here ↦
          rw (e, here) (ap (λ q. some (uploaded exists upload_file q)) ((eq_iff p path).0 here))
      | inr there ↦ rw (e, there) (find-upload_all path screenshots (ground (arith, e, h)))
    ]
  ]

  -- The issue with the url of its own screenshot, where the review lists it.
  abbrev pub own_url : List String → ReviewIssue → ReviewIssue
  own_url screenshots issue =
      if issue.screenshot_path == ""
      then issue
      else elim (if is_listed issue.screenshot_path screenshots
          then some (uploaded exists upload_file issue.screenshot_path)
          else none) [ none ↦ issue | some url ↦ record issue { screenshot_url = some url } ]

  map-own_url :
      (screenshots : List String)
      → all_exist exists screenshots ≡ true
      → (issues : List ReviewIssue)
      → map (with_url screenshots (upload_all exists upload_file screenshots)) issues
        ≡ map (own_url screenshots) issues
  unfolding with_url
  map-own_url screenshots h [] = refl
  map-own_url screenshots h (issue ∷ issues) =
      rw (find-upload_all issue.screenshot_path screenshots h, map-own_url screenshots h issues)
        refl

  own_url-none : (issues : List ReviewIssue) → issues ≡ map (own_url []) issues
  unfolding is_listed
  own_url-none [] = refl
  own_url-none (issue ∷ issues) = elim (Bool-cases (issue.screenshot_path == "")) [
    | inl e ↦ rw e (ap (λ rest. issue ∷ rest) (own_url-none issues))
    | inr e ↦ rw e (ap (λ rest. issue ∷ rest) (own_url-none issues))
  ]

  own_url_lem :
      (success : Bool) (urls screenshots : List String) (issues : List ReviewIssue)
      → all_exist exists screenshots ≡ true
      → (upload_review_screenshots exists upload_file (record {
        success = success;
        review_issues = issues;
        screenshots = screenshots;
        screenshot_urls = urls;
      })).review_issues
        ≡ map (own_url screenshots) issues
  unfolding upload_review_screenshots
  own_url_lem success urls [] issues h = own_url-none issues
  own_url_lem success urls (p ∷ screenshots) issues h = map-own_url (p ∷ screenshots) h issues

  -- Where the files of all screenshots exist, an issue that names a screenshot of the review gets
  -- the url of that screenshot, or its local path where the upload fails, and every other issue
  -- stays as it is.
  pub upload_review_screenshots-own_url :
      (result : ReviewResult)
      → all_exist exists result.screenshots ≡ true
      → (upload_review_screenshots exists upload_file result).review_issues
        ≡ map (own_url result.screenshots) result.review_issues
  upload_review_screenshots-own_url result =
      own_url_lem result.success result.screenshot_urls result.screenshots result.review_issues
