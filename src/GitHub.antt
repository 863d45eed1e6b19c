-- ===== src/GitHub.antt =====
-- What the client reads from GitHub (orchestrator/github_client.py). A response is the list that
-- `r.json()` gives, or `none` where httpx raised; the defaults that `raw.get` fills in are filled.
use tac_master.Shared.{ℕ, String, Bool, true, false, Option, none, some, List, [], ◌∷◌, Text}

pub record Issue : Type 0 where
  pub number : ℕ
  pub title : Text
  pub body : Text
  pub labels : List String
  pub comments_count : ℕ

pub record Comment : Type 0 where
  pub id : ℕ
  pub body : Text

pub record RawIssue : Type 0 where
  -- "pull_request" in raw
  pub is_pull_request : Bool
  pub issue : Issue

-- Pull requests, which GitHub lists among the issues, are left out.
unfoldable pub without_pull_requests : List RawIssue → List Issue
without_pull_requests [] = []
without_pull_requests (raw ∷ rest) =
    let issues = without_pull_requests rest in
    elim raw.is_pull_request [ true ↦ issues | false ↦ raw.issue ∷ issues ]

unfoldable pub list_open_issues : Option (List RawIssue) → List Issue
unfolding without_pull_requests
list_open_issues none = []
list_open_issues (some raws) = without_pull_requests raws

unfoldable pub list_comments : Option (List Comment) → List Comment
list_comments none = []
list_comments (some comments) = comments

-- One poll's answers.
pub record GitHub : Type 0 where
  pub issues : String → Option (List RawIssue)
  pub comments : String → ℕ → Option (List Comment)
