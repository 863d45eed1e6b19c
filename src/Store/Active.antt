-- ===== src/Store/Active.antt =====
-- The active runs of one repository, and what `active_runs_count` counts for it.
use tac_master.Shared.{
  ℕ, ◌≤◌, String, ◌&&◌, List, [], ◌∷◌, arith, ◌==◌, string_eq, count_rows, inl, inr, Bool-cases,
}
use tac_master.Store.{Store, RunRow, is_active, active_runs_count_of}

-- The rows of active runs for exactly this url.
unfoldable pub runs_of : String → Store → ℕ
runs_of url s = count_rows (λ r. is_active r.status && r.repo_url == url) s.runs

fewer_of :
    (url : String) (runs : List RunRow)
    → count_rows (λ r. is_active r.status && r.repo_url == url) runs
      ≤ count_rows (λ r. is_active r.status) runs
unfolding count_rows
fewer_of url [] = omega arith
fewer_of url (r ∷ runs) = ground (arith, fewer_of url runs)

-- The store never counts too few of them.
pub runs_of-active_runs_count_of :
    (url : String) (s : Store) → runs_of url s ≤ active_runs_count_of url s
unfolding runs_of active_runs_count_of
runs_of-active_runs_count_of url s = elim (Bool-cases (url == "")) [
  | inl e ↦ rw e (fewer_of url s.runs)
  | inr e ↦ rw e (omega arith)
]
