-- ===== src/Knowledge/Retrieval.antt =====
-- How many lessons a retrieval finds, and which.
use tac_master.Shared.{
  ℕ, ◌+◌, ◌-◌, ◌≤◌, ◌<◌, String, Bool, true, false, not, ◌≡◌, refl, ap, sym, ◌∙◌, inl, inr, Option,
  none, some, List, [], ◌++◌, if◌then◌else◌, ◌==◌, string_eq, arith, length, length-append, any_row,
  select_rows, count_rows, count-append, Text, text_eq, Bool-cases, leb, str_eq_self,
}
use tac_master.Orchestrator.Tables.{limit}
use tac_master.Orchestrator.Tables.Limits.{
  In, smaller, length-limit, limit-all, length-split, count-split, count-limit, length-select_limit,
  count-select_limit, select-all, any-count, any-In, In-select, select-congr, In-limit, append_nil,
}
use tac_master.Knowledge.{
  Lesson, KnowledgeBase, search, fetch_relevant, sanitize_fts, in_repo, is_lesson,
}

-- The rows are the table's, each as often at most.
abbrev pub Selects : (Text → List Lesson → List Lesson) → Type 0
Selects rank =
    (q : Text) (p : Lesson → Bool) (ls : List Lesson) → count_rows p (rank q ls) ≤ count_rows p ls

-- One lesson for an `adw_id`.
abbrev pub HasKeys : List Lesson → Type 0
HasKeys ls = (adw_id : String) → count_rows (is_lesson adw_id) ls ≤ 1

-- The part of `fetch_relevant` after the search, on the matching lessons.
module _ (url : String) (k : ℕ) (found : List Lesson) where
  abbrev own : List Lesson
  own = select_rows (in_repo (some url)) found

  abbrev fallback : List Lesson → List Lesson
  fallback primary = limit (k - length primary) (
      select_rows (λ l. not (any_row (is_lesson l.adw_id) primary))
        (limit (k + (k - length primary)) found))

  other_repo :
      HasKeys found
      → (l : Lesson) → In l found
      → not (any_row (is_lesson l.adw_id) own) ≡ not (in_repo (some url) l)
  other_repo keys l i = elim (Bool-cases (in_repo (some url) l)) [
    | inl mine ↦ rw (
      mine,
      any-In (is_lesson l.adw_id) l own (In-select (in_repo (some url)) l found i mine)
          (str_eq_self l.adw_id),
    )
    | inr theirs ↦ elim (Bool-cases (any_row (is_lesson l.adw_id) own)) [
      | inr e ↦ rw (e, theirs)
      | inl e ↦
          let strangers = select_rows (λ x. not (in_repo (some url) x)) found in
          absurd (
            omega (
              arith,
              any-count (is_lesson l.adw_id) own e,
              any-count (is_lesson l.adw_id) strangers (
                  any-In (is_lesson l.adw_id) l strangers
                    (In-select (λ x. not (in_repo (some url) x)) l found i (ap not theirs))
                    (str_eq_self l.adw_id)),
              count-split (in_repo (some url)) (is_lesson l.adw_id) found,
              keys l.adw_id,
            ))
    ]
  ]

  fallback-own :
      HasKeys found
      → fallback own
        ≡ limit
            (k - length own)
            (select_rows (λ l. not (in_repo (some url) l)) (limit (k + (k - length own)) found))
  fallback-own keys = ap (limit (k - length own)) (
      select-congr (λ l. not (any_row (is_lesson l.adw_id) own)) (λ l. not (in_repo (some url) l))
        (limit (k + (k - length own)) found)
        (λ l i. other_repo keys l (In-limit l (k + (k - length own)) found i)))

  length-own-fallback :
      HasKeys found → length own < k → length (own ++ fallback own) ≡ smaller k (length found)
  length-own-fallback keys few =
      let pool = limit (k + (k - length own)) found in
      let theirs = select_rows (λ l. not (in_repo (some url) l)) pool in
      length-append own (fallback own)
      ∙ ground (
        arith,
        ap length (fallback-own keys),
        length-limit (k - length own) theirs,
        length-limit (k + (k - length own)) found,
        length-split (in_repo (some url)) pool,
        length-split (in_repo (some url)) found,
        length-select_limit (in_repo (some url)) (k + (k - length own)) found,
        length-select_limit (λ l. not (in_repo (some url) l)) (k + (k - length own)) found,
      )

  -- No lesson is found more often than it is there.
  count-own-fallback :
      HasKeys found → (p : Lesson → Bool) → count_rows p (own ++ fallback own) ≤ count_rows p found
  count-own-fallback keys p =
      let pool = limit (k + (k - length own)) found in
      let strange = λ (l : Lesson). not (in_repo (some url) l) in
      omega (
        arith,
        count-append p own (fallback own),
        ap (count_rows p) (fallback-own keys),
        count-limit p (k - length own) (select_rows strange pool),
        count-select_limit strange p (k + (k - length own)) found,
        count-split (in_repo (some url)) p found,
      )

module _ (rank : Text → List Lesson → List Lesson) (title : Text) (url : String) (k : ℕ)
    (kb : KnowledgeBase) where
  -- All lessons that the query matches.
  abbrev pub matches : List Lesson
  matches = if sanitize_fts title == [] then [] else rank (sanitize_fts title) kb.lessons

  search-matches :
      (repo : Option String) (n : ℕ)
      → search rank title repo n kb ≡ limit n (select_rows (in_repo repo) matches)
  unfolding search select_rows
  search-matches repo n = elim (Bool-cases (sanitize_fts title == [])) [
    | inl e ↦ rw e (sym (limit-all n [] (omega arith)))
    | inr e ↦ rw e refl
  ]

  search-own :
      leb k (length (own url k matches)) ≡ false
      → search rank title (some url) k kb ≡ own url k matches
  search-own few =
      search-matches (some url) k ∙ limit-all k (own url k matches) (ground (arith, few))

  search-any : (n : ℕ) → search rank title none n kb ≡ limit n matches
  search-any n =
      search-matches none n ∙ ap (limit n) (select-all (in_repo none) (λ l. refl) matches)

  fetch_relevant-full :
      leb k (length (own url k matches)) ≡ true
      → fetch_relevant rank title url k kb ≡ limit k (own url k matches)
  unfolding fetch_relevant
  fetch_relevant-full full =
      let enough : leb k (length (limit k (own url k matches))) ≡ true =
        ground (arith, full, length-limit k (own url k matches)) in
      rw (search-matches (some url) k, enough) refl

  fetch_relevant-few :
      leb k (length (own url k matches)) ≡ false
      → fetch_relevant rank title url k kb
        ≡ own url k matches ++ fallback url k matches (own url k matches)
  unfolding fetch_relevant
  fetch_relevant-few few =
      rw (search-own few, few, search-any (k + (k - length (own url k matches)))) refl

  matches-HasKeys :
      Selects rank → (p : Lesson → Bool) → count_rows p matches ≤ count_rows p kb.lessons
  unfolding count_rows
  matches-HasKeys selects p = elim (Bool-cases (sanitize_fts title == [])) [
    | inl e ↦ rw e (omega arith)
    | inr e ↦ rw e (selects (sanitize_fts title) p kb.lessons)
  ]

-- For a ranking that selects rows, over a table with one lesson for each `adw_id`: a retrieval finds
-- as many lessons as match, up to k; none more often than it is in the table, and those of the
-- repository come first, as many as there are up to k.
pub fetch_relevant-fills :
    (rank : Text → List Lesson → List Lesson) (title : Text) (url : String) (k : ℕ)
    (kb : KnowledgeBase)
    → Selects rank
    → HasKeys kb.lessons
    → (length (fetch_relevant rank title url k kb)
        ≡ smaller k (length (matches rank title url k kb)))
      × ((p : Lesson → Bool)
          → count_rows p (fetch_relevant rank title url k kb) ≤ count_rows p kb.lessons)
      × ((rest : List Lesson) × (fetch_relevant rank title url k kb
            ≡ limit k (select_rows (in_repo (some url)) (matches rank title url k kb)) ++ rest))
fetch_relevant-fills rank title url k kb selects keys = elim (Bool-cases (leb k (length mine))) [
  | inl full ↦
      let found = fetch_relevant-full rank title url k kb full in
      (
        ap length found
            ∙ ground (arith, full, length-limit k mine, length-split (in_repo (some url)) all),
        λ p. omega (
          arith,
          ap (count_rows p) found,
          count-limit p k mine,
          count-split (in_repo (some url)) p all,
          matches-HasKeys rank title url k kb selects p,
        ),
        ([], found ∙ sym (append_nil (limit k mine))),
      )
  | inr few ↦
      let found = fetch_relevant-few rank title url k kb few in
      (
        ap length found ∙ length-own-fallback url k all unique (ground (arith, few)),
        λ p. omega (
          arith,
          ap (count_rows p) found,
          count-own-fallback url k all unique p,
          matches-HasKeys rank title url k kb selects p,
        ),
        (
          fallback url k all mine,
          found
              ∙ ap (λ ls. ls ++ fallback url k all mine)
                  (sym (limit-all k mine (ground (arith, few)))),
        ),
      )
]
  where
    all : List Lesson
    all = matches rank title url k kb

    mine : List Lesson
    mine = own url k all

    unique : HasKeys all
    unique adw_id =
        omega (arith, matches-HasKeys rank title url k kb selects (is_lesson adw_id), keys adw_id)
