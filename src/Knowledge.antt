-- ===== src/Knowledge.antt =====
-- KnowledgeBase (orchestrator/knowledge.py): the lessons of finished runs and their retrieval. The
-- ranking by SQLite's full-text index, which triggers keep equal to the table, is a parameter.
pub mod Upserts
pub mod Retrieval
pub mod Queries
use tac_master.Shared.{
  ℕ, suc, ◌-◌, ◌+◌, String, Bool, true, false, not, ◌||◌, ◌&&◌, Option, none, some, List, [], ◌∷◌,
  ◌++◌, map, if◌then◌else◌, ◌==◌, string_eq, nat_eq, Text, text_eq, codes, is_space, is_word,
  is_digit, leb, ltb, length, find_row, update_rows, any_row, select_rows,
}
use tac_master.Orchestrator.Tables.{limit}

pub record Lesson : Type 0 where
  pub id : ℕ
  pub adw_id : String
  pub repo_url : String
  pub issue_number : Option ℕ
  pub title : String
  pub workflow : Option String
  pub result : Option String
  pub tags : Option Text
  pub body : String
  pub markdown_path : Option String
  pub created_at : ℕ
  pub updated_at : ℕ

-- The table, with the last id that AUTOINCREMENT gave.
pub record KnowledgeBase : Type 0 where
  pub lessons : List Lesson
  pub last_id : ℕ

-- The arguments of `upsert`.
pub record Given : Type 0 where
  pub adw_id : String
  pub repo_url : String
  pub title : String
  pub body : String
  pub issue_number : Option ℕ
  pub workflow : Option String
  pub result : Option String
  pub tags : List Text
  pub markdown_path : Option String

abbrev text_ltb : Text → Text → Bool
text_ltb s [] = false
text_ltb [] (d ∷ t) = true
text_ltb (c ∷ s) (d ∷ t) = ltb c d || ((c == d) && text_ltb s t)

-- A string into a sorted list of strings without repetitions.
unfoldable pub insert_tag : Text → List Text → List Text
insert_tag tag [] = tag ∷ []
insert_tag tag (t ∷ ts) =
    if tag == t then t ∷ ts else if text_ltb tag t then tag ∷ t ∷ ts else t ∷ insert_tag tag ts

-- `sorted(set(tags))`
unfoldable pub sorted_tags : List Text → List Text
unfolding insert_tag
sorted_tags [] = []
sorted_tags (tag ∷ tags) = insert_tag tag (sorted_tags tags)

-- `separator.join(parts)`
unfoldable pub join : Text → List Text → Text
join separator [] = []
join separator (part ∷ []) = part
join separator (part ∷ next ∷ rest) = part ++ separator ++ join separator (next ∷ rest)

unfoldable pub tag_str : List Text → Option Text
unfolding sorted_tags join
tag_str [] = none
tag_str (tag ∷ tags) = some (join (codes ",") (sorted_tags (tag ∷ tags)))

-- WHERE adw_id = ?
abbrev pub is_lesson : String → Lesson → Bool
is_lesson adw_id l = l.adw_id == adw_id

abbrev pub updated : ℕ → Given → Lesson → Lesson
updated now g l = record l {
  repo_url = g.repo_url;
  issue_number = g.issue_number;
  title = g.title;
  workflow = g.workflow;
  result = g.result;
  tags = tag_str g.tags;
  body = g.body;
  markdown_path = g.markdown_path;
  updated_at = now;
}

abbrev pub new_lesson : ℕ → ℕ → Given → Lesson
new_lesson now id g = record {
  id = id;
  adw_id = g.adw_id;
  repo_url = g.repo_url;
  issue_number = g.issue_number;
  title = g.title;
  workflow = g.workflow;
  result = g.result;
  tags = tag_str g.tags;
  body = g.body;
  markdown_path = g.markdown_path;
  created_at = now;
  updated_at = now;
}

-- `upsert`: the id of the lesson, and the table.
unfoldable pub upsert : ℕ → Given → KnowledgeBase → ℕ × KnowledgeBase
unfolding find_row update_rows
upsert now g kb = elim (find_row (is_lesson g.adw_id) kb.lessons) [
  | some l ↦
      (l.id, record kb { lessons = update_rows (is_lesson g.adw_id) (updated now g) kb.lessons })
  | none ↦ (
    suc kb.last_id,
    record {
      lessons = kb.lessons ++ new_lesson now (suc kb.last_id) g ∷ [];
      last_id = suc kb.last_id;
    },
  )
]

-- `_FTS_STRIP.sub(" ", query)`
unfoldable pub cleaned : Text → Text
unfolding is_space is_word
cleaned [] = []
cleaned (c ∷ s) = (if is_word c || is_space c then c else b' ') ∷ cleaned s

-- `split()`, with the word that has begun.
unfoldable pub split_words : Text → Text → List Text
unfolding is_space
split_words word [] = if word == [] then [] else word ∷ []
split_words word (c ∷ s) = elim (is_space c) [
  | true ↦ elim (word == []) [ true ↦ split_words [] s | false ↦ word ∷ split_words [] s ]
  | false ↦ split_words (word ++ c ∷ []) s
]

-- `[t for t in cleaned.split() if len(t) >= 3][:20]`
unfoldable pub query_tokens : Text → List Text
unfolding split_words cleaned select_rows limit
query_tokens query = limit 20 (select_rows (λ t. leb 3 (length t)) (split_words [] (cleaned query)))

abbrev pub quoted : Text → Text
quoted t = b'"' ∷ t ++ b'"' ∷ []

-- `_sanitize_fts`
unfoldable pub sanitize_fts : Text → Text
unfolding query_tokens join
sanitize_fts query = join (codes " OR ") (map quoted (query_tokens query))

-- `if repo_url:`
abbrev pub in_repo : Option String → Lesson → Bool
in_repo none l = true
in_repo (some url) l = (url == "") || (l.repo_url == url)

-- `rank`: the lessons that an expression matches, the best first.
module _ (rank : Text → List Lesson → List Lesson) where
  -- `search`
  unfoldable pub search : Text → Option String → ℕ → KnowledgeBase → List Lesson
  unfolding select_rows limit
  search query repo_url n kb =
      let q = sanitize_fts query in
      if q == [] then [] else limit n (select_rows (in_repo repo_url) (rank q kb.lessons))

  -- `fetch_relevant`
  unfoldable pub fetch_relevant : Text → String → ℕ → KnowledgeBase → List Lesson
  unfolding any_row select_rows limit
  fetch_relevant issue_title repo_url k kb =
      let primary = search issue_title (some repo_url) k kb in
      let remaining = k - length primary in
      if leb k (length primary)
      then primary
      else (primary
          ++ limit remaining (
              select_rows (λ l. not (any_row (is_lesson l.adw_id) primary))
                (search issue_title none (k + remaining) kb)))

-- ORDER BY created_at DESC: of lessons of the same second the first.
unfoldable pub insert_newest : Lesson → List Lesson → List Lesson
insert_newest l [] = l ∷ []
insert_newest l (x ∷ xs) =
    if leb x.created_at l.created_at then l ∷ x ∷ xs else x ∷ insert_newest l xs

unfoldable pub newest_first : List Lesson → List Lesson
unfolding insert_newest
newest_first [] = []
newest_first (l ∷ ls) = insert_newest l (newest_first ls)

-- `recent`
unfoldable pub recent : ℕ → Option String → KnowledgeBase → List Lesson
unfolding select_rows newest_first limit
recent n repo_url kb = limit n (newest_first (select_rows (in_repo repo_url) kb.lessons))

unfoldable pub count : KnowledgeBase → ℕ
count kb = length kb.lessons
