-- ===== src/Knowledge/Upserts.antt =====
-- What an upsert writes, and the keys that it keeps.
use tac_master.Shared.{
  ℕ, suc, ◌+◌, ◌≤◌, ◌<◌, String, Bool, true, false, ◌≡◌, refl, ap, sym, ◌∙◌, inl, inr, Option, none,
  some, List, [], ◌∷◌, ◌++◌, if◌then◌else◌, ◌==◌, string_eq, arith, find_row, update_rows,
  count_rows, count-append, count-update, find-append, find-update, find-eq_some, Option-cases,
  Bool-cases, str_eq_self, eq_iff, subst, nat_eq,
}
use tac_master.Knowledge.{
  Lesson, KnowledgeBase, Given, is_lesson, updated, new_lesson, upsert, tag_str,
}
use tac_master.Knowledge.Retrieval.{HasKeys}

-- One lesson for an `adw_id` and for an id.
pub record IsKeyed (kb : KnowledgeBase) : Type 0 where
  pub adw_ids : HasKeys kb.lessons
  pub ids : (id : ℕ) → count_rows (λ l. l.id == id) kb.lessons ≤ 1
  pub given : (id : ℕ) → kb.last_id < id → count_rows (λ l. l.id == id) kb.lessons ≡ 0

-- The lesson of `adw_id` after an upsert of `g`.
abbrev kept : ℕ → Given → ℕ → Option Lesson → Lesson
kept now g id none = new_lesson now id g
kept now g id (some l) = updated now g l

abbrev is_id : ℕ → Lesson → Bool
is_id id l = l.id == id

differ : (a b c : String) → (a == b) ≡ true → (c == b) ≡ false → (a == c) ≡ false
differ a b c same other = elim (Bool-cases (a == c)) [
  | inl e ↦
      absurd (ground (arith, other, (eq_iff c b).1 (sym ((eq_iff a c).0 e) ∙ (eq_iff a b).0 same)))
  | inr e ↦ e
]

module _ (now : ℕ) (g : Given) (kb : KnowledgeBase) where
  -- The two branches.
  upsert-known :
      (l : Lesson)
      → find_row (is_lesson g.adw_id) kb.lessons ≡ some l
      → upsert now g kb ≡ (
        l.id,
        record kb { lessons = update_rows (is_lesson g.adw_id) (updated now g) kb.lessons },
      )
  unfolding upsert
  upsert-known l e = rw (upsert, e) refl

  upsert-fresh :
      find_row (is_lesson g.adw_id) kb.lessons ≡ none
      → upsert now g kb ≡ (
        suc kb.last_id,
        record {
          lessons = kb.lessons ++ new_lesson now (suc kb.last_id) g ∷ [];
          last_id = suc kb.last_id;
        },
      )
  unfolding upsert
  upsert-fresh e = rw (upsert, e) refl

  find_self :
      find_row (is_lesson g.adw_id) (upsert now g kb).1.lessons
      ≡ some (kept now g (suc kb.last_id) (find_row (is_lesson g.adw_id) kb.lessons))
  unfolding find_row
  find_self = elim (Option-cases (find_row (is_lesson g.adw_id) kb.lessons)) [
    | inl e ↦
        rw
          (
            upsert-fresh e,
            find-append (is_lesson g.adw_id) kb.lessons (new_lesson now (suc kb.last_id) g ∷ []),
            e,
            str_eq_self g.adw_id,
          )
          refl
    | inr (l, e) ↦
        rw
          (
            upsert-known l e,
            find-update (is_lesson g.adw_id) (is_lesson g.adw_id) (updated now g) (λ x. refl)
                kb.lessons,
            e,
            find-eq_some (is_lesson g.adw_id) kb.lessons l e,
          )
          refl
  ]

  missed :
      (adw_id : String)
      → (g.adw_id == adw_id) ≡ false
      → find_row (is_lesson adw_id) (new_lesson now (suc kb.last_id) g ∷ []) ≡ none
  unfolding find_row
  missed adw_id other = rw other refl

  find_other :
      (adw_id : String)
      → (g.adw_id == adw_id) ≡ false
      → find_row (is_lesson adw_id) (upsert now g kb).1.lessons
        ≡ find_row (is_lesson adw_id) kb.lessons
  find_other adw_id other = elim (Option-cases (find_row (is_lesson g.adw_id) kb.lessons)) [
    | inl e ↦
        rw
          (
            upsert-fresh e,
            find-append (is_lesson adw_id) kb.lessons (new_lesson now (suc kb.last_id) g ∷ []),
          )
          (elim (Option-cases (find_row (is_lesson adw_id) kb.lessons)) [
            | inl n ↦ rw n (missed adw_id other)
            | inr (x, f) ↦ rw f refl
          ])
    | inr (l, e) ↦
        rw
          (
            upsert-known l e,
            find-update (is_lesson adw_id) (is_lesson g.adw_id) (updated now g) (λ x. refl)
                kb.lessons,
          )
          (elim (Option-cases (find_row (is_lesson adw_id) kb.lessons)) [
            | inl n ↦ rw n refl
            | inr (x, f) ↦
                rw
                  (
                    f,
                    differ x.adw_id adw_id g.adw_id (find-eq_some (is_lesson adw_id) kb.lessons x f)
                        other,
                  )
                  refl
          ])
  ]

-- The id and the time of creation: those of a lesson that was there, else the next id and now.
abbrev pub id_before : ℕ → Option Lesson → ℕ
id_before last_id none = suc last_id
id_before last_id (some l) = l.id

abbrev pub created_before : ℕ → Option Lesson → ℕ
created_before now none = now
created_before now (some l) = l.created_at

-- A row with every column that was given and `updated_at` of now.
pub record IsWritten (now : ℕ) (g : Given) (last_id : ℕ) (before : Option Lesson) (l : Lesson)
    : Type 0 where
  pub id : l.id ≡ id_before last_id before
  pub adw_id : l.adw_id ≡ g.adw_id
  pub repo_url : l.repo_url ≡ g.repo_url
  pub issue_number : l.issue_number ≡ g.issue_number
  pub title : l.title ≡ g.title
  pub workflow : l.workflow ≡ g.workflow
  pub result : l.result ≡ g.result
  pub tags : l.tags ≡ tag_str g.tags
  pub body : l.body ≡ g.body
  pub markdown_path : l.markdown_path ≡ g.markdown_path
  pub created_at : l.created_at ≡ created_before now before
  pub updated_at : l.updated_at ≡ now

kept-IsWritten :
    (now : ℕ) (g : Given) (last_id : ℕ) (before : Option Lesson)
    → ((l : Lesson) → before ≡ some l → l.adw_id ≡ g.adw_id)
    → IsWritten now g last_id before (kept now g (suc last_id) before)
kept-IsWritten now g last_id none h = record {
  id = refl;
  adw_id = refl;
  repo_url = refl;
  issue_number = refl;
  title = refl;
  workflow = refl;
  result = refl;
  tags = refl;
  body = refl;
  markdown_path = refl;
  created_at = refl;
  updated_at = refl;
}
kept-IsWritten now g last_id (some l) h = record {
  id = refl;
  adw_id = h l refl;
  repo_url = refl;
  issue_number = refl;
  title = refl;
  workflow = refl;
  result = refl;
  tags = refl;
  body = refl;
  markdown_path = refl;
  created_at = refl;
  updated_at = refl;
}

-- After an upsert there is a lesson of the given `adw_id` whose columns are all those given, its
-- tags in the text that `tag_str` makes of them, with `updated_at` of now; its id and time of
-- creation are those of the lesson that was there, else the next id and now. The lesson of every
-- other `adw_id` is as it was.
pub upsert-find :
    (now : ℕ) (g : Given) (kb : KnowledgeBase)
    → ((l : Lesson) × (find_row (is_lesson g.adw_id) (upsert now g kb).1.lessons ≡ some l)
        × IsWritten now g kb.last_id (find_row (is_lesson g.adw_id) kb.lessons) l)
      × ((adw_id : String)
          → (g.adw_id == adw_id) ≡ false
          → find_row (is_lesson adw_id) (upsert now g kb).1.lessons
            ≡ find_row (is_lesson adw_id) kb.lessons)
upsert-find now g kb =
    let before = find_row (is_lesson g.adw_id) kb.lessons in
    (
      (
        kept now g (suc kb.last_id) before,
        find_self now g kb,
        kept-IsWritten now g kb.last_id before (λ l e.
            (eq_iff l.adw_id g.adw_id).0 (find-eq_some (is_lesson g.adw_id) kb.lessons l e)),
      ),
      find_other now g kb,
    )

count-none : (p : Lesson → Bool) (xs : List Lesson) → find_row p xs ≡ none → count_rows p xs ≡ 0
unfolding find_row count_rows
count-none p [] h = refl
count-none p (x ∷ xs) h = ground (arith, count-none p xs)

module _ (now : ℕ) (g : Given) (kb : KnowledgeBase) (keyed : IsKeyed kb) where
  -- A column that an UPDATE leaves alone is counted as before.
  count-known :
      (l : Lesson) (p : Lesson → Bool)
      → ((x : Lesson) → p (updated now g x) ≡ p x)
      → find_row (is_lesson g.adw_id) kb.lessons ≡ some l
      → count_rows p (upsert now g kb).1.lessons ≡ count_rows p kb.lessons
  count-known l p same e =
      ap (λ (r : ℕ × KnowledgeBase). count_rows p r.1.lessons) (upsert-known now g kb l e)
      ∙ count-update p (is_lesson g.adw_id) (updated now g) (λ x _. same x) kb.lessons

  count-fresh :
      (p : Lesson → Bool)
      → find_row (is_lesson g.adw_id) kb.lessons ≡ none
      → count_rows p (upsert now g kb).1.lessons
        ≡ count_rows p kb.lessons + (if p (new_lesson now (suc kb.last_id) g) then 1 else 0)
  unfolding count_rows
  count-fresh p e =
      ap (λ (r : ℕ × KnowledgeBase). count_rows p r.1.lessons) (upsert-fresh now g kb e)
      ∙ ground (arith, count-append p kb.lessons (new_lesson now (suc kb.last_id) g ∷ []))

  last-known :
      (l : Lesson)
      → find_row (is_lesson g.adw_id) kb.lessons ≡ some l
      → (upsert now g kb).1.last_id ≡ kb.last_id
  last-known l e = ap (λ (r : ℕ × KnowledgeBase). r.1.last_id) (upsert-known now g kb l e)

  last-fresh :
      find_row (is_lesson g.adw_id) kb.lessons ≡ none → (upsert now g kb).1.last_id ≡ suc kb.last_id
  last-fresh e = ap (λ (r : ℕ × KnowledgeBase). r.1.last_id) (upsert-fresh now g kb e)

  adw_ids-fresh :
      (adw_id : String)
      → find_row (is_lesson g.adw_id) kb.lessons ≡ none
      → count_rows (is_lesson adw_id) kb.lessons + (if g.adw_id == adw_id then 1 else 0) ≤ 1
  adw_ids-fresh adw_id e = elim (Bool-cases (g.adw_id == adw_id)) [
    | inl same ↦ rw same (
        omega (
          arith,
          subst (λ a. count_rows (is_lesson a) kb.lessons ≡ 0) ((eq_iff g.adw_id adw_id).0 same)
              (count-none (is_lesson g.adw_id) kb.lessons e),
        ))
    | inr other ↦ rw other (omega (arith, keyed.adw_ids adw_id))
  ]

  ids-fresh :
      (id : ℕ) → count_rows (is_id id) kb.lessons + (if suc kb.last_id == id then 1 else 0) ≤ 1
  ids-fresh id = ground (arith, keyed.ids id, keyed.given id)

-- An upsert keeps one lesson for an `adw_id` and one for an id, and gives no id twice.
pub upsert-IsKeyed :
    (now : ℕ) (g : Given) (kb : KnowledgeBase) → IsKeyed kb → IsKeyed (upsert now g kb).1
upsert-IsKeyed now g kb keyed = elim (Option-cases (find_row (is_lesson g.adw_id) kb.lessons)) [
  | inl e ↦ record {
    adw_ids = λ adw_id. omega (
      arith,
      count-fresh now g kb keyed (is_lesson adw_id) e,
      adw_ids-fresh now g kb keyed adw_id e,
    );
    ids = λ id. omega (arith, count-fresh now g kb keyed (is_id id) e, ids-fresh now g kb keyed id);
    given = λ id above. ground (
      arith,
      count-fresh now g kb keyed (is_id id) e,
      last-fresh now g kb keyed e,
      keyed.given id,
    );
  }
  | inr (l, e) ↦ record {
    adw_ids = λ adw_id. omega (
      arith,
      count-known now g kb keyed l (is_lesson adw_id) (λ x. refl) e,
      keyed.adw_ids adw_id,
    );
    ids = λ id. omega (arith, count-known now g kb keyed l (is_id id) (λ x. refl) e, keyed.ids id);
    given = λ id above. ground (
      arith,
      count-known now g kb keyed l (is_id id) (λ x. refl) e,
      last-known now g kb keyed l e,
      keyed.given id,
    );
  }
]
