-- ===== src/Orchestrator/Chat/History.antt =====
-- What the history of a chat shows of a new message.
use tac_master.Shared.{
  subst, eq_iff, ℕ, zero, suc, ◌≤◌, ◌<◌, String, Bool, true, ◌≡◌, refl, ap, sym, ◌∙◌, Option, List,
  [], ◌∷◌, ◌++◌, ◌==◌, string_eq, arith, length, length-append, select_rows, ok,
}
use tac_master.Orchestrator.Tables.{ChatRow, Db, Metadata, insert_by, order_by, limit}
use tac_master.Orchestrator.Chat.{insert, get_history}

module _ {A : Type 0} (key : A → ℕ) where
  abbrev AllBefore : ℕ → List A → Type 0
  AllBefore last [] = Unit
  AllBefore last (x ∷ xs) = (key x ≤ last) × AllBefore last xs

  insert_by-last :
      (y x : A) (zs : List A)
      → key y ≤ key x
      → insert_by key y (zs ++ x ∷ []) ≡ insert_by key y zs ++ x ∷ []
  unfolding insert_by
  insert_by-last y x [] h = ground arith
  insert_by-last y x (z ∷ zs) h = ground (arith, insert_by-last y x zs)

  order_by-last :
      (xs : List A) (x : A)
      → AllBefore (key x) xs
      → order_by key (xs ++ x ∷ []) ≡ order_by key xs ++ x ∷ []
  unfolding order_by insert_by
  order_by-last [] x h = refl
  order_by-last (y ∷ xs) x h =
      ap (insert_by key y) (order_by-last xs x h.1) ∙ insert_by-last y x (order_by key xs) h.0

  length-insert_by : (y : A) (zs : List A) → length (insert_by key y zs) ≡ suc (length zs)
  unfolding insert_by
  length-insert_by y [] = refl
  length-insert_by y (z ∷ zs) = ground (arith, length-insert_by y zs)

  length-order_by : (xs : List A) → length (order_by key xs) ≡ length xs
  unfolding order_by
  length-order_by [] = refl
  length-order_by (x ∷ xs) = length-insert_by x (order_by key xs) ∙ ap suc (length-order_by xs)

limit-full {ℓ} :
    {A : Type ℓ} (n : ℕ) (xs : List A) (x : A) → n ≤ length xs → limit n (xs ++ x ∷ []) ≡ limit n xs
unfolding limit
limit-full zero xs x h = refl
limit-full (suc n) [] x h = absurd (omega arith)
limit-full (suc n) (y ∷ xs) x h = ap (λ zs. y ∷ zs) (limit-full n xs x (omega arith))

limit-all {ℓ} : {A : Type ℓ} (n : ℕ) (xs : List A) → length xs ≤ n → limit n xs ≡ xs
unfolding limit
limit-all zero [] h = refl
limit-all zero (x ∷ xs) h = absurd (omega arith)
limit-all (suc n) [] h = refl
limit-all (suc n) (y ∷ xs) h = ap (λ zs. y ∷ zs) (limit-all n xs (omega arith))

-- The messages of an orchestrator, in the order of their insertion.
abbrev pub chat_of : String → Db → List ChatRow
chat_of oid db = select_rows (λ r. r.orchestrator_agent_id == oid) db.chat_messages

abbrev pub AllEarlier : ℕ → List ChatRow → Type 0
AllEarlier now rows = AllBefore (λ (r : ChatRow). r.created_at) now rows

select-last :
    {A : Type 0} (p : A → Bool) (xs : List A) (x : A)
    → p x ≡ true
    → select_rows p (xs ++ x ∷ []) ≡ select_rows p xs ++ x ∷ []
unfolding select_rows
select-last p [] x h = ground arith
select-last p (y ∷ xs) x h = ground (arith, select-last p xs x)

module _ (now : ℕ) (id oid sender message : String) (metadata : Metadata) (receiver : String)
    (agent_id session_id : Option String) (db after : Db) (row : ChatRow)
    (done : insert now id oid sender message metadata receiver agent_id session_id db
      ≡ ok (row, after)) where
  inserted :
      (after.chat_messages ≡ db.chat_messages ++ row ∷ [])
      × (row.orchestrator_agent_id ≡ oid)
      × (row.created_at ≡ now)
  unfolding insert
  inserted = ground arith

  chat-inserted : chat_of oid after ≡ chat_of oid db ++ row ∷ []
  chat-inserted =
      ap (select_rows (λ (r : ChatRow). r.orchestrator_agent_id == oid)) inserted.0
      ∙ select-last (λ (r : ChatRow). r.orchestrator_agent_id == oid) db.chat_messages row
          ((eq_iff row.orchestrator_agent_id oid).1 inserted.1)

  history-inserted :
      (n : ℕ)
      → AllEarlier now (chat_of oid db)
      → get_history oid n after
        ≡ limit n (order_by (λ (r : ChatRow). r.created_at) (chat_of oid db) ++ row ∷ [])
  unfolding get_history
  history-inserted n earlier =
      ap (λ rows. limit n (order_by (λ (r : ChatRow). r.created_at) rows)) chat-inserted
      ∙ ap (limit n) (
          order_by-last (λ (r : ChatRow). r.created_at) (chat_of oid db) row
            (subst (λ t. AllEarlier t (chat_of oid db)) (sym inserted.2) earlier))

-- A message that is saved at a time no earlier than those before it is the last of the history, as
-- long as the history has room for it. Once there are as many messages as the limit, the history
-- stays as it is: it shows the oldest messages, and a new one never.
pub get_history-insert :
    (now : ℕ) (id oid sender message : String) (metadata : Metadata) (receiver : String)
    (agent_id session_id : Option String) (db after : Db) (row : ChatRow) (n : ℕ)
    → insert now id oid sender message metadata receiver agent_id session_id db ≡ ok (row, after)
    → AllEarlier now (chat_of oid db)
    → (length (chat_of oid db) < n → get_history oid n after ≡ get_history oid n db ++ row ∷ [])
      × (n ≤ length (chat_of oid db) → get_history oid n after ≡ get_history oid n db)
unfolding get_history
get_history-insert now id oid sender message metadata receiver agent_id session_id db after row n
      done earlier =
    (fits, full)
  where
    shown :
        get_history oid n after
        ≡ limit n (order_by (λ (r : ChatRow). r.created_at) (chat_of oid db) ++ row ∷ [])
    shown =
        history-inserted now id oid sender message metadata receiver agent_id session_id db after
          row done n earlier

    count :
        length (order_by (λ (r : ChatRow). r.created_at) (chat_of oid db)) ≡ length (chat_of oid db)
    count = length-order_by (λ (r : ChatRow). r.created_at) (chat_of oid db)

    fits : length (chat_of oid db) < n → get_history oid n after ≡ get_history oid n db ++ row ∷ []
    fits h =
        let sorted = order_by (λ (r : ChatRow). r.created_at) (chat_of oid db) in
        shown
        ∙ limit-all n (sorted ++ row ∷ [])
            (omega (arith, count, length-append {0} sorted (row ∷ [])))
        ∙ ap (λ rows. rows ++ row ∷ []) (sym (limit-all n sorted (omega (arith, count))))

    full : n ≤ length (chat_of oid db) → get_history oid n after ≡ get_history oid n db
    full h =
        shown
        ∙ limit-full n (order_by (λ (r : ChatRow). r.created_at) (chat_of oid db)) row
            (omega (arith, count))
