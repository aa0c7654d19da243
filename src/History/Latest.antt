-- ===== src/History/Latest.antt =====
-- Which executions are shown.
use labfunctions.Prelude.{
  ℕ, zero, suc, ◌≡◌, refl, sym, ap, ◌∙◌, ◌+◌, ◌<◌, Bool, true, false, ◌&&◌, ◌||◌, List, [], ◌∷◌,
  ◌++◌, Option, none, some, map, leb, ltb, arith, if◌then◌else◌,
}
use labfunctions.Text.{Text, teq, teq_refl, select, all, any, length, is_empty}
use labfunctions.Query.{order_desc, put_desc, limit}
use labfunctions.Query.Order.{
  length-limit, length-order_desc, omitted, all-limit, all-order_desc, any-order_desc,
  is_latest_first, is_latest_first-order_desc, is_latest_first-limit, all-limit-omitted,
}
use labfunctions.Types.Core.{ExecutionResult, HistoryResult, pos, negsuc}
use labfunctions.History.{
  HistoryModel, is_asked, last_rows, result_of, get_last, row_of, status_of, create, history_create,
  history_get_all, answer,
}

module _ {V : Type 0} (isoformat : ℕ → Text) where
  abbrev pub time : HistoryModel V → ℕ
  time r = r.created_at

  all-select :
      (q : HistoryModel V → Bool) (rows : List (HistoryModel V)) → all q (select q rows) ≡ true
  unfolding select
  all-select q [] = refl
  all-select q (r ∷ rows) = ground (arith, all-select q rows)

  any-split :
      (q : HistoryModel V → Bool) (n : ℕ) (rows : List (HistoryModel V))
      → any q rows ≡ (any q (limit n rows) || any q (omitted n rows))
  unfolding limit omitted
  any-split q zero rows = refl
  any-split q (suc n) [] = refl
  any-split q (suc n) (r ∷ rows) = ground (arith, any-split q n rows)

  -- A row of the project that was asked for, and of the workflow if one was.
  abbrev pub is_wanted : Text → Option Text → HistoryModel V → Bool
  is_wanted p w r =
      elim r.project_id [ none ↦ false | some q ↦ teq q p ]
      && elim w as (λ x. Bool) [ none ↦ true | some v ↦ is_empty v || teq r.wfid v ]

  -- How many rows pass a test.
  abbrev pub count : (HistoryModel V → Bool) → List (HistoryModel V) → ℕ
  count q [] = 0
  count q (r ∷ rows) = (if q r then 1 else 0) + count q rows

  length-select :
      (q : HistoryModel V → Bool) (rows : List (HistoryModel V))
      → length (select q rows) ≡ count q rows
  unfolding select
  length-select q [] = refl
  length-select q (r ∷ rows) = ground (arith, length-select q rows)

  is_asked-is_wanted :
      (p : Text) (w : Option Text) (r : HistoryModel V) → is_asked isoformat p w r ≡ is_wanted p w r
  is_asked-is_wanted p none r = ground arith
  is_asked-is_wanted p (some v) r = ground arith

  select-is_asked :
      (p : Text) (w : Option Text) (rows : List (HistoryModel V))
      → select (is_asked isoformat p w) rows ≡ select (is_wanted p w) rows
  unfolding select
  select-is_asked p w [] = refl
  select-is_asked p w (r ∷ rows) = rw (is_asked-is_wanted p w r, select-is_asked p w rows)

  last_rows-is_wanted :
      (p : Text) (w : Option Text) (lt : ℕ) (rows : List (HistoryModel V))
      → last_rows isoformat p w lt rows ≡ limit lt (order_desc time (select (is_wanted p w) rows))
  unfolding last_rows
  last_rows-is_wanted p w lt rows =
      ap (λ asked. limit lt (order_desc time asked)) (select-is_asked p w rows)

  -- What is said of the rows that are shown.
  AreLatest : (HistoryModel V → Bool) → ℕ → List (HistoryModel V) → List (HistoryModel V) → Type 0
  AreLatest wanted lt rows shown =
      (length shown ≡ (if leb lt (count wanted rows) then lt else count wanted rows))
      × (all wanted shown ≡ true)
      × (is_latest_first time shown ≡ true)
      × ((others : List (HistoryModel V)) × ((q : HistoryModel V → Bool)
            → any q (select wanted rows) ≡ (any q shown || any q others))
          × (all (λ x. all (λ y. leb (time y) (time x)) others) shown ≡ true))

  limited-AreLatest :
      (wanted : HistoryModel V → Bool) (lt : ℕ) (rows : List (HistoryModel V))
      → AreLatest wanted lt rows (limit lt (order_desc time (select wanted rows)))
  unfolding AreLatest
  limited-AreLatest wanted lt rows =
      let asked = select wanted rows in
      let sorted = order_desc time asked in
      let latest = is_latest_first-order_desc time asked in
      (
        length-limit lt sorted
            ∙ ap (λ n. if leb lt n then lt else n)
                (length-order_desc time asked ∙ length-select wanted rows),
        all-limit wanted lt sorted (all-order_desc time wanted asked ∙ all-select wanted rows),
        is_latest_first-limit time lt sorted latest,
        (
          omitted lt sorted,
          λ q. sym (any-order_desc time q asked) ∙ any-split q lt sorted,
          all-limit-omitted time lt sorted latest,
        ),
      )

  -- As many rows are shown as were asked for, or all that there are of the project and the workflow
  -- if these are fewer. They belong to this project and workflow and come from the latest on; the
  -- rows of the project and the workflow are these and others, none of which is later than one that
  -- is shown.
  pub last_rows_lem :
      (p : Text) (w : Option Text) (lt : ℕ) (rows : List (HistoryModel V))
      → (length (last_rows isoformat p w lt rows)
          ≡ (if leb lt (count (is_wanted p w) rows) then lt else count (is_wanted p w) rows))
        × (all (is_wanted p w) (last_rows isoformat p w lt rows) ≡ true)
        × (is_latest_first time (last_rows isoformat p w lt rows) ≡ true)
        × ((others : List (HistoryModel V)) × ((q : HistoryModel V → Bool)
              → any q (select (is_wanted p w) rows)
                ≡ (any q (last_rows isoformat p w lt rows) || any q others))
            × (all (λ x. all (λ y. leb (time y) (time x)) others) (last_rows isoformat p w lt rows)
                ≡ true))
  unfolding AreLatest
  last_rows_lem p w lt rows =
      rw (last_rows-is_wanted p w lt rows) (limited-AreLatest (is_wanted p w) lt rows)

  select-append :
      (q : HistoryModel V → Bool) (r : HistoryModel V) (rows : List (HistoryModel V))
      → q r ≡ true
      → select q (rows ++ r ∷ []) ≡ select q rows ++ r ∷ []
  unfolding select
  select-append q r [] h = rw h
  select-append q r (v ∷ rows) h = ground (arith, select-append q r rows)

  put_desc-latest :
      (r v : HistoryModel V) (rows : List (HistoryModel V))
      → time v < time r
      → put_desc time v (r ∷ rows) ≡ r ∷ put_desc time v rows
  unfolding put_desc
  put_desc-latest r v rows h = ground (arith)

  order_desc-append :
      (r : HistoryModel V) (rows : List (HistoryModel V))
      → all (λ v. ltb (time v) (time r)) rows ≡ true
      → order_desc time (rows ++ r ∷ []) ≡ r ∷ order_desc time rows
  unfolding order_desc put_desc
  order_desc-append r [] h = refl
  order_desc-append r (v ∷ rows) h =
      ap (put_desc time v) (order_desc-append r rows (ground arith))
      ∙ put_desc-latest r v (order_desc time rows) (ground arith)

  all_of_select :
      (q b : HistoryModel V → Bool) (rows : List (HistoryModel V))
      → all b rows ≡ true
      → all b (select q rows) ≡ true
  unfolding select
  all_of_select q b [] h = refl
  all_of_select q b (r ∷ rows) h = ground (arith, all_of_select q b rows)

  -- What is shown of an execution: its ids, -1 as the status of a failure and 0 as that of a
  -- success, and the time of its registration.
  abbrev pub shown_result : ℕ → ExecutionResult V → HistoryResult V
  shown_result now e = record {
    wfid = e.wfid;
    status = if e.error then negsuc 0 else pos 0;
    result = some e;
    execid = some e.execid;
    created_at = some (isoformat now);
  }

  stored_lem :
      (accepts : Text → Bool) (now : ℕ) (e : ExecutionResult V) (rows : List (HistoryModel V))
      → accepts e.projectid ≡ true
      → history_create isoformat accepts now e rows ≡ (201, rows ++ row_of isoformat now e ∷ [])
  unfolding history_create create
  stored_lem accepts now e rows known = rw known

  -- An execution of a project that the database accepts, which is registered later than all others,
  -- is answered with 201; then it is the first one that is shown for its project, with the status -1
  -- if it failed and 0 if not, and the others follow as they were shown before.
  pub history_get_all-history_create :
      (accepts : Text → Bool) (now lt : ℕ) (e : ExecutionResult V) (rows : List (HistoryModel V))
      → accepts e.projectid ≡ true
      → all (λ v. ltb (time v) now) rows ≡ true
      → ((history_create isoformat accepts now e rows).0 ≡ 201)
        × (history_get_all isoformat e.projectid
              (suc lt)
              (history_create isoformat accepts now e rows).1
            ≡ (200, shown_result now e ∷ get_last isoformat e.projectid none lt rows))
  unfolding history_get_all get_last last_rows row_of limit result_of status_of
  history_get_all-history_create accepts now lt e rows known h =
      let r = row_of isoformat now e in
      let asked = is_asked isoformat e.projectid none in
      let stored = stored_lem accepts now e rows known in
      (
        ap (λ x. x.0) stored,
        ap (λ x. history_get_all isoformat e.projectid (suc lt) x.1) stored
            ∙ ap (λ sorted. answer isoformat (map (result_of isoformat) (limit (suc lt) sorted)))
                (ap (order_desc time) (select-append asked r rows (teq_refl e.projectid))
                  ∙ order_desc-append r (select asked rows)
                      (all_of_select asked (λ v. ltb (time v) now) rows h)),
      )
