-- ===== src/Runtimes/Table/Lookup.antt =====
-- Which runtime is found.
use labfunctions.Prelude.{
  ℕ, ◌≡◌, refl, sym, ap, ◌∙◌, Bool, true, false, not, ◌&&◌, ◌||◌, List, [], ◌∷◌, ◌++◌, Option, none,
  some, leb, arith, Bool-cases, inl, inr, if◌then◌else◌,
}
use labfunctions.Text.{Text, teq, teq_refl, eq_of_teq, select, all, any, is_empty}
use labfunctions.Effects.{ok}
use labfunctions.Dict.{found}
use labfunctions.Query.{first, first-append, order_desc}
use labfunctions.Query.Order.{
  is_latest_first, is_latest_first-order_desc, all-order_desc, any-order_desc,
}
use labfunctions.Types.Runtimes.{RuntimeReq, RuntimeData}
use labfunctions.Runtimes.Table.{
  RuntimeModel, model2runtime, rid_of, row_of, has_rid, is_named, is_version, create, head, chosen,
  get_runtime, shown,
}

same_rid :
    (p n v p' n' v' : Text)
    → (teq p p' && teq n n' && teq v v') ≡ true
    → rid_of p n v ≡ rid_of p' n' v'
same_rid p n v p' n' v' h =
    ap (λ x. rid_of x n v) (eq_of_teq p p' (ground (arith, h)))
    ∙ ap (λ x. rid_of p' x v) (eq_of_teq n n' (ground (arith, h)))
    ∙ ap (λ x. rid_of p' n' x) (eq_of_teq v v' (ground (arith, h)))

version_rid :
    (p n v rid name version : Text) (o : Option Text)
    → (elim o [ none ↦ true | some q ↦ teq rid (rid_of q name version) ]) ≡ true
    → (elim o as (λ x. Bool) [ none ↦ false | some q ↦ teq q p ]) ≡ true
    → teq name n ≡ true
    → teq version v ≡ true
    → teq rid (rid_of p n v) ≡ true
version_rid p n v rid name version none h k l m = cc
version_rid p n v rid name version (some q) h k l m =
    ap (teq rid) (sym (same_rid q name version p n v (ground (arith, k, l, m)))) ∙ h

admitted : {A : Type 0} → (b : Bool) (x y : A) → b ≡ true → (if b then x else y) ≡ x
admitted true x y h = refl
admitted false x y h = cc

module _ {V : Type 0} (isoformat : ℕ → Text) where
  -- A row has the id that `create` makes, unless its project is gone.
  abbrev pub has_own_rid : RuntimeModel V → Bool
  has_own_rid r = elim r.project_id [
    | none ↦ true
    | some p ↦ teq r.runtimeid (rid_of p r.runtime_name r.version)
  ]

  other_version :
      (p n v : Text) (r : RuntimeModel V)
      → has_own_rid r ≡ true
      → has_rid isoformat (rid_of p n v) r ≡ false
      → is_version isoformat p n v r ≡ false
  other_version p n v r h k = elim (Bool-cases (is_version isoformat p n v r)) [
    | inl e ↦
        let a =
          version_rid p n v r.runtimeid r.runtime_name r.version r.project_id h (ground (arith, e))
            (ground (arith, e)) (ground (arith, e)) in
        ground (arith, a, k)
    | inr e ↦ e
  ]

  no_version :
      (p n v : Text) (rows : List (RuntimeModel V))
      → all has_own_rid rows ≡ true
      → any (has_rid isoformat (rid_of p n v)) rows ≡ false
      → first (is_version isoformat p n v) rows ≡ none
  unfolding first
  no_version p n v [] h k = refl
  no_version p n v (r ∷ rows) h k = ground (arith, other_version p n v r, no_version p n v rows)

  is_version-row_of :
      (id now : ℕ) (rq : RuntimeReq V)
      → is_version isoformat rq.project_id rq.runtime_name rq.version (row_of isoformat id now rq)
        ≡ true
  unfolding row_of
  is_version-row_of id now rq =
      ground (arith, teq_refl rq.project_id, teq_refl rq.runtime_name, teq_refl rq.version)

  chosen_version :
      (p n v : Text) (rows : List (RuntimeModel V))
      → is_empty v ≡ false
      → chosen isoformat p n (some v) rows ≡ first (is_version isoformat p n v) rows
  unfolding chosen
  chosen_version p n [] rows h = cc
  chosen_version p n (c ∷ v) rows h = refl

  first-new_row :
      (q : RuntimeModel V → Bool) (rows : List (RuntimeModel V)) (r : RuntimeModel V)
      → first q rows ≡ none
      → q r ≡ true
      → first q (rows ++ r ∷ []) ≡ some r
  unfolding first
  first-new_row q rows r h k = first-append q rows (r ∷ []) ∙ rw h (rw k)

  -- What a request for a runtime is answered about the row that `create` made.
  abbrev pub answered : ℕ → ℕ → RuntimeReq V → RuntimeData V
  answered id now rq = record {
    id = some id;
    runtimeid = rid_of rq.project_id rq.runtime_name rq.version;
    runtime_name = rq.runtime_name;
    docker_name = rq.docker_name;
    spec = rq.spec;
    project_id = rq.project_id;
    registry = rq.registry;
    created_at = some (isoformat now);
    version = rq.version;
  }

  -- In a table of rows with the ids they were made with, a runtime that is created in a project that
  -- exists, with an id that is not taken, is found under its project, its name and its version,
  -- when the version is not empty.
  pub get_runtime-create :
      (known : Text → Bool) (id now : ℕ) (rq : RuntimeReq V) (rows : List (RuntimeModel V))
      → all has_own_rid rows ≡ true
      → known rq.project_id ≡ true
      → any (has_rid isoformat (rid_of rq.project_id rq.runtime_name rq.version)) rows ≡ false
      → is_empty rq.version ≡ false
      → ((create isoformat known id now rq rows).0 ≡ true)
        × (get_runtime isoformat rq.project_id rq.runtime_name
              (some rq.version)
              (create isoformat known id now rq rows).1
            ≡ ok (some (answered id now rq)))
  unfolding create get_runtime model2runtime row_of
  get_runtime-create known id now rq rows named there new version =
      let row = row_of isoformat id now rq in
      let e =
        admitted {A = Bool × List (RuntimeModel V)}
          (known rq.project_id
            && not (any (has_rid isoformat (rid_of rq.project_id rq.runtime_name rq.version)) rows))
          (true, rows ++ row ∷ []) (false, rows) (ground (arith, there, new)) in
      (
        ap (λ x. x.0) e,
        ap
              (λ (x : Bool × List (RuntimeModel V)).
                get_runtime isoformat rq.project_id rq.runtime_name (some rq.version) x.1)
              e
            ∙ ap (shown isoformat) (
                chosen_version rq.project_id rq.runtime_name rq.version (rows ++ row ∷ []) version
                ∙ first-new_row (is_version isoformat rq.project_id rq.runtime_name rq.version) rows
                    row (no_version rq.project_id rq.runtime_name rq.version rows named new)
                    (is_version-row_of id now rq))
            ∙ refl,
      )

  abbrev all_before : List (RuntimeModel V) → Option (RuntimeModel V) → Bool
  all_before rows none = true
  all_before rows (some r) = all (λ x. leb x.created_at r.created_at) rows

  latest_head :
      (rows : List (RuntimeModel V)) (r : RuntimeModel V)
      → is_latest_first (λ x. x.created_at) rows ≡ true
      → head isoformat rows ≡ some r
      → all (λ x. leb x.created_at r.created_at) rows ≡ true
  latest_head [] r h e = cc
  latest_head (x ∷ rows) r h e = sym (ap (all_before (x ∷ rows)) e) ∙ ground (arith, h)

  all-head :
      (q : RuntimeModel V → Bool) (rows : List (RuntimeModel V)) (r : RuntimeModel V)
      → all q rows ≡ true
      → head isoformat rows ≡ some r
      → q r ≡ true
  all-head q [] r h e = cc
  all-head q (x ∷ rows) r h e = ground (arith, h, e)

  all-select :
      (t q : RuntimeModel V → Bool) (rows : List (RuntimeModel V))
      → all q (select t rows) ≡ all (λ x. not (t x) || q x) rows
  unfolding select
  all-select t q [] = refl
  all-select t q (r ∷ rows) = ground (arith, all-select t q rows)

  all_self :
      (t : RuntimeModel V → Bool) (rows : List (RuntimeModel V))
      → all (λ x. not (t x) || t x) rows ≡ true
  all_self t [] = refl
  all_self t (r ∷ rows) = ground (arith, all_self t rows)

  chosen_latest_of :
      (p n : Text) (rows : List (RuntimeModel V)) (r : RuntimeModel V)
      → chosen isoformat p n none rows ≡ some r
      → (is_named isoformat p n r ≡ true)
        × (all (λ x. not (is_named isoformat p n x) || leb x.created_at r.created_at) rows ≡ true)
  unfolding chosen
  chosen_latest_of p n rows r e =
      let named = is_named isoformat p n in
      let asked = select named rows in
      let sorted = order_desc (λ x. x.created_at) asked in
      (
        all-head named sorted r
            (all-order_desc (λ x. x.created_at) named asked
              ∙ all-select named named rows
              ∙ all_self named rows)
            e,
        sym (all-select named (λ x. leb x.created_at r.created_at) rows)
            ∙ sym (all-order_desc (λ x. x.created_at) (λ x. leb x.created_at r.created_at) asked)
            ∙ latest_head sorted r (is_latest_first-order_desc (λ x. x.created_at) asked) e,
      )

  -- A row of the project and of the name that are asked for.
  abbrev pub is_wanted : Text → Text → RuntimeModel V → Bool
  is_wanted p n r = elim r.project_id [ none ↦ false | some q ↦ teq q p ] && teq r.runtime_name n

  -- A row that is wanted, and than which no wanted row is later.
  abbrev pub is_latest : Text → Text → List (RuntimeModel V) → Option (RuntimeModel V) → Bool
  is_latest p n rows none = true
  is_latest p n rows (some r) =
      is_wanted p n r && all (λ x. not (is_wanted p n x) || leb x.created_at r.created_at) rows

  found-head : (rows : List (RuntimeModel V)) → found (head isoformat rows) ≡ any (λ x. true) rows
  found-head [] = refl
  found-head (r ∷ rows) = refl

  any-select :
      (q : RuntimeModel V → Bool) (rows : List (RuntimeModel V))
      → any (λ x. true) (select q rows) ≡ any q rows
  unfolding select
  any-select q [] = refl
  any-select q (r ∷ rows) = ground (arith, any-select q rows)

  found-chosen :
      (p n : Text) (rows : List (RuntimeModel V))
      → found (chosen isoformat p n none rows) ≡ any (is_wanted p n) rows
  unfolding chosen
  found-chosen p n rows =
      let asked = select (is_wanted p n) rows in
      found-head (order_desc (λ x. x.created_at) asked)
      ∙ any-order_desc (λ x. x.created_at) (λ x. true) asked
      ∙ any-select (is_wanted p n) rows

  is_latest-chosen :
      (p n : Text) (rows : List (RuntimeModel V)) (o : Option (RuntimeModel V))
      → chosen isoformat p n none rows ≡ o
      → is_latest p n rows o ≡ true
  is_latest-chosen p n rows none e = refl
  is_latest-chosen p n rows (some r) e =
      let (named, last) = chosen_latest_of p n rows r e in rw (named, last)

  -- Without a version, a runtime is found exactly when the table has one of the project and of the
  -- name that are asked for, and the one that is found is of this project and of this name, and no
  -- other one of them is later.
  pub chosen_latest :
      (p n : Text) (rows : List (RuntimeModel V))
      → (found (chosen isoformat p n none rows) ≡ any (is_wanted p n) rows)
        × (is_latest p n rows (chosen isoformat p n none rows) ≡ true)
  chosen_latest p n rows = (found-chosen p n rows, is_latest-chosen p n rows _ refl)
