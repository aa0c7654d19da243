-- ===== src/Client/Workflows/Pending.antt =====
-- A push to a server that accepts the workflows that it is sent: nothing fails, each workflow of the
-- state has an id after it, and to push again sends nothing.
use labfunctions.Prelude.{
  ℕ, ◌≡◌, refl, Option, sym, ap, ◌∙◌, Bool, true, false, List, [], ◌∷◌, ◌++◌, some, append-nil,
  append_assoc, arith,
}
use labfunctions.Text.{Text, codes}
use labfunctions.Dict.{Dict, lookup, insert, values}
use labfunctions.Effects.{Result, ok, err, and_then}
use labfunctions.Stores.Files.{Done, done}
use labfunctions.Types.Core.{WorkflowDataWeb}
use labfunctions.Types.Projects.{ProjectData}
use labfunctions.Workflows.Web.{has_id}
use labfunctions.Client.AuthFlow.{Response}
use labfunctions.Client.LabState.{LabState, add_workflow}
use labfunctions.Client.Workflows.{
  WfCreateRsp, WfPushRsp, ClientError, Push, created_rsp, refreshed, after_create, push_one,
  push_loop, workflows_create, workflows_push, finished, pushed,
}
use labfunctions.Client.Workflows.Aliases.{
  by_alias, is_distinct, all_registered, values-by_alias, named, is_distinct-named, insert-middle,
  all-append,
}

-- The reply of a server that takes a workflow in.
pub record Accepts (r : Response) : Type 0 where
  pub status : r.status_code ≡ 201
  pub first_letter : ℕ
  pub letters : Text
  pub body : Dict Text
  pub json : r.json ≡ some body
  pub named : lookup (codes "wfid") body ≡ some (first_letter ∷ letters)

-- A server that takes in, one after the other and each in the state that the ones before have left,
-- the workflows of a list that have no id.
pub data AcceptsAll {V S : Type 0} (post : Text → WorkflowDataWeb V → S → Response × S)
    (projectid : Text) : List (WorkflowDataWeb V) → S → Type 0 where
  none_left : {s : S} → AcceptsAll post projectid [] s
  not_sent :
      {w : WorkflowDataWeb V} {ws : List (WorkflowDataWeb V)} {s : S}
      → has_id w.wfid ≡ true
      → AcceptsAll post projectid ws s
      → AcceptsAll post projectid (w ∷ ws) s
  taken :
      {w : WorkflowDataWeb V} {ws : List (WorkflowDataWeb V)} {s : S}
      → has_id w.wfid ≡ false
      → Accepts (post projectid w s).0
      → AcceptsAll post projectid ws (post projectid w s).1
      → AcceptsAll post projectid (w ∷ ws) s

module _ {V S : Type 0} (post put : Text → WorkflowDataWeb V → S → Response × S)
    (projectid : Text) where
  abbrev pub push_new : List (WorkflowDataWeb V) → Push V S → Result ClientError Done × Push V S
  push_new = push_loop post put projectid true false

  -- The push after a workflow that the server takes in.
  abbrev taken_in :
      (wd : WorkflowDataWeb V) (p : Push V S) → Accepts (post projectid wd p.server).0 → Push V S
  taken_in wd p a =
      let wfid = some (a.first_letter ∷ a.letters) in
      record p {
        created =
            p.created
            ++ record {
              status_code = 201;
              alias = wd.alias;
              msg = lookup (codes "msg") a.body;
              wfid = wfid;
            }
              ∷ [];
        state = add_workflow (named wfid wd) p.state;
        server = (post projectid wd p.server).1;
      }

  created_rsp-accepted :
      (wd : WorkflowDataWeb V) (r : Response) (a : Accepts r)
      → created_rsp wd r
        ≡ ok (record {
          status_code = 201;
          alias = wd.alias;
          msg = lookup (codes "msg") a.body;
          wfid = some (a.first_letter ∷ a.letters);
        })
  unfolding created_rsp
  created_rsp-accepted wd r a = rw (a.status, a.json, a.named) (rw a.status)

  push_one-new :
      (wd : WorkflowDataWeb V) (p : Push V S) (a : Accepts (post projectid wd p.server).0)
      → has_id wd.wfid ≡ false
      → push_one post put projectid true false wd p ≡ (ok done, taken_in wd p a)
  unfolding push_one workflows_create refreshed
  push_one-new wd p a new = rw new (
      ap (λ x. after_create true wd x (record p { server = (post projectid wd p.server).1 }))
        (created_rsp-accepted wd (post projectid wd p.server).0 a))

  push_one-old :
      (refresh : Bool) (wd : WorkflowDataWeb V) (p : Push V S)
      → has_id wd.wfid ≡ true
      → push_one post put projectid refresh false wd p ≡ (ok done, p)
  unfolding push_one
  push_one-old refresh wd p old = rw old

  push_loop-old :
      (ws : List (WorkflowDataWeb V)) (p : Push V S)
      → all_registered ws ≡ true
      → push_new ws p ≡ (ok done, p)
  unfolding push_loop
  push_loop-old [] p old = refl
  push_loop-old (w ∷ ws) p old =
      rw (push_one-old true w p (ground arith)) (push_loop-old ws p (ground arith))

  -- What is known of a push that has ended.
  abbrev pub Ends :
      Option ProjectData
      → List WfCreateRsp
      → List (Text × LabState V)
      → Result ClientError Done × Push V S
      → Type 0
  Ends project errors written m =
      (ws : List (WorkflowDataWeb V)) × (m.0 ≡ ok done)
      × (m.1.state.workflows ≡ by_alias ws)
      × (all_registered ws ≡ true)
      × (m.1.state.project ≡ project)
      × (m.1.errors ≡ errors)
      × (m.1.written ≡ written)

  push_loop-new :
      (ds ws : List (WorkflowDataWeb V)) (p : Push V S)
      → AcceptsAll post projectid ws p.server
      → p.state.workflows ≡ by_alias (ds ++ ws)
      → is_distinct (ds ++ ws) ≡ true
      → all_registered ds ≡ true
      → Ends p.state.project p.errors p.written (push_new ws p)
  unfolding push_loop add_workflow
  push_loop-new ds [] p none_left at once old =
      (ds, refl, at ∙ ap by_alias (append-nil ds), old, refl, refl, refl)
  push_loop-new ds (w ∷ ws) p (not_sent e rest) at once old = rw (push_one-old true w p e) (
      push_loop-new (ds ++ w ∷ []) ws p rest (at ∙ ap by_alias (sym (append_assoc ds (w ∷ []) ws)))
        (ap is_distinct (append_assoc ds (w ∷ []) ws) ∙ once)
        (all-append ds (w ∷ []) ∙ ground arith))
  push_loop-new ds (w ∷ ws) p (taken e a rest) at once old =
      let o = some (a.first_letter ∷ a.letters) in
      rw (push_one-new w p a e) (
        push_loop-new (ds ++ named o w ∷ []) ws (taken_in w p a) rest
          (ap (insert w.alias (named o w)) at
            ∙ insert-middle o w ds ws once
            ∙ ap by_alias (sym (append_assoc ds (named o w ∷ []) ws)))
          (ap is_distinct (append_assoc ds (named o w ∷ []) ws)
            ∙ is_distinct-named o w ds ws
            ∙ once)
          (all-append ds (named o w ∷ []) ∙ ground arith))

  abbrev push_to : Text → LabState V → S → Result ClientError WfPushRsp × Push V S
  push_to f state s = workflows_push post put projectid true false (some f) (state, s)

  abbrev start : LabState V → S → Push V S
  start state s = record { created = []; errors = []; state = state; server = s; written = [] }

  -- A push of a state with a project.
  push_to-project :
      (f : Text) (ws : List (WorkflowDataWeb V)) (state : LabState V) (s : S) (pd : ProjectData)
      → state.project ≡ some pd
      → state.workflows ≡ by_alias ws
      → push_to f state s
        ≡ and_then
            (push_new ws (start state s)).0
            (λ _. finished true (some f))
            (push_new ws (start state s)).1
  unfolding workflows_push
  push_to-project f ws state s pd there at =
      ap (λ o. pushed post put projectid true false (some f) o (start state s)) there
      ∙ ap
          (λ wds.
            and_then (push_new wds (start state s)).0 (λ _. finished true (some f))
              (push_new wds (start state s)).1)
          (ap values at ∙ values-by_alias ws)

  -- A state whose workflows all have an id: nothing is sent.
  push_to-old :
      (g : Text) (ws : List (WorkflowDataWeb V)) (state : LabState V) (s : S) (pd : ProjectData)
      → state.project ≡ some pd
      → state.workflows ≡ by_alias ws
      → all_registered ws ≡ true
      → push_to g state s ≡ (
        ok (record { created = []; errors = [] }),
        record { created = []; errors = []; state = state; server = s; written = (g, state) ∷ [] },
      )
  push_to-old g ws state s pd there at old =
      push_to-project g ws state s pd there at ∙ rw (push_loop-old ws (start state s) old) refl

  -- The end of a push, when its loop has ended well.
  abbrev pub Settled : Text → Text → Result ClientError WfPushRsp × Push V S → Type 0
  Settled f g m =
      (m.0 ≡ ok (record { created = m.1.created; errors = [] }))
      × (m.1.written ≡ (f, m.1.state) ∷ [])
      × ((ws : List (WorkflowDataWeb V)) × (m.1.state.workflows ≡ by_alias ws)
          × (all_registered ws ≡ true))
      × (push_to g m.1.state m.1.server ≡ (
        ok (record { created = []; errors = [] }),
        record {
          created = [];
          errors = [];
          state = m.1.state;
          server = m.1.server;
          written = (g, m.1.state) ∷ [];
        },
      ))

  finished-Settled :
      (f g : Text) (pd : ProjectData) (m : Result ClientError Done × Push V S)
      → Ends (some pd) [] [] m
      → Settled f g (and_then m.0 (λ _. finished true (some f)) m.1)
  finished-Settled f g pd (ok done, p) (ws, well, at, old, there, none_failed, not_yet) = (
    ap (λ x. ok (record { created = p.created; errors = x })) none_failed,
    ap (λ x. (f, p.state) ∷ x) not_yet,
    (ws, at, old),
    push_to-old g ws p.state p.server pd there at old,
  )
  finished-Settled f g pd (err e, p) (ws, well, at, old, there, none_failed, not_yet) = cc

  -- The state has a project, its workflows stand under their aliases, each once, and the server takes
  -- in those of them that have no id, one after the other: then the push of the new workflows ends
  -- with no error, every workflow of the state has an id, this state is what is written to the file,
  -- and a second push of it sends nothing, creates nothing and leaves the server and the state as
  -- they are.
  pub workflows_push-Settled :
      (f g : Text) (ws : List (WorkflowDataWeb V)) (state : LabState V) (s : S) (pd : ProjectData)
      → AcceptsAll post projectid ws s
      → state.project ≡ some pd
      → state.workflows ≡ by_alias ws
      → is_distinct ws ≡ true
      → Settled f g (push_to f state s)
  workflows_push-Settled f g ws state s pd accepts there at once =
      let (all, well, by, old, project, none_failed, not_yet) =
        push_loop-new [] ws (start state s) accepts at once refl in
      rw (push_to-project f ws state s pd there at) (
        finished-Settled f g pd (push_new ws (start state s))
          (all, well, by, old, project ∙ there, none_failed, not_yet))
