-- ===== src/Agents/Workers.antt =====
-- labfunctions/control_plane/register.py: the workers of the agents. A worker is its name; the
-- workers of a queue are an argument, as RQ keeps them.
use labfunctions.Prelude.{
  ◌≡◌, refl, Bool, true, false, List, [], ◌∷◌, ◌++◌, Option, none, some, ap, ◌∙◌, Bool-cases, inl,
  inr,
}
use labfunctions.Text.{Text, teq, eq_of_teq, select}
use labfunctions.Text.Split.{split_once, rsplit_once}
use labfunctions.Dict.{Dict, lookup, insert, lookup-insert}
use labfunctions.Effects.{Result, ok, err}
use labfunctions.Redis.{Redis}
use labfunctions.Agents.Register.{NodeJson, RegisterError, get, qname}

-- `name.split(".")[0]`
unfoldable pub first_part : Text → Text
first_part name = elim (split_once b'.' name) [ none ↦ name | some (first, _) ↦ first ]

-- `name.rsplit(".", maxsplit=1)[0]`
unfoldable pub front_part : Text → Text
front_part name = elim (rsplit_once b'.' name) [ none ↦ name | some (front, _) ↦ front ]

abbrev pub or_nil : Option (List Text) → List Text
or_nil none = []
or_nil (some ws) = ws

-- A list in the dictionary is never empty, so the two branches of the loop are one.
unfoldable pub workers_loop : List Text → Dict (List Text) → Dict (List Text)
workers_loop [] d = d
workers_loop (w ∷ ws) d =
    workers_loop ws (insert (first_part w) (or_nil (lookup (first_part w) d) ++ w ∷ []) d)

unfoldable pub workers2dict : List Text → Dict (List Text)
unfolding workers_loop
workers2dict ws = workers_loop ws []

-- `workers` are those that RQ has under the name of a queue.
unfoldable pub get_workers_from_q : Text → (Text → List Text) → Text → List Text
get_workers_from_q cluster workers q = workers (qname cluster q)

-- A set is a list that only `member` reads.
unfoldable pub fronts : List Text → List Text
fronts [] = []
fronts (w ∷ ws) = front_part w ∷ fronts ws

unfoldable pub list_agents_by_queue : Text → (Text → List Text) → Text → List Text
unfolding get_workers_from_q fronts
list_agents_by_queue cluster workers q =
    fronts (get_workers_from_q cluster workers (qname cluster q))

module _ (redis : Redis) (json : NodeJson) where
  -- Whether the agent was found, and the workers that are sent a shutdown command. A missing agent
  -- has no `workers`, which raises the `AttributeError` that is handled.
  unfoldable pub kill_workers_from_agent :
      Text → redis.State → Result RegisterError (Bool × List Text)
  kill_workers_from_agent agent_name s = elim (get redis json agent_name s) [
    | err e ↦ err e
    | ok none ↦ ok (false, [])
    | ok (some node) ↦ ok (true, node.workers)
  ]

unfoldable pub kill_workers_from_queue : Text → (Text → List Text) → Text → List Text
kill_workers_from_queue cluster workers q = workers (qname cluster q)

-- The workers of a list whose names begin with an agent's name.
of_agent : Text → List Text → List Text
of_agent agt ws = select (λ w. teq (first_part w) agt) ws

append_nil : (xs : List Text) → xs ++ [] ≡ xs
append_nil [] = refl
append_nil (x ∷ xs) = rw (append_nil xs)

append-append : (xs ys zs : List Text) → (xs ++ ys) ++ zs ≡ xs ++ (ys ++ zs)
append-append [] ys zs = refl
append-append (x ∷ xs) ys zs = rw (append-append xs ys zs)

or_nil-workers_loop :
    (agt : Text) (ws : List Text) (d : Dict (List Text))
    → or_nil (lookup agt (workers_loop ws d)) ≡ or_nil (lookup agt d) ++ of_agent agt ws
unfolding workers_loop of_agent select
or_nil-workers_loop agt [] d = rw (append_nil (or_nil (lookup agt d)))
or_nil-workers_loop agt (w ∷ ws) d =
    let front = first_part w in
    let row = or_nil (lookup front d) ++ w ∷ [] in
    or_nil-workers_loop agt ws (insert front row d) ∙ elim (Bool-cases (teq front agt)) [
      | inl e ↦
          rw (lookup-insert front agt row d, e)
            (append-append (or_nil (lookup front d)) (w ∷ []) (of_agent agt ws)
              ∙ ap (λ a. or_nil (lookup a d) ++ w ∷ of_agent agt ws) (eq_of_teq front agt e))
      | inr e ↦ rw (lookup-insert front agt row d, e)
    ]

-- The workers that the dictionary keeps for an agent are those whose names begin with the agent's
-- name and a dot, or are it, in the order of the list.
pub lookup-workers2dict :
    (agt : Text) (ws : List Text)
    → or_nil (lookup agt (workers2dict ws)) ≡ select (λ w. teq (first_part w) agt) ws
unfolding workers2dict of_agent lookup
lookup-workers2dict agt ws = or_nil-workers_loop agt ws []
