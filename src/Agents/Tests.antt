-- ===== src/Agents/Tests.antt =====
-- Runs of the register of agents.
use labfunctions.Prelude.{◌≡◌, refl, List, [], ◌∷◌, Option, none, some}
use labfunctions.Text.{Text, codes}
use labfunctions.Text.{member}
use labfunctions.Dict.{lookup}
use labfunctions.Samples.{
  quote, unquote, unquote-quote, quote_all, unquote_all, unquote_all-quote_all, then_read,
}
use labfunctions.Redis.Memory.{Db, memory, empty}
use labfunctions.Agents.Types.{AgentNode}
use labfunctions.Agents.Register.{NodeJson, register, unregister, remove}
use labfunctions.Agents.Register.Keys.{IsTyped}
use labfunctions.Agents.Register.Agents.{IsConsistent, register-IsConsistent}

abbrev as_list : Option Text → List Text
as_list none = []
as_list (some t) = t ∷ []

abbrev as_option : List Text → Option Text
as_option [] = none
as_option (t ∷ _) = some t

abbrev write_node : AgentNode → Text
write_node node =
    node.birthday
    ∷ quote node.ip_address (
        quote node.name (
          quote node.pid (
            quote node.cluster (
              quote_all node.qnames
                (quote_all node.workers (quote_all (as_list node.machine_id) []))))))

abbrev read_node : Text → Option AgentNode
read_node [] = none
read_node (birthday ∷ s) = then_read (unquote s) (λ ip_address s. then_read (unquote s) (λ name s.
    then_read (unquote s) (λ pid s. then_read (unquote s) (λ cluster s.
      then_read (unquote_all s) (λ qnames s. then_read (unquote_all s) (λ workers s.
        then_read (unquote_all s) (λ machine_id s. some (record {
          ip_address = ip_address;
          name = name;
          pid = pid;
          qnames = qnames;
          cluster = cluster;
          workers = workers;
          birthday = birthday;
          machine_id = as_option machine_id;
        }))))))))

as_option-as_list : (o : Option Text) → as_option (as_list o) ≡ o
as_option-as_list none = refl
as_option-as_list (some t) = refl

read-write_node : (node : AgentNode) → read_node (write_node node) ≡ some node
read-write_node node = simp (unquote-quote, unquote_all-quote_all, as_option-as_list)

abbrev json : NodeJson
json = record {
  dumps = write_node;
  loads = read_node;
  loads-dumps = read-write_node;
  dumps-filled = λ node. refl;
}

abbrev node : AgentNode
node = record {
  ip_address = codes "10.0.0.2";
  name = codes "default.n1";
  pid = codes "7";
  qnames = codes "cpu" ∷ [];
  cluster = codes "default";
  workers = codes "default.n1.w0" ∷ [];
  birthday = 1650000000;
  machine_id = none;
}

empty-IsTyped : IsTyped memory empty
unfolding lookup
empty-IsTyped = record { list = refl; clusters = refl; cluster = λ c. refl }

empty-IsConsistent : IsConsistent memory json empty
unfolding lookup member
empty-IsConsistent x = refl

abbrev name : Text
name = codes "default.n1"

abbrev one_agent : Db
one_agent = register memory json node empty

register-IsConsistent_example :
    (IsTyped memory one_agent × IsConsistent memory json one_agent)
    × (IsTyped memory (unregister memory json node empty)
        × IsConsistent memory json (unregister memory json node empty))
    × (IsTyped memory (remove memory json name empty)
        × IsConsistent memory json (remove memory json name empty))
register-IsConsistent_example =
    register-IsConsistent memory json node name empty empty-IsTyped empty-IsConsistent
