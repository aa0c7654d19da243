-- ===== src/Lib.antt =====
-- A model of the core of labfunctions: a service that runs notebooks as workflows. Clients talk to
-- a web service with tokens, the service builds execution contexts and puts them on queues, agents
-- on other machines register themselves and run the tasks, and libraries help notebooks to cache
-- results and to send events.
--
-- The files and the code that they follow:
--   Text, Dict, Effects, Prelude: texts as lists of code points with the methods of `str` that the
--     program calls, dictionaries as association lists, and methods that change a state and may
--     raise. A number is a native ℕ.
--   Redis: the commands of Redis that the program calls, as an interface with their documented
--     laws; Redis/Memory.antt is an instance.
--   Security/Scopes.antt: labfunctions/security/scopes.py, `scope2dict` and `validate`; Scopes/Held.antt
--     says without the dictionary what a scope reads and which one of a list counts.
--   Security/Store.antt: labfunctions/security/redis_tokens.py, over Redis; Store/Refines.antt
--     fills the interface `TokenStore` (security/base.py) that the authentication takes.
--   Security/Auth.antt: labfunctions/security/authentication.py, class `Auth`. The JWT library is a
--     parameter, the clock and the random tokens are arguments.
--   Web/Auth.antt: `refresh_handler` of security/auth_bp.py, `protected` of security/web.py.
--   Client/AuthFlow.antt: labfunctions/client/base.py, class `AuthFlow`, against a server that is a
--     function on states.
--   Ident: labfunctions/executors/execid.py and `Hash96` of labfunctions/hashes.py.
--   Utils: `secure_filename`, `normalize_name` and `format_bytes` of labfunctions/utils.py. Doubles
--     are modelled exactly where `format_bytes` uses them.
--   Events.antt: labfunctions/events.py, the text form of server-sent events; Events/Stream.antt: its
--     streams, and the listener of labfunctions/web/events_bp.py.
--   Query.antt: the queries of the database library on a table that is a list of rows.
--   Workflows.antt: labfunctions/managers/workflows_mg.py; Workflows/Jobs.antt: `JobManager` of
--     labfunctions/control/scheduler.py; Workflows/Web.antt: labfunctions/web/workflows_bp.py.
--   Projects.antt: labfunctions/managers/projects_mg.py; Projects/Web.antt: web/projects_bp.py, with
--     the upload of a bundle in Projects/Uploads.antt and the request for a build in
--     Projects/Builds.antt.
--   History.antt: labfunctions/managers/history_mg.py and web/history_bp.py; History/Outputs.antt: the
--     notebooks that executions leave, with the client that sends them.
--   Runtimes/Table.antt: labfunctions/managers/runtimes_mg.py and web/runtimes_bp.py.
--   Stores: labfunctions/io. Stores/Local.antt is kv_local.py over the interface of a file system of
--     Stores/Files.antt, Stores/Http.antt is kv_files.py, Stores/Chunks.antt the loops that read by
--     pieces; Stores/Runs.antt sets sequences of calls beside the same calls of a map.
--   Executors: labfunctions/executors, with `DockerCommand.run` of labfunctions/commands.py. Docker,
--     papermill and the client of the service are parameters. Executors/Once.antt joins the executor
--     outside of a container with the command in it.
--   Control.antt: labfunctions/control/tasks.py, the dispatchers; Control/Machines.antt: its tasks of
--     machines, over the cluster control.
--   Types: the records of labfunctions/types.
--   Notebooks/Context.antt: labfunctions/notebooks/context.py; Notebooks/Globals.antt: what the cache
--     reads of it.
--   Cache.antt: labfunctions/io/cache.py.
--   Agents: labfunctions/control_plane/register.py, class `AgentRegister`, over Redis, and the workers
--     of the agents.
--   Users.antt: labfunctions/managers/users_mg.py and security/password.py: the table of users as a
--     list of rows. Web/Login.antt logs a user in.
--   Cluster.antt: labfunctions/cluster/control.py, with the records of cluster/types.py.
--   Client/LabState.antt: labfunctions/client/labstate.py. Client/Workflows.antt:
--     labfunctions/client/workflows_client.py, the push of workflows, over a server that is a function
--     on states; Client/Workflows/Server.antt makes one of the handlers. Client/Events.antt:
--     `events_listen` of client/base.py.
--   Secrets.antt: labfunctions/secrets.py, with the cipher as a parameter.
--   Builds.antt: the image builds of labfunctions/commands.py and runtimes/builder.py, with Docker as a
--     parameter. Builds/Bundled.antt joins the client, the store and the builder.
--   Runtimes.antt: labfunctions/runtimes/context.py.
--   Scheduler.antt: labfunctions/control/scheduler.py, contexts and jobs; the queues are a list.
--     Scheduler/Older.antt: labfunctions/scheduler.py, the older one.
-- The modules `Tests` run the definitions on examples, with the encodings of Samples.antt.
--
-- Fuel: `decimal` divides by ten at most n + 1 times, and `ulp` doubles at most n times. Reading n
-- bytes by pieces takes at most n + 1 reads, `_simple_retry` tests its condition at most four times,
-- and the listener of events has its fuel as an argument, with the bound in its theorem. Every other
-- loop is structural recursion.
--
-- A handler that is protected is modelled behind `protected`: what is said of its answer holds for a
-- request that was let in. Sessions are transactions: what a request changes before an exception
-- that nothing catches is not kept.
--
-- The constraints of labfunctions/models.py are checked by the database, on what an operation asks it
-- to store: unique columns stand in the definitions `accepts`, `clashes` and `is_unique`, and a foreign
-- key is a parameter where an operation can break it, since SQLite, the default, does not enforce it.
--
-- The lines of a response are given to `events_listen` with their ends, each as a line feed, as the
-- HTTP library of the lock file does. What the server reads of the query of an address is a parameter,
-- as the client writes values into it without escapes. The directories that a file is written to are there. A push writes its state to the
-- file as it is; the form of the file is the YAML library's.
--
-- Not modelled: the command line, settings, the classes of the database library, cloud providers,
-- SSH, notifications, the archives of bundles and the methods of the HTTP clients that hand on one
-- answer, which call libraries and do little of their own; and the idle times of workers.
pub mod Prelude
pub mod Text
pub mod Dict
pub mod Effects
pub mod Query
pub mod Redis
pub mod Utils
pub mod Ident
pub mod Control
pub mod Events
pub mod Executors
pub mod Types
pub mod Notebooks
pub mod History
pub mod Builds
pub mod Cache
pub mod Agents
pub mod Secrets
pub mod Security
pub mod Stores
pub mod Web
pub mod Workflows
pub mod Client
pub mod Users
pub mod Scheduler
pub mod Runtimes
pub mod Projects
pub mod Cluster
pub mod Samples
