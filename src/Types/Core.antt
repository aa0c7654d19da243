-- ===== src/Types/Core.antt =====
-- labfunctions/types/core.py.
use labfunctions.Prelude.{ℕ, Bool, false, List, Option, none}
use labfunctions.Text.{Text, codes}
use labfunctions.Dict.{Dict}

pub record ScheduleData : Type 0 where
  pub start_in_min : ℕ
  pub repeat : Option ℕ
  pub cron : Option Text
  pub interval : Option Text

pub record NbTask (V : Type 0) : Type 0 where
  pub nb_name : Text
  pub params : Dict V
  pub remote_input : Option Text
  pub remote_output : Option Text
  pub runtime : Option Text
  pub version : Option Text
  pub machine : Text
  pub cluster : Text
  pub gpu_support : Bool
  pub description : Option Text
  pub timeout : ℕ
  pub notifications_ok : Option (List Text)
  pub notifications_fail : Option (List Text)

abbrev pub machine_type : Text
machine_type = codes "cpu"

abbrev pub cluster_name : Text
cluster_name = codes "default"

-- The defaults of the fields that a request may leave out.
abbrev pub nb_task : {V : Type 0} → Text → Dict V → NbTask V
nb_task nb_name params = record {
  nb_name = nb_name;
  params = params;
  remote_input = none;
  remote_output = none;
  runtime = none;
  version = none;
  machine = machine_type;
  cluster = cluster_name;
  gpu_support = false;
  description = none;
  timeout = 10800;
  notifications_ok = none;
  notifications_fail = none;
}

pub record ExecutionNbTask (V : Type 0) : Type 0 where
  pub projectid : Text
  pub wfid : Text
  pub execid : Text
  pub nb_name : Text
  pub params : Dict V
  pub runtime : Text
  pub pm_input : Text
  pub pm_output : Text
  pub output_name : Text
  pub output_dir : Text
  pub error_dir : Text
  pub today : Text
  pub timeout : ℕ
  pub created_at : Text
  pub gpu_support : Bool
  pub cluster : Text
  pub machine : Text
  pub remote_input : Option Text
  pub remote_output : Option Text
  pub notifications_ok : Option (List Text)
  pub notifications_fail : Option (List Text)

pub record ExecutionResult (V : Type 0) : Type 0 where
  pub projectid : Text
  pub execid : Text
  pub wfid : Text
  pub name : Text
  pub params : Dict V
  pub input_ : Text
  pub error : Bool
  pub elapsed_secs : ℕ
  pub created_at : Text
  pub cluster : Option Text
  pub machine : Option Text
  pub runtime : Option Text
  pub docker_name : Option Text
  pub output_name : Option Text
  pub output_dir : Option Text
  pub error_dir : Option Text
  pub error_msg : Option Text

-- The integers that a status is taken from: `pos n` is n, and `negsuc n` is - (n + 1).
pub data ℤ : Type 0 where
  pos negsuc : ℕ → ℤ

pub record HistoryResult (V : Type 0) : Type 0 where
  pub wfid : Text
  pub status : ℤ
  pub result : Option (ExecutionResult V)
  pub execid : Option Text
  pub created_at : Option Text

pub record SimpleExecCtx (V : Type 0) : Type 0 where
  pub wfid : Option V
  pub execid : Option V
  pub execution_dt : V

pub record WorkflowDataWeb (V : Type 0) : Type 0 where
  pub alias : Text
  pub nbtask : NbTask V
  pub enabled : Bool
  pub wfid : Option Text
  pub schedule : Option ScheduleData
