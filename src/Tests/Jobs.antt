-- ===== src/Tests/Jobs.antt =====
-- Witnesses: management jobs, and the reserved bytes.
use clash_of_tokens.Base.{false, [], none, some}
use clash_of_tokens.Api.Jobs.{Job, Jobs, OperationVersion, Finish, no_jobs, new_job, admit_job}
use clash_of_tokens.Api.Budget.{Limits, Holding, Gateway, no_holding, admit}
use clash_of_tokens.Api.Budget.Balance

abbrev one_job : Jobs
one_job = (admit_job "a" "/admin/device/check" 1 "device" no_jobs).0

abbrev device_job : Job
device_job = new_job 0 "a" "/admin/device/check" 1 "device"

abbrev version_1 : OperationVersion
version_1 = record { revision = 1; vault = [] }

abbrev well : Finish
well = record {
  panicked = false;
  response = record { status = 200; body = []; overflow = false };
  committed = none;
  version = version_1;
  current = version_1;
  vault = [];
  named = none;
  valid_json = false;
}

abbrev limits : Limits
limits = record { max_buffered = 100000; max_output = 4096; max_body = 1000; ingress_places = 8 }

abbrev idle : Gateway
idle = record { buffered = 0; ingress = 0; rejected = 0 }

abbrev uploading : Holding
uploading = record no_holding { upload = 8214 }

abbrev busy_gateway : Gateway
busy_gateway = (admit limits (some 10) idle).0
