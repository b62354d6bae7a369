-- ===== src/Models/Samples.antt =====
-- A model that is registered while the database does not answer.
use robot_data_harness.Common.{
  ◌≡◌, refl, ◌&&◌, none, some, [], String, ◌==◌, if◌then◌else◌, string_eq, get,
}
use robot_data_harness.Models.Schemas.{ModelSpec, is_allowed}
use robot_data_harness.Models.Registry.{
  no_engine, failing, working, World, register, get_spec, register_local,
}
use robot_data_harness.Models.ReadBack.{IsStorable, same_store, kept, get_spec-register}

abbrev captioner : ModelSpec String
captioner = record {
  model_id = "m1";
  model_name = "captioner";
  model_type = "caption";
  backend = "mock";
  endpoint_url = none;
  input_schema = "{}";
  output_schema = "{}";
  max_batch_size = 8;
  timeout_sec = 60;
  status = "ACTIVE";
  tags = "{}";
  created_at = none;
  updated_at = none;
}

abbrev fresh : World String
fresh = record { rows = []; local_models = [] }

captioner-IsStorable : IsStorable captioner
unfolding is_allowed
captioner-IsStorable = record { allowed = refl; named = refl; batch = refl; timeout = refl }

get_spec-register_example :
    get_spec "{}" (λ n. "t") no_engine "m1" (register (λ n. "t") failing 1 captioner fresh).1 ≡ (
      if same_store failing no_engine && captioner.model_id == "m1"
      then some (some (kept (λ n. "t") (λ n. "t") failing 1 captioner fresh))
      else get_spec "{}" (λ n. "t") no_engine "m1" fresh)
get_spec-register_example =
    get_spec-register "{}" (λ n. "t") (λ n. "t") failing no_engine 1 captioner fresh "m1"
      captioner-IsStorable

-- What was written while the database did not answer is not there when it answers again.
registration_lost :
    get_spec "{}" (λ n. "t") working "m1" (register (λ n. "t") failing 1 captioner fresh).1
    ≡ some none
unfolding get_spec register register_local get
registration_lost = refl
