-- ===== src/Config/Examples.antt =====
-- The theorems of the configuration at the defaults and at a file that completes them.
use bqcubbit.Base.{Text, codes, str_eq, Option, some, [], ◌≡◌, refl}
use bqcubbit.Config.{Config, no_project_id, validate, load, loaded, default}

abbrev complete : Config
complete = record default {
  source = record {
    project_id = codes "p";
    location = codes "EU";
    datasets = [];
    partition_column = [];
  };
  destination = record (default.destination) {
    endpoint = codes "s3.example.com";
    bucket = codes "b";
  };
}

default_run : validate default ≡ some no_project_id
unfolding validate
default_run = refl

abbrev one_file : Text → Option Text
one_file path = some (codes "source: ...")

abbrev to_complete : Text → Config → Option Config
to_complete content cfg = some complete

load_run : load [] one_file to_complete (codes "c.yaml") ≡ loaded complete
unfolding load validate str_eq
load_run = refl
