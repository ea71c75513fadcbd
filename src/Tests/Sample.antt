-- ===== src/Tests/Sample.antt =====
-- A small instance.
use jaeger_operator.Base.{String, none, some, [], ◌∷◌, false}
use jaeger_operator.Kube.{text_kube}
use jaeger_operator.Util.Merge.{no_settings}
use jaeger_operator.Options.{Options, one}
use jaeger_operator.Jaeger.{Jaeger, JaegerSpec, Part, pos}

abbrev pub no_options : Options
no_options = record { opts = none; json = none }

abbrev pub collector_options : Options
collector_options = record {
  opts = some (("es.max-num-spans", one "100") ∷ ("log-level", one "debug") ∷ []);
  json = none;
}

abbrev pub a_part : Options → Part text_kube
a_part o = record { image = ""; options = o; common = no_settings }

abbrev pub a_spec : JaegerSpec text_kube
a_spec = record {
  strategy = "production";
  all_in_one = a_part no_options;
  query = a_part no_options;
  collector = a_part collector_options;
  ingester = a_part no_options;
  agent = a_part no_options;
  sidecar_security_context = none;
  ui = record { json = none };
  storage = record {
    storage_type = "elasticsearch";
    options = no_options;
    dependencies = record { enabled = none; schedule = "" };
    es_index_cleaner = record { enabled = none; number_of_days = none; schedule = "" };
    es_rollover = record { schedule = ""; read_ttl = "" };
    elasticsearch = record {
      name = "";
      node_count = pos 0;
      redundancy_policy = "";
      resources = none;
      use_cert_management = none;
      do_not_provision = false;
    };
  };
  ingress = record {
    enabled = none;
    security = "";
    openshift = record { sar = none; delegate_urls = ""; skip_logout = none };
    options = no_options;
  };
  common = no_settings;
}

abbrev pub instance_at : String → Jaeger text_kube
instance_at version = record {
  name = "tracing";
  namespace = "obs";
  labels = none;
  deletion_timestamp = none;
  spec = a_spec;
  status = record { version = version; phase = "Running" };
}
