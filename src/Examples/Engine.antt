-- ===== src/Examples/Engine.antt =====
-- Theorems about the probes of the engine, at concrete inputs.
use sub_hub.Common.{
  ℕ, zero, suc, ◌≡◌, refl, true, false, none, some, List, [], ◌∷◌, ◌++◌, Text, lit, text_eq, arith,
  contains_text, join, replace_char, to_ascii_lowercase, trim_matches, trim, Option,
}
use sub_hub.Common.Float.{float_zero}
use sub_hub.Model.Proxy.{Proxy, ss, new, as_str, ss_method_value}
use sub_hub.Model.Json.{object, member, end, number, unsigned}
use sub_hub.Common.Decimal.{decimal}
use sub_hub.Model.Fingerprint.{fingerprint, esc, extra_parts, credential}
use sub_hub.SpeedTest.{SpeedTestResult}
use sub_hub.Server.Engine.Config.{escape_yaml_scalar, batch_names}
use sub_hub.Server.Engine.Config.Scalar.{read_scalar, read_scalar-escape_yaml_scalar}
use sub_hub.Server.Engine.Config.Names.{Addressed, batch_names_total}
use sub_hub.Resources.{Texts}
use sub_hub.Server.Engine.Probe.{DelayReply, answer, failure, no_response, no_download, no_page}
use sub_hub.Server.Engine.Batches.{Launch, World, run_engine_passes}
use sub_hub.Server.Engine.Batches.Missing.{missing_engine-promotes_none}
use sub_hub.Server.Persist.{Settings, update_proxy, rows, update_node, is_loopback_server}
use sub_hub.Common.Lookup.{lookup_last}
use sub_hub.Server.Engine.Batches.Aligned.{run_engine_passes-aligned}
use sub_hub.Server.Engine.Batches.Numbered.{numbered, latency_of}

-- A node without its required fields.
abbrev first : Proxy
first = new (lit "a") ss (lit "h.example") 443

read_scalar-escape_yaml_scalar_example :
    read_scalar (escape_yaml_scalar (lit "x\"\nallow-lan: true") ++ lit "]")
    ≡ some (lit "x\"\nallow-lan: true", lit "]")
read_scalar-escape_yaml_scalar_example =
    read_scalar-escape_yaml_scalar (lit "x\"\nallow-lan: true") (lit "]") refl

abbrev runnable : Proxy
runnable = record first { method = some (lit "aes-128-gcm"); password = some (lit "pw") }

batch_names_total_example :
    (ns : List (Option Text)) × (batch_names [] (runnable ∷ runnable ∷ first ∷ []) ≡ some ns)
    × Addressed [] (runnable ∷ runnable ∷ first ∷ []) ns
batch_names_total_example = batch_names_total (runnable ∷ runnable ∷ first ∷ []) (omega arith)

abbrev launch : Launch
launch = record {
  ports = true;
  config_file = true;
  spawned = true;
  mixed_port = record { exited = false; accepts = true } ∷ [];
  client = true;
}

-- A node that was found available and accepts a connection.
abbrev stored_node : Proxy
stored_node = record runnable { available = some true }

abbrev accepted : SpeedTestResult
accepted = record {
  fingerprint = fingerprint stored_node;
  name = stored_node.name;
  tcp_latency_ms = some 20;
  http_latency_ms = none;
  available = true;
  download_speed_bps = none;
  error = none;
}

abbrev settings : Settings
settings = record {
  parse_ip = λ s. none;
  engine_configured = true;
  now = 99;
  remove_after_fails = 0;
}

-- The first answer has no delay, and the second one has.
abbrev delays : ℕ → DelayReply
delays zero = failure
delays (suc n) = answer (object (member (lit "delay") (number (unsigned 524)) end))

abbrev world : World
world = record {
  bin_exists = false;
  nodes = λ i. record {
    launch = launch;
    replies = λ n. no_response;
    downloads = λ url n. no_download;
    bodies = λ url. none;
    pages = λ id. no_page;
    task_ends = true;
  };
  batches = λ b. record {
    launch = launch;
    controller = record { exited = false; accepts = true } ∷ [];
    delays = λ i. delays;
    task_ends = λ i. true;
  };
}

abbrev texts : Texts
texts = record { json = λ s. none; to_uppercase = λ s. s; to_lowercase = λ s. s }

run_engine_passes-aligned_example :
    run_engine_passes texts
      (λ n x. float_zero)
      true
      (record world { bin_exists = true })
      (runnable ∷ first ∷ [])
    ≡ some (numbered (latency_of world.batches) 0 (runnable ∷ first ∷ []), none ∷ none ∷ [])
run_engine_passes-aligned_example =
    run_engine_passes-aligned texts (λ n x. float_zero) true (record world { bin_exists = true })
      (runnable ∷ first ∷ [])

engine_passes :
    run_engine_passes texts (λ n x. float_zero) true world (stored_node ∷ [])
    ≡ some (none ∷ [], none ∷ [])
unfolding run_engine_passes
engine_passes = refl

still_up :
    (update_proxy settings
      (rows (none ∷ []) (none ∷ []) (stored_node ∷ []) (accepted ∷ []))
      stored_node).available
    ≡ some true
unfolding update_proxy rows fingerprint lookup_last update_node is_loopback_server text_eq
    contains_text join as_str esc replace_char decimal extra_parts credential ss_method_value
    to_ascii_lowercase trim_matches trim
still_up = refl

missing_engine-promotes_none_example : stored_node.available ≡ some true
missing_engine-promotes_none_example =
    missing_engine-promotes_none texts (λ n x. float_zero) world settings (stored_node ∷ [])
      (accepted ∷ []) (none ∷ []) (none ∷ []) stored_node refl refl engine_passes still_up
