-- ===== src/Examples/Sample.antt =====
-- A registry with two images of one repository, and a policy that deletes the older one: data for runs
-- of internal/engine/engine.go.
use regbot.Base.{
  true, false, ℕ, ◌+◌, ◌*◌, ◌/◌, List, [], ◌∷◌, Str, none, some, ok, refl, codes, pos, pos_part,
  ltb, leb, Float64,
}
use regbot.Provider.{Artifact, Client, Time}
use regbot.Plan.{Action, Plan}
use regbot.Policy.Evaluate.{VisitsAll}
use regbot.Config.Types.{Config, Policy, Target}
use regbot.Engine.Planning.{Env}

-- Numbers of hundredths, rounded down.
abbrev pub hundredths : Float64 ℕ
hundredths = record {
  of_int = λ n. 100 * pos_part n;
  mul = λ a b. (a * b) / 100;
  div = λ a b. (a * 100) / b;
  round = λ a. ((a + 50) / 100) * 100;
  lt = ltb;
  le = leb;
}

abbrev pub image : Str → ℕ → Artifact
image id updated = record {
  provider = codes "oci";
  registry = codes "hub";
  repository = codes "app";
  id = id;
  digest = id;
  media_type = [];
  artifact_type = [];
  tags = codes "x" ∷ [];
  created_at = pos updated;
  updated_at = pos updated;
  size = pos 1;
  child_digests = [];
  referrer_ids = [];
  parsed_versions = [];
}

abbrev pub older_image : Artifact
older_image = image (codes "a") 1000

abbrev pub newer_image : Artifact
newer_image = image (codes "b") 2000

abbrev pub hub : Client
hub = record {
  preflight = ok (record { catalog = true; delete = true; referrers = true });
  list = λ calls target. ok (older_image ∷ newer_image ∷ []);
}

abbrev pub sample_target : Target
sample_target = record {
  registry = codes "hub";
  repositories = record { include = codes "*" ∷ []; exclude = [] };
}

abbrev pub sample_policy : Policy ℕ
sample_policy = record {
  targets = sample_target ∷ [];
  tags = record { parser = codes "calendar"; patterns = []; regex = [] };
  retention = record {
    keep_newer_than = pos 100;
    delete_older_than = pos 3000;
    keep_latest = pos 0;
    keep_at_least = pos 1;
    group_by = codes "app";
  };
  protect = record {
    tags = codes "latest" ∷ [];
    tag_patterns = [];
    digests = [];
    unparsed_tags = some false;
  };
  safety = record { max_delete_count = pos 1; max_delete_percent = 6000; require_tagged = none };
}

abbrev pub sample_config : Config ℕ
sample_config = record {
  version = codes "v1";
  apply = true;
  registries = [];
  policies = (codes "old", sample_policy) ∷ [];
  schedule = none;
  hooks = record { after_apply = none };
}

abbrev pub in_order : List Str → List Str
in_order keys = keys

pub in_order-VisitsAll : VisitsAll in_order
in_order-VisitsAll = λ keys key. refl

abbrev pub sample_env : Env
sample_env = record {
  compile = λ expression. none;
  visit_order = in_order;
  fingerprint = λ bytes. bytes;
  clients = (codes "hub", hub) ∷ [];
}

abbrev pub sample_now : Time
sample_now = pos 5000

abbrev pub sample_bytes : Str
sample_bytes = codes "policy"

abbrev pub sample_action : Action
sample_action = record {
  policy = codes "old";
  reason_codes = codes "eligible.older_than" ∷ [];
  artifact = older_image;
}

abbrev pub sample_plan : Plan
sample_plan = record {
  version = codes "v1";
  created_at = pos 5000;
  expires_at = pos 3600000005000;
  config_fingerprint = sample_bytes;
  actions = sample_action ∷ [];
  protected_count = 1;
  discovered_count = 2;
}
