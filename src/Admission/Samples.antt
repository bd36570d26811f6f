-- ===== src/Admission/Samples.antt =====
-- Tables, requests and third-party functions for the tests of admission.
use hostlet_app.Base.{
  ℕ, zero, suc, ◌+◌, ◌≡◌, refl, Option, none, some, List, [], ◌∷◌, Bool, true, false,
}
use hostlet_app.Base.Integers.{ℤ, pos, negsuc}
use hostlet_app.Base.Text.{Text, codes}
use hostlet_app.Jobs.Model.{Database}
use hostlet_app.Jobs.Intent.{Header, text}
use hostlet_app.Jobs.Cancel.{Owner}
use hostlet_app.Admission.Model.{
  HoldKind, HoldState, HoldRow, ProofState, SlotState, Lifecycle, PoolRow, EntitlementState,
  EntitlementRow, Tables,
}
use hostlet_app.Admission.Messages.{
  Json, CreateHoldRequest, AdmitRequest, CapacityFixtureRequest, EntitlementFixtureRequest,
  BuildUsageRequest, BuildUsageResponse, AdmissionEnv,
}
use hostlet_app.Admission.Admit.{AdmitIds}
use hostlet_app.Admission.Hold.{OwnerInputs}
use hostlet_app.Admission.Machine.{OwnerCall, AdmissionCall, creates_hold}

-- A JSON that keeps nothing, for responses that no test reads back.
abbrev mute : {A : Type 0} → Json A
mute = record { print = λ a. []; parse = λ t. none }

-- Responses to reports of build seconds, as lists of numbers.
debit_code : Option ℕ → ℕ
debit_code none = 0
debit_code (some id) = suc id

code_debit : ℕ → Option ℕ
code_debit zero = none
code_debit (suc id) = some id

bit : Bool → ℕ
bit false = 0
bit true = 1

from_bit : ℕ → Bool
from_bit zero = false
from_bit (suc n) = true

signed : ℕ → ℕ → ℤ
signed zero n = pos n
signed (suc _) n = negsuc n

sign : ℤ → ℕ
sign (pos n) = 0
sign (negsuc n) = 1

size : ℤ → ℕ
size (pos n) = n
size (negsuc n) = n

unfoldable pub print_usage : BuildUsageResponse → Text
unfolding debit_code bit sign size
print_usage y =
    y.id
    ∷ y.attempt_id
    ∷ y.seconds
    ∷ debit_code y.debit_event_id
    ∷ sign y.build_seconds_remaining
    ∷ size y.build_seconds_remaining
    ∷ bit y.execution_enqueued
    ∷ y.kind

unfoldable pub read_usage : Text → Option BuildUsageResponse
unfolding code_debit from_bit signed
read_usage (id ∷ attempt ∷ seconds ∷ debit ∷ g ∷ n ∷ enqueued ∷ kind) = some (record {
  id = id;
  kind = kind;
  attempt_id = attempt;
  seconds = seconds;
  debit_event_id = code_debit debit;
  build_seconds_remaining = signed g n;
  execution_enqueued = from_bit enqueued;
})
read_usage _ = none

pub read_usage-print_usage : (y : BuildUsageResponse) → read_usage (print_usage y) ≡ some y
unfolding read_usage print_usage
read_usage-print_usage y = go y.debit_event_id y.build_seconds_remaining y.execution_enqueued
  where
    go :
        (d : Option ℕ) (z : ℤ) (b : Bool)
        → read_usage (
            print_usage (record y {
              debit_event_id = d;
              build_seconds_remaining = z;
              execution_enqueued = b;
            }))
          ≡ some
              (record y { debit_event_id = d; build_seconds_remaining = z; execution_enqueued = b })
    go none (pos n) false = refl
    go none (pos n) true = refl
    go none (negsuc n) false = refl
    go none (negsuc n) true = refl
    go (some d) (pos n) false = refl
    go (some d) (pos n) true = refl
    go (some d) (negsuc n) false = refl
    go (some d) (negsuc n) true = refl

abbrev pub sample_env : AdmissionEnv
sample_env = record {
  uuid_text = λ n. n ∷ [];
  parse_uuid = λ t. elim t [ [] ↦ none | n ∷ _ ↦ some n ];
  hash_hold = λ r. r.source_proof_id ∷ [];
  hash_admit = λ r. r.capacity_hold_id ∷ [];
  hash_capacity = λ r. r.event_id ∷ [];
  hash_entitlement = λ r. r.event_id ∷ [];
  hash_proof = λ r. r.event_id ∷ [];
  hash_observation = λ r. r.event_id ∷ [];
  hash_usage = λ r. r.event_id ∷ [];
  json_admission = mute;
  json_capacity = mute;
  json_entitlement = mute;
  json_proof = mute;
  json_observation = mute;
  json_usage = record { print = print_usage; parse = read_usage };
}

abbrev shared : Database
shared = record {
  jobs = [];
  attempts = [];
  effects = [];
  secret_refs = [];
  secrets = [];
  secret_versions = [];
  services = [];
  idempotency_records = [];
  audit_events = [];
}

abbrev pub pool_name : Text
pool_name = codes "p"

abbrev pub pool : PoolRow
pool = record {
  pool_key = pool_name;
  profile = codes "small";
  hosted_slot_limit = 1;
  rollout_headroom_limit = 1;
  revision = 1;
}

abbrev pub entitlement : EntitlementRow
entitlement = record {
  id = 13;
  account_id = 1;
  capacity_pool_key = pool_name;
  hosted_slot_limit = 1;
  build_seconds_limit = 100;
  period_starts_at = 0;
  period_ends_at = 1000;
  state = EntitlementState.active;
  revision = 1;
}

-- A project with a deployment that awaits admission, and a proof of its source.
abbrev pub start : Tables
start = record {
  shared = shared;
  pools = pool ∷ [];
  entitlements = entitlement ∷ [];
  proofs =
      record {
        id = 5;
        account_id = 1;
        project_id = 2;
        deployment_id = 3;
        configuration_revision_id = 7;
        source_commit = codes "c0";
        inventory_revision = 1;
        state = ProofState.valid;
        expires_at = 1000;
      }
      ∷ [];
  holds = [];
  reservations = [];
  observations = [];
  usage = [];
  refunds = [];
  receipts = [];
  projects =
      record {
        id = 2;
        account_id = 1;
        hosted_slots = 0;
        slot_state = SlotState.admission_required;
        current_configuration_revision_id = some 7;
        revision = 1;
      }
      ∷ [];
  deployments =
      record {
        id = 3;
        account_id = 1;
        project_id = 2;
        configuration_revision_id = 7;
        source_commit = codes "c0";
        lifecycle = Lifecycle.admission_required;
      }
      ∷ [];
  intents = [];
  hosting_events = [];
  user_authorizations = [];
  installations = [];
  bindings = [];
  source_revisions = [];
}

abbrev pub capacity : CapacityFixtureRequest
capacity = record {
  event_id = 11;
  pool_key = pool_name;
  profile = codes "small";
  hosted_slot_limit = pos 1;
  rollout_headroom_limit = pos 1;
}

abbrev pub grant : EntitlementFixtureRequest
grant = record {
  event_id = 12;
  account_id = 1;
  capacity_pool_key = pool_name;
  hosted_slot_limit = pos 1;
  build_seconds_limit = pos 100;
  period_starts_at = 0;
  period_ends_at = 1000;
  state = codes "active";
}

abbrev pub build_debit : BuildUsageRequest
build_debit = record {
  event_id = 31;
  account_id = 1;
  project_id = 2;
  deployment_id = 3;
  attempt_id = 4;
  kind = codes "debit";
  seconds = pos 60;
  debit_event_id = none;
  platform_fault_ref = none;
}

abbrev pub owner : Owner
owner = record { account_id = 1; session_id = 9 }

abbrev pub quoted_one : Header
quoted_one = text (codes "\"1\"")

abbrev pub owner_call : OwnerCall
owner_call = record {
  owner = owner;
  project_path = 2 ∷ [];
  deployment_path = 3 ∷ [];
  if_match = quoted_one;
  key_header = text (codes "k");
}

abbrev pub inputs : OwnerInputs
inputs = record { project = 2; deployment = 3; expected = 1; key = codes "k" }

abbrev pub clock_at : ℕ → ℕ → ℕ
clock_at now n = now

abbrev pub fresh_ids : ℕ → ℕ
fresh_ids n = 900 + n

abbrev pub hold_request : CreateHoldRequest
hold_request = record { source_proof_id = 5; ttl_seconds = pos 60 }

abbrev pub admit_request : AdmitRequest
admit_request = record { capacity_hold_id = 21 }

abbrev pub admit_ids : AdmitIds
admit_ids = record { reservation = 41; epoch = 42; event = 43 }

abbrev pub held : List AdmissionCall
held = creates_hold (clock_at 100) fresh_ids 21 owner_call hold_request ∷ []

abbrev pub active_hold : HoldRow
active_hold = record {
  id = 21;
  account_id = 1;
  project_id = 2;
  deployment_id = 3;
  source_proof_id = 5;
  entitlement_id = 13;
  capacity_pool_key = pool_name;
  reservation_id = none;
  reservation_epoch = none;
  kind = HoldKind.initial;
  state = HoldState.active;
  expires_at = 160;
  consumed_at = none;
  released_at = none;
  created_at = 100;
}

-- The tables with that hold.
abbrev pub with_hold : Tables
with_hold = record start { holds = active_hold ∷ [] }
