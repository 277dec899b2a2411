-- ===== src/Dispatch/Tests.antt =====
-- The theorems on dispatch at concrete channels and orders.
use far_away.Prelude.{ℕ, String, ◌≡◌, refl, Bool, true, false, none, some, List, [], ◌∷◌, All, inr}
use far_away.Core.Value.{null, text, list, nil, item, end, field, get, get_or}
use far_away.Core.Contracts.{instruction, high, dispatch, all}
use far_away.Ops.Retry.{Floats}
use far_away.Dispatch.Channel.{raised, Channel, Outside}
use far_away.Dispatch.Router.{DispatchMessage, Router, new_router, select}
use far_away.Dispatch.Handle.{handle}
use far_away.Dispatch.Acks.{IsIgnored, handle-IsIgnored}
use far_away.Dispatch.Execution.{IsRouter, Executes, handle-Executes}
use far_away.Dispatch.Construction.{handle_all, new_router_stays-IsRouter}

abbrev no_floats : Floats
no_floats = record { Real = ℕ; times = λ a b. a; below = λ a b. false }

abbrev outside : Outside
outside = record {
  render = λ v. "";
  numeral = λ n. "1";
  live_from_env = λ n. false;
  new_id = λ n. "0123456789ab";
  utcnow = λ n. "2026-01-01T00:00:00+00:00";
  message_id = λ n. "m1";
  asked_at = λ n. 0;
  ended_at = λ n. 1;
  circuit_open = "CircuitOpenError: circuit is open";
  type_error = "TypeError: no length";
  build_error = "ValueError: build";
  floats = no_floats;
  half = 0;
  two = 2;
}

-- A channel whose provider is down, and one that only records.
abbrev failing : String → Bool → Channel
failing name dry_run = record {
  name = name;
  dry_run = dry_run;
  live = some true;
  send_attempts = 2;
  breaker = none;
  outbox = [];
  build = λ payload. some null;
  deliver = λ n i payload. raised "OSError: no route";
}

abbrev channels : List Channel
channels = failing "sms" false ∷ failing "cap" true ∷ []

abbrev router : Router
router = record {
  name = "dispatch.router";
  channels = ("sms", failing "sms" false) ∷ ("cap", failing "cap" true) ∷ [];
  fallback_name = some "sms";
  sends = 0;
}

abbrev order : DispatchMessage
order = record {
  sender = "commander";
  recipient = "dispatch.router";
  type = instruction;
  priority = high;
  payload = field "kind" (text "public_alert") (
      field "channel" (list (item (text "SMS") (item (text "text") (item (text "fax") nil))))
        (field "body" (text "Leave now") (field "recipients" (text "all") end)));
  reasoning = [];
  ttl_seconds = 300;
  topic = dispatch;
  incident_id = text "INC-1";
  module_of = all;
  escalation_trigger = none;
  timestamp = "2026-01-01T00:00:00+00:00";
  id = "o1";
}

router_lem : IsRouter router
router_lem = record {
  unique = (refl, (refl, tt));
  gives = ((λ n i payload. tt), ((λ n i payload. tt), tt));
  fallback = inr ("sms", refl);
}

handle-IsIgnored_example : All (IsIgnored outside) (handle outside order router).1
handle-IsIgnored_example = handle-IsIgnored outside order router

handle-Executes_example : Executes outside order router (handle outside order router)
unfolding get_or get
handle-Executes_example =
    handle-Executes outside order router router_lem
      (record { on_dispatch = refl; from_another = refl; no_ack_payload = refl; no_ack = refl })

new_router_stays-IsRouter_example :
    IsRouter (handle_all outside (order ∷ order ∷ []) (new_router "dispatch.router" channels))
new_router_stays-IsRouter_example =
    new_router_stays-IsRouter outside "dispatch.router" channels (order ∷ order ∷ [])
      ((λ n i payload. tt), ((λ n i payload. tt), tt)) (refl, (refl, tt))

-- A list of keys gives each channel once.
selected :
    select outside router.channels (list (item (text "SMS") (item (text "text") nil))) ≡ "sms" ∷ []
unfolding select
selected = refl
