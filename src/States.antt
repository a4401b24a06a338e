-- ===== src/States.antt =====
-- src/ServicelistStateColumn.cc and src/HostlistStateColumn.cc: what is counted of the states in a list of
-- services or of hosts, and the worst of them. The order of the hosts in their tree is the order of the list.
pub mod Walks
use naemon_livestatus.Prelude.{
  ℕ, ◌+◌, Bool, true, false, not, ◌||◌, ◌&&◌, List, [], ◌∷◌, if◌then◌else◌, ℤ, pos, negsuc, ltb_ℤ,
  leb_ℤ, ◌+ℤ◌, ◌-ℤ◌,
}
use naemon_livestatus.Filter.{equal_ℤ}

-- what the columns read of a service and of a host of the core
pub record Service : Type 0 where
  pub has_been_checked : Bool
  pub current_state : ℤ
  pub last_hard_state : ℤ

pub record Host : Type 0 where
  pub has_been_checked : Bool
  pub current_state : ℤ
  pub services : List Service

-- `svcStateIsWorse`
unfoldable pub service_is_worse : ℤ → ℤ → Bool
service_is_worse state1 state2 =
    if equal_ℤ state1 (pos 0)
    then false
    else if equal_ℤ state2 (pos 0)
    then true
    else if equal_ℤ state2 (pos 2)
    then false
    else if equal_ℤ state1 (pos 2)
    then true
    else ltb_ℤ state2 state1

-- `hst_state_is_worse`
unfoldable pub host_is_worse : ℤ → ℤ → Bool
host_is_worse state1 state2 =
    if equal_ℤ state1 (pos 0)
    then false
    else if equal_ℤ state2 (pos 0)
    then true
    else if equal_ℤ state2 (pos 1)
    then false
    else equal_ℤ state1 (pos 1)

-- `SLSC_*` and `HLSC_*`, of which the hard variants are 64 more
abbrev pub num_services : ℤ
num_services = negsuc 0

abbrev pub worst_state : ℤ
worst_state = negsuc 1

abbrev pub num_pending_services : ℤ
num_pending_services = pos 4

abbrev pub num_hosts_up : ℤ
num_hosts_up = pos 10

abbrev pub num_hosts_down : ℤ
num_hosts_down = pos 11

abbrev pub num_hosts_unreach : ℤ
num_hosts_unreach = pos 12

abbrev pub num_hosts_pending : ℤ
num_hosts_pending = pos 13

abbrev pub num_hosts : ℤ
num_hosts = negsuc 10

abbrev pub worst_host_state : ℤ
worst_host_state = negsuc 11

pub record ServiceAggregates : Type 0 where
  pub num : ℤ
  pub num_pending : ℤ
  pub soft : ℤ → ℤ
  pub hard : ℤ → ℤ
  pub worst_soft : ℤ
  pub worst_hard : ℤ

abbrev pub no_services : ServiceAggregates
no_services = record {
  num = pos 0;
  num_pending = pos 0;
  soft = λ state. pos 0;
  hard = λ state. pos 0;
  worst_soft = pos 0;
  worst_hard = pos 0;
}

-- `if (state >= 0 && state <= 3) counts[state]++`
unfoldable pub count_state : ℤ → (ℤ → ℤ) → ℤ → ℤ
count_state state counts s =
    if leb_ℤ (pos 0) state && (leb_ℤ state (pos 3) && equal_ℤ s state)
    then counts s +ℤ pos 1
    else counts s

-- `ServiceAggregates::get`
unfoldable pub get_service : ServiceAggregates → ℤ → ℤ
get_service a logictype =
    let use_hard = leb_ℤ (pos 60) logictype in
    let lt = if use_hard then logictype -ℤ pos 64 else logictype in
    if equal_ℤ lt num_services
    then a.num
    else if equal_ℤ lt num_pending_services
    then a.num_pending
    else if equal_ℤ lt worst_state
    then (if use_hard then a.worst_hard else a.worst_soft)
    else if leb_ℤ (pos 0) lt && leb_ℤ lt (pos 3)
    then (if use_hard then a.hard lt else a.soft lt)
    else pos 0

abbrev pub worse_of : (ℤ → ℤ → Bool) → ℤ → ℤ → ℤ
worse_of is_worse state worst = if is_worse state worst then state else worst

-- one visible service of `computeAggregates`
unfoldable pub accumulate_service : ServiceAggregates → Service → ServiceAggregates
accumulate_service a svc = record {
  num = a.num +ℤ pos 1;
  num_pending = if svc.has_been_checked then a.num_pending else a.num_pending +ℤ pos 1;
  soft = if svc.has_been_checked then count_state svc.current_state a.soft else a.soft;
  hard = if svc.has_been_checked then count_state svc.last_hard_state a.hard else a.hard;
  worst_soft = worse_of service_is_worse svc.current_state a.worst_soft;
  worst_hard = worse_of service_is_worse svc.last_hard_state a.worst_hard;
}

-- `!auth_user || isAuthorized(auth_user, svc)` is the test
unfoldable pub aggregate_services :
    (Service → Bool) → List Service → ServiceAggregates → ServiceAggregates
aggregate_services visible [] a = a
aggregate_services visible (svc ∷ svcs) a =
    aggregate_services visible svcs (if visible svc then accumulate_service a svc else a)

pub record HostAggregates : Type 0 where
  pub num : ℤ
  pub num_pending : ℤ
  pub up : ℤ
  pub down : ℤ
  pub unreach : ℤ
  pub worst_host : ℤ

abbrev pub no_hosts : HostAggregates
no_hosts = record {
  num = pos 0;
  num_pending = pos 0;
  up = pos 0;
  down = pos 0;
  unreach = pos 0;
  worst_host = pos 0;
}

-- `HostAggregates::get`
unfoldable pub get_host : HostAggregates → ℤ → ℤ
get_host a logictype =
    if equal_ℤ logictype num_hosts
    then a.num
    else if equal_ℤ logictype num_hosts_pending
    then a.num_pending
    else if equal_ℤ logictype num_hosts_up
    then a.up
    else if equal_ℤ logictype num_hosts_down
    then a.down
    else if equal_ℤ logictype num_hosts_unreach
    then a.unreach
    else if equal_ℤ logictype worst_host_state
    then a.worst_host
    else pos 0

-- `accumulate_host`, for a visible host
unfoldable pub accumulate_host : HostAggregates → Host → HostAggregates
accumulate_host a hst =
    let counted = λ (state : ℤ) (n : ℤ).
      if hst.has_been_checked && equal_ℤ hst.current_state state then n +ℤ pos 1 else n in
    record {
      num = a.num +ℤ pos 1;
      num_pending = if hst.has_been_checked then a.num_pending else a.num_pending +ℤ pos 1;
      up = counted (pos 0) a.up;
      down = counted (pos 1) a.down;
      unreach = counted (pos 2) a.unreach;
      worst_host = worse_of host_is_worse hst.current_state a.worst_host;
    }

module _ (visible_host : Host → Bool) (visible : Service → Bool) where
  -- `HostlistStateColumn::computeAggregates`
  unfoldable pub aggregate_hosts : List Host → HostAggregates → HostAggregates
  aggregate_hosts [] a = a
  aggregate_hosts (hst ∷ hosts) a =
      aggregate_hosts hosts (if visible_host hst then accumulate_host a hst else a)

  -- `ServicelistStateColumn::getValue`
  unfoldable pub service_value : ℤ → List Service → ℤ
  service_value logictype services =
      get_service (aggregate_services visible services no_services) logictype

  -- the switch of `get_subvalue`; the hard variants are not in it
  unfoldable pub host_subvalue : ℤ → Host → ℤ → ℤ
  host_subvalue logictype hst result =
      let sub = service_value logictype hst.services in
      if leb_ℤ num_services logictype && leb_ℤ logictype num_pending_services
      then result +ℤ sub
      else if equal_ℤ logictype worst_state
      then worse_of service_is_worse sub result
      else if leb_ℤ num_hosts_up logictype && leb_ℤ logictype num_hosts_unreach
      then (if hst.has_been_checked && equal_ℤ hst.current_state (logictype -ℤ num_hosts_up)
          then result +ℤ pos 1
          else result)
      else if equal_ℤ logictype num_hosts_pending
      then (if hst.has_been_checked then result else result +ℤ pos 1)
      else if equal_ℤ logictype num_hosts
      then result +ℤ pos 1
      else if equal_ℤ logictype worst_host_state
      then worse_of host_is_worse hst.current_state result
      else result

  -- `g_tree_foreach(mem, get_subvalue, &params)`
  unfoldable pub host_walk : ℤ → List Host → ℤ → ℤ
  host_walk logictype [] result = result
  host_walk logictype (hst ∷ hosts) result =
      host_walk logictype hosts
        (if visible_host hst then host_subvalue logictype hst result else result)

  -- `isHostStateLogicType`
  unfoldable pub is_host_state : ℤ → Bool
  is_host_state logictype =
      equal_ℤ logictype num_hosts
      || (equal_ℤ logictype num_hosts_pending
          || (equal_ℤ logictype num_hosts_up
              || (equal_ℤ logictype num_hosts_down
                  || (equal_ℤ logictype num_hosts_unreach || equal_ℤ logictype worst_host_state))))

  -- `HostlistStateColumn::getValue`
  unfoldable pub host_value : ℤ → List Host → ℤ
  host_value logictype hosts =
      if is_host_state logictype
      then get_host (aggregate_hosts hosts no_hosts) logictype
      else host_walk logictype hosts (pos 0)
