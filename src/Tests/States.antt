-- ===== src/Tests/States.antt =====
-- States of hosts and services.
use naemon_livestatus.Prelude.{◌≡◌, true, [], ◌∷◌, pos}
use naemon_livestatus.States.{Host, host_value, host_walk, num_hosts_down}
use naemon_livestatus.States.Walks.{host_value-host_walk}

-- a host that is down, with a service that is critical
abbrev down : Host
down = record {
  has_been_checked = true;
  current_state = pos 1;
  services =
      (record { has_been_checked = true; current_state = pos 2; last_hard_state = pos 2 }) ∷ [];
}

host_value-host_walk_example :
    host_value (λ h. true) (λ s. true) num_hosts_down (down ∷ down ∷ [])
    ≡ host_walk (λ h. true) (λ s. true) num_hosts_down (down ∷ down ∷ []) (pos 0)
host_value-host_walk_example =
    host_value-host_walk (λ h. true) (λ s. true) num_hosts_down (down ∷ down ∷ [])
