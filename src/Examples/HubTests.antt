-- ===== src/Examples/HubTests.antt =====
-- Tests of internal/hub/posture.go, and instances of its theorems.
use barrikade_lens.Common.{true, ◌≡◌, ◌≤◌, refl}
use barrikade_lens.Discovery.Values.{Fields, bool, text, field, end}
use barrikade_lens.Discovery.Merge.{merge_maps}
use barrikade_lens.Hub.Posture.{
  flag, posture_role, discovery_state, posture_attribute, network_attribute, relationship_category,
  network_scope_title,
}
use barrikade_lens.Hub.Posture.States.{state_rank, discovery_state-merge_maps}

abbrev helper : Fields
helper = field "entity_role" (text "runtime_helper_definition") end

helper_role : posture_role "agent" helper ≡ ("component", "")
unfolding posture_role
helper_role = refl

abbrev running : Fields
running = field "installed" (bool true) (field "running_at_scan" (bool true) end)

running_state : discovery_state running ≡ "running"
unfolding discovery_state flag
running_state = refl

title : network_scope_title "network" ≡ "Network accessible"
unfolding network_scope_title
title = refl

category : relationship_category "uses" ≡ "capability"
unfolding relationship_category
category = refl

enabled_attribute : posture_attribute "enabled" ≡ true
unfolding posture_attribute
enabled_attribute = refl

port_attribute : network_attribute "port" ≡ true
unfolding network_attribute
port_attribute = refl

discovery_state-merge_maps_example :
    state_rank (discovery_state (field "cached" (bool true) end))
    ≤ state_rank (
        discovery_state
          (merge_maps (field "cached" (bool true) end) (field "deployed" (bool true) end)))
discovery_state-merge_maps_example =
    discovery_state-merge_maps (field "cached" (bool true) end) (field "deployed" (bool true) end)
      (refl, tt)
