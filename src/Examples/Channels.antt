-- ===== src/Examples/Channels.antt =====
-- A run of the node reconciler in which its worker never returns.
use ooc.Base.{refl, ◌≡◌, [], ◌∷◌, some, true}
use ooc.Cloud.{Node}
use ooc.Cloud.Exec.{Env, answer, ok, pure, ask, catch}
use ooc.Help.{is_master, node_ready, nodes_ready, conditions_ready, lookup}
use ooc.Heal.Events.{
  Worker, sending, waiting, idle, Pair, start, selecting, Step, notify, receive, tick, Reach, here,
  later, examine,
}
use ooc.Heal.Events.Stuck.{Reach-waiting_still}
use ooc.Examples.Worlds.{calm, node1}

-- A master whose kubelet no longer reports that it is ready.
abbrev unready_master : Node
unready_master = record node1 {
  labels = some (("node-role.kubernetes.io/master", "") ∷ []);
  conditions = record { kind = "Ready"; status = "Unknown"; reason = ""; last_heartbeat = 0 } ∷ [];
}

abbrev failing : Env
failing = record calm { node = λ t name. answer unready_master }

abbrev sent : Pair
sent = record start { worker = sending 0; made = 1 }

abbrev handed_over : Pair
handed_over = record sent { worker = waiting 0 }

needs_healing : (examine failing "master-1" []).0 ≡ ok true
unfolding examine ask catch pure is_master lookup node_ready nodes_ready conditions_ready
needs_healing = refl

event_received : Reach failing start handed_over
event_received = later (later here (notify "master-1" [] refl needs_healing)) (receive 0 refl refl)

Reach-waiting_still_example :
    (record handed_over { healer = ooc.Heal.Events.fixing_masters }).worker ≡ waiting 0
Reach-waiting_still_example =
    Reach-waiting_still failing handed_over
      (record handed_over { healer = ooc.Heal.Events.fixing_masters }) 0 event_received refl
      (later here (tick refl))
