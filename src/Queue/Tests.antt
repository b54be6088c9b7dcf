-- ===== src/Queue/Tests.antt =====
-- Two queue steps: the producer's write in prodcons_s.c and in prodcons_m.c.
use linux_system_programming.Prelude.{ℕ, ◌*◌, ◌≡◌, refl, ◌⊎◌, true, [], ◌∷◌}
use linux_system_programming.ProdCons.{
  System, ProducerPc, producer_at, Step, produce, Reach, here, next, start,
}
use linux_system_programming.Monitor.{
  MonitorState, ProducerAt, producer_step, Turn, Reachable, monitor_start,
}
use linux_system_programming.Monitor as M
use linux_system_programming.Queue.{QueueStep}
use linux_system_programming.Queue.Refine.{queue_s, refines_queue}
use linux_system_programming.Queue.RefineMonitor.{queue_m, monitor_refines_queue}

abbrev tens : ℕ → ℕ
tens n = n * 10

abbrev waited : System
waited = record start { empty_sem = 1; producer = ProducerPc.wait_mutex }

abbrev entered : System
entered = record waited { mutex_sem = 0; producer = ProducerPc.write_item }

entered-Reach : Reach tens entered
unfolding producer_at
entered-Reach = next (next here (produce {t = waited} refl)) (produce {t = entered} refl)

abbrev written : System
written = record entered {
  shared = record entered.shared { buf = 0 ∷ 0 ∷ [] };
  producer = ProducerPc.advance_in;
}

writes : Step tens entered written
unfolding producer_at
writes = produce refl

refines_queue_example :
    (queue_s written ≡ queue_s entered) ⊎ QueueStep (queue_s entered) (queue_s written)
refines_queue_example = refines_queue tens entered written entered-Reach writes

abbrev locked : MonitorState
locked = record monitor_start { locked = true; producer = ProducerAt.check_full }

abbrev checked : MonitorState
checked = record locked { producer = ProducerAt.write_item }

checked-Reachable : Reachable tens checked
unfolding producer_step
checked-Reachable =
    M.next (M.next M.here (M.produce {t = locked} refl)) (M.produce {t = checked} refl)

abbrev stored : MonitorState
stored = record checked {
  shared = record checked.shared { buf = 0 ∷ 0 ∷ [] };
  producer = ProducerAt.advance_in;
}

stores : Turn tens checked stored
unfolding producer_step
stores = M.produce refl

monitor_refines_queue_example :
    (queue_m stored ≡ queue_m checked) ⊎ QueueStep (queue_m checked) (queue_m stored)
monitor_refines_queue_example = monitor_refines_queue tens checked stored checked-Reachable stores
