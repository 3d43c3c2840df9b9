-- ===== src/Runtime/Tests.antt =====
-- The interrupt queue with a key that arrives between two rounds.
use umka_os.Base.{◌&&◌, if◌then◌else◌, ℕ, ◌+◌, ◌≡◌, refl, inr, true, false, [], ◌∷◌, ◌++◌, arith}
use umka_os.Runtime.{
  Packet, Queue, done, panicked, acknowledge, add_byte, fill, make_packet, receive, handle_irq,
}
use umka_os.Runtime.Handler.{handle_irq-queues}
use umka_os.Runtime.Schedule.{
  Machine, schedule, System, system, idle, tested, Reach, here, next, interrupt, test, boot,
}
use umka_os.Runtime.Schedule.Delivery.{to_send, taken, Reach-delivers}
use umka_os.Runtime.Schedule.Rounds.{after, healthy, ended, schedule-after}
use umka_os.Runtime.Schedule.Alone.{Alone, round_steps, Alone-round}

abbrev key : Packet
key = record { irq = 1; bytes = 30 ∷ [] }

abbrev empty_queue : Queue
empty_queue = record { packets = []; lock = false }

handle_irq-queues_example :
    handle_irq empty_queue 1 (30 ∷ [])
    ≡ done (record { packets = key ∷ []; lock = false }, acknowledge 1)
handle_irq-queues_example =
    handle_irq-queues empty_queue 1 (30 ∷ []) refl (inr refl) (omega arith) (omega arith)

-- A key before the round, one after the scheduler has tested the lock.
abbrev two_keys : System
two_keys = system (key ∷ key ∷ []) false tested (key ∷ key ∷ []) []

two_keys-Reach : Reach boot two_keys
unfolding handle_irq receive make_packet fill add_byte acknowledge
two_keys-Reach =
    next
      (next
        (next here (
          interrupt empty_queue idle [] [] 1 (30 ∷ []) (record { packets = key ∷ []; lock = false })
            ((0x20, 0x20) ∷ []) refl))
        (test (key ∷ []) (key ∷ []) []))
      (interrupt (record { packets = key ∷ []; lock = false }) tested (key ∷ []) [] 1 (30 ∷ [])
        (record { packets = key ∷ key ∷ []; lock = false }) ((0x20, 0x20) ∷ []) refl)

Reach-delivers_example :
    to_send two_keys.arrived
    ≡ two_keys.calls ++ to_send (taken two_keys.pc ++ two_keys.queue.packets)
Reach-delivers_example = Reach-delivers two_keys-Reach

Alone-round_example :
    Alone
      (system (key ∷ []) false idle (key ∷ []) [])
      (round_steps (key ∷ []))
      (system [] false idle (key ∷ []) ([] ++ to_send (key ∷ [])))
    × ((t : System)
        → Alone (system (key ∷ []) false idle (key ∷ []) []) (round_steps (key ∷ [])) t
        → t ≡ system [] false idle (key ∷ []) ([] ++ to_send (key ∷ [])))
Alone-round_example = Alone-round (key ∷ []) (key ∷ []) []

-- An interpreter that counts the calls.
abbrev counter : Machine
counter = record { State = ℕ; irq_fn = λ c n. n + 1; schedule_fn = λ n. n + 1; alive = λ n. true }

abbrev one_key : Queue
one_key = record { packets = key ∷ []; lock = false }

schedule-after_example :
    (one_key.lock ≡ true → schedule counter one_key 0 ≡ done (one_key, 0))
    × (one_key.lock ≡ false
        → schedule counter one_key 0 ≡ (
            if healthy counter (to_send (key ∷ [])) 0
              && counter.alive (counter.schedule_fn (after counter (to_send (key ∷ [])) 0))
            then ended counter (counter.schedule_fn (after counter (to_send (key ∷ [])) 0))
            else panicked))
schedule-after_example = schedule-after counter one_key 0
