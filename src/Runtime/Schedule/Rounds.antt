-- ===== src/Runtime/Schedule/Rounds.antt =====
-- What a round of the scheduler does to the interpreter.
use umka_os.Base.{
  ◌≡◌, refl, inl, inr, Bool, true, false, List, [], ◌∷◌, arith, if◌then◌else◌, ◌&&◌, Bool-cases,
  length, take_of_length_le, List-cases,
}
use umka_os.Runtime.{Packet, Queue, Outcome, done, panicked, ◌>>=◌}
use umka_os.Runtime.Schedule.{Call, Machine, check_alive, deliver, schedule}
use umka_os.Runtime.Schedule.Delivery.{to_send}

-- The loop visits every packet and calls `umkaIRQFn` for those that are not empty.
-- The interpreter after the calls, and whether it was alive after each of them.
unfoldable pub after : (m : Machine) → List Call → m.State → m.State
after m [] s = s
after m (c ∷ calls) s = after m calls (m.irq_fn c s)

unfoldable pub healthy : (m : Machine) → List Call → m.State → Bool
healthy m [] s = true
healthy m (c ∷ calls) s = m.alive (m.irq_fn c s) && healthy m calls (m.irq_fn c s)

and_then :
    (m : Machine) (ps : List Packet) (t : m.State) (b : Bool)
    → deliver m ps t
      ≡ (if healthy m (to_send ps) t then done (after m (to_send ps) t) else panicked)
    → ((if b then done t else panicked) >>= λ s'. deliver m ps s')
      ≡ (if b && healthy m (to_send ps) t then done (after m (to_send ps) t) else panicked)
and_then m ps t true e = e
and_then m ps t false e = refl

deliver-after :
    (m : Machine) (ps : List Packet) (s : m.State)
    → deliver m ps s
      ≡ (if healthy m (to_send ps) s then done (after m (to_send ps) s) else panicked)
unfolding deliver healthy after to_send check_alive
deliver-after m [] s = refl
deliver-after m (p ∷ ps) s = elim (List-cases p.bytes) [
  | inl e ↦ rw (e) (deliver-after m ps s)
  | inr (b, bytes, e) ↦ rw (e) (
      and_then m ps (m.irq_fn (p.irq, b ∷ bytes) s) (m.alive (m.irq_fn (p.irq, b ∷ bytes) s))
        (deliver-after m ps (m.irq_fn (p.irq, b ∷ bytes) s)))
]

abbrev pub empty_queue : Queue
empty_queue = record { packets = []; lock = false }

abbrev pub ended : (m : Machine) → m.State → Outcome (Queue × m.State)
ended m s = done (empty_queue, s)

finish_round :
    (m : Machine) (h : Bool) (t : m.State)
    → ((if h then done t else panicked) >>= λ s'.
        check_alive m (m.schedule_fn s') >>= λ s''. ended m s'')
      ≡ (if h && m.alive (m.schedule_fn t) then ended m (m.schedule_fn t) else panicked)
unfolding check_alive
finish_round m true t = elim (Bool-cases (m.alive (m.schedule_fn t))) [
  | inl e ↦ rw (check_alive, e) refl
  | inr e ↦ rw (check_alive, e) refl
]
finish_round m false t = refl

-- With the lock free, `umkaRuntimeSchedule` passes the packets of the queue that are not empty to
-- the interpreter, in order, and then calls `umkaScheduleFn`; the queue is empty and the lock free
-- after it. It panics where the interpreter is not alive after one of these calls, and only there.
-- With the lock held it does nothing.
pub schedule-after :
    (m : Machine) (q : Queue) (s : m.State)
    → (q.lock ≡ true → schedule m q s ≡ done (q, s))
      × (q.lock ≡ false
          → schedule m q s ≡ (
              if healthy m (to_send q.packets) s
                && m.alive (m.schedule_fn (after m (to_send q.packets) s))
              then ended m (m.schedule_fn (after m (to_send q.packets) s))
              else panicked))
unfolding schedule
schedule-after m q s = (
  λ held. rw (schedule, held) refl,
  λ free.
      rw
        (
          free,
          take_of_length_le (length q.packets) q.packets (omega arith),
          deliver-after m q.packets s,
        )
        (finish_round m (healthy m (to_send q.packets) s) (after m (to_send q.packets) s)),
)
