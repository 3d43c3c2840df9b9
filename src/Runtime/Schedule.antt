-- ===== src/Runtime/Schedule.antt =====
-- `umkaRuntimeSchedule`, as the steps between which an interrupt can come. The handler runs whole:
-- it is entered through an interrupt gate.
pub mod Delivery
pub mod Rounds
pub mod Alone
use umka_os.Base.{
  ℕ, ◌≡◌, ◌≢◌, ◌||◌, Bool, true, false, List, [], ◌∷◌, ◌++◌, ◌==◌, if◌then◌else◌, length, take,
}
use umka_os.Runtime.{Outcome, done, panicked, ◌>>=◌, Packet, Queue, PortWrite, handle_irq}

-- A call of `umkaIRQFn` with its arguments.
abbrev pub Call : Type 0
Call = ℕ × List ℕ

-- The interpreter that runs the Umka code; `alive` is false after a runtime error.
pub record Machine : Type 1 where
  pub State : Type 0
  pub irq_fn : Call → State → State
  pub schedule_fn : State → State
  pub alive : State → Bool

-- `if (!umkaAlive(umka)) umkaPrintError();`
unfoldable pub check_alive : (m : Machine) → m.State → Outcome m.State
check_alive m s = if m.alive s then done s else panicked

-- The loop over the copied packets.
unfoldable pub deliver : (m : Machine) → List Packet → m.State → Outcome m.State
deliver m [] s = done s
deliver m (p ∷ packets) s = elim p.bytes [
  | [] ↦ deliver m packets s
  | b ∷ bytes ↦ check_alive m (m.irq_fn (p.irq, b ∷ bytes) s) >>= λ s'. deliver m packets s'
]

-- `umkaRuntimeSchedule` with no interrupt in between.
unfoldable pub schedule : (m : Machine) → Queue → m.State → Outcome (Queue × m.State)
schedule m q s =
    if q.lock
    then done (q, s)
    else (deliver m (take (length q.packets) q.packets) s >>= λ s'.
        check_alive m (m.schedule_fn s') >>= λ s''.
        done (record { packets = []; lock = false }, s''))

-- Where the scheduler stands: `counted` holds `lpacket_count`, `copied` the array `lpackets` too,
-- and `emptied` and `running` the packets that the loop has still to visit.
pub data Pc : Type 0 where
  idle tested locked : Pc
  counted : ℕ → Pc
  copied : ℕ → List Packet → Pc
  emptied : List Packet → Pc
  running : List Packet → Pc

-- `arrived` and `calls` record what came in with the lock free, and what was passed on.
pub record System : Type 0 where
  pub queue : Queue
  pub pc : Pc
  pub arrived : List Packet
  pub calls : List Call

-- What an interrupt adds to the record of arrivals.
abbrev pub arrival : Bool → ℕ → List ℕ → List Packet
arrival true irq bytes = []
arrival false irq bytes =
    if (irq == 12) || (irq == 1) then (record { irq = irq; bytes = bytes }) ∷ [] else []

abbrev pub system : List Packet → Bool → Pc → List Packet → List Call → System
system packets lock pc arrived calls = record {
  queue = record { packets = packets; lock = lock };
  pc = pc;
  arrived = arrived;
  calls = calls;
}

pub data Step : System → System → Type 0 where
  interrupt :
      (q : Queue) (pc : Pc) (a : List Packet) (c : List Call) (irq : ℕ) (bytes : List ℕ)
      (q' : Queue) (out : List PortWrite)
      → handle_irq q irq bytes ≡ done (q', out)
      → Step
          (record { queue = q; pc = pc; arrived = a; calls = c })
          (record { queue = q'; pc = pc; arrived = a ++ arrival q.lock irq bytes; calls = c })
  test :
      (ps a : List Packet) (c : List Call)
      → Step (system ps false idle a c) (system ps false tested a c)
  take_lock :
      (ps a : List Packet) (l : Bool) (c : List Call)
      → Step (system ps l tested a c) (system ps true locked a c)
  count :
      (ps a : List Packet) (l : Bool) (c : List Call)
      → Step (system ps l locked a c) (system ps l (counted (length ps)) a c)
  copy :
      (ps a : List Packet) (l : Bool) (c : List Call) (n : ℕ)
      → Step (system ps l (counted n) a c) (system ps l (copied n ps) a c)
  reset :
      (ps a : List Packet) (l : Bool) (c : List Call) (n : ℕ) (local_packets : List Packet)
      → Step
          (system ps l (copied n local_packets) a c)
          (system [] l (emptied (take n local_packets)) a c)
  release :
      (ps a : List Packet) (l : Bool) (c : List Call) (rest : List Packet)
      → Step (system ps l (emptied rest) a c) (system ps false (running rest) a c)
  skip :
      (ps a : List Packet) (l : Bool) (c : List Call) (p : Packet) (rest : List Packet)
      → p.bytes ≡ []
      → Step (system ps l (running (p ∷ rest)) a c) (system ps l (running rest) a c)
  call :
      (ps a : List Packet) (l : Bool) (c : List Call) (p : Packet) (rest : List Packet)
      → p.bytes ≢ []
      → Step
          (system ps l (running (p ∷ rest)) a c)
          (system ps l (running rest) a (c ++ (p.irq, p.bytes) ∷ []))
  finish :
      (ps a : List Packet) (l : Bool) (c : List Call)
      → Step (system ps l (running []) a c) (system ps l idle a c)

pub data Reach (s : System) : System → Type 0 where
  here : Reach s s
  next : {t u : System} → Reach s t → Step t u → Reach s u

abbrev pub boot : System
boot = system [] false idle [] []
