-- ===== src/Runtime/Schedule/Delivery.antt =====
-- Nothing that arrives with the lock free is lost, doubled or reordered, whenever interrupts come.
use umka_os.Base.{
  subst, ℕ, ◌≡◌, ◌≢◌, refl, sym, ◌∙◌, ap, inl, inr, true, false, Bool, List, [], ◌∷◌, ◌++◌, arith,
  length, take, append-nil, append_assoc, take_of_length_le,
}
use umka_os.Runtime.Handler.{receive_sound}
use umka_os.Runtime.{Outcome-cases, receive, Packet, Queue, PortWrite, done, handle_irq}
use umka_os.Runtime.Schedule.{
  Call, Pc, idle, tested, locked, counted, copied, emptied, running, System, arrival, Step,
  interrupt, test, take_lock, count, copy, reset, release, skip, call, finish, Reach, here, next,
  boot,
}

-- What is to be passed on: the packets that are not empty.
unfoldable pub to_send : List Packet → List Call
to_send [] = []
to_send (p ∷ packets) = elim p.bytes [
  | [] ↦ to_send packets
  | b ∷ bytes ↦ (p.irq, b ∷ bytes) ∷ to_send packets
]

to_send-append : (xs ys : List Packet) → to_send (xs ++ ys) ≡ to_send xs ++ to_send ys
unfolding to_send
to_send-append [] ys = refl
to_send-append (p ∷ xs) ys = ground (arith, to_send-append xs ys)

-- The packets that the scheduler has taken out of the queue and not visited yet.
abbrev pub taken : Pc → List Packet
taken idle = []
taken tested = []
taken locked = []
taken (counted n) = []
taken (copied n l) = []
taken (emptied l) = l
taken (running l) = l

abbrev pub holds_lock : Pc → Bool
holds_lock idle = false
holds_lock tested = false
holds_lock locked = true
holds_lock (counted n) = true
holds_lock (copied n l) = true
holds_lock (emptied l) = true
holds_lock (running l) = false

-- The copies agree with the queue as long as the lock is held.
abbrev pub Agrees : Pc → List Packet → Type 0
Agrees (counted n) packets = n ≡ length packets
Agrees (copied n l) packets = (n ≡ length l) × (l ≡ packets)
Agrees _ packets = Unit

pub record IsSound (s : System) : Type 0 where
  pub sent : to_send s.arrived ≡ s.calls ++ to_send (taken s.pc ++ s.queue.packets)
  pub lock : s.queue.lock ≡ holds_lock s.pc
  pub agrees : Agrees s.pc s.queue.packets

-- The handler queues what it counts as arrived, and never touches the queue under the lock.
handle_irq-arrival :
    (q : Queue) (irq : ℕ) (bytes : List ℕ) {q' : Queue} {out : List PortWrite}
    → handle_irq q irq bytes ≡ done (q', out)
    → (q'.packets ≡ q.packets ++ arrival q.lock irq bytes) × (q'.lock ≡ q.lock)
unfolding handle_irq
handle_irq-arrival q irq bytes {q' = q'} e = elim (Outcome-cases (receive q irq bytes)) [
  | inl failed ↦ ground (arith, append-nil q.packets)
  | inr (q1, received) ↦
      let same = receive_sound q irq bytes received in ground (arith, append-nil q.packets)
]

pub to_send-nil : (p : Packet) (ps : List Packet) → p.bytes ≡ [] → to_send (p ∷ ps) ≡ to_send ps
unfolding to_send
to_send-nil p ps e = ground arith

pub to_send-cons :
    (p : Packet) (ps : List Packet)
    → p.bytes ≢ []
    → to_send (p ∷ ps) ≡ (p.irq, p.bytes) ∷ to_send ps
unfolding to_send
to_send-cons p ps h = ground arith

arrival-locked :
    (lock : Bool) (irq : ℕ) (bytes : List ℕ) → lock ≡ true → arrival lock irq bytes ≡ []
arrival-locked true irq bytes h = refl
arrival-locked false irq bytes h = cc

-- What is queued meanwhile leaves the copies in agreement: under the lock nothing is.
Agrees-arrival :
    (pc : Pc) (ps : List Packet) (lock : Bool) (irq : ℕ) (bytes : List ℕ)
    → lock ≡ holds_lock pc
    → Agrees pc ps
    → Agrees pc (ps ++ arrival lock irq bytes)
Agrees-arrival idle ps lock irq bytes held same = tt
Agrees-arrival tested ps lock irq bytes held same = tt
Agrees-arrival locked ps lock irq bytes held same = tt
Agrees-arrival (counted n) ps lock irq bytes held same =
    rw (arrival-locked lock irq bytes held, append-nil ps) same
Agrees-arrival (copied n l) ps lock irq bytes held same =
    rw (arrival-locked lock irq bytes held, append-nil ps) same
Agrees-arrival (emptied l) ps lock irq bytes held same = tt
Agrees-arrival (running l) ps lock irq bytes held same = tt

to_send-behind :
    (a c : List Call) (l ps new : List Packet)
    → a ≡ c ++ to_send (l ++ ps)
    → a ++ to_send new ≡ c ++ to_send (l ++ (ps ++ new))
to_send-behind a c l ps new e =
    ap (λ k. k ++ to_send new) e
    ∙ append_assoc c (to_send (l ++ ps)) (to_send new)
    ∙ ap (λ k. c ++ k) (sym (to_send-append (l ++ ps) new) ∙ ap to_send (append_assoc l ps new))

pub Step-IsSound : {s t : System} → Step s t → IsSound s → IsSound t
Step-IsSound (interrupt q pc a c irq bytes q' out e) v =
    let (queued, kept) = handle_irq-arrival q irq bytes e in
    let new : List Packet = arrival q.lock irq bytes in
    record {
      sent =
          to_send-append a new
          ∙ to_send-behind (to_send a) c (taken pc) q.packets new v.sent
          ∙ ap (λ k. c ++ to_send (taken pc ++ k)) (sym queued);
      lock = kept ∙ v.lock;
      agrees =
          subst (Agrees pc) (sym queued)
            (Agrees-arrival pc q.packets q.lock irq bytes v.lock v.agrees);
    }
Step-IsSound (test ps a c) v = record { sent = v.sent; lock = refl; agrees = tt }
Step-IsSound (take_lock ps a l c) v = record { sent = v.sent; lock = refl; agrees = tt }
Step-IsSound (count ps a l c) v = record { sent = v.sent; lock = v.lock; agrees = refl }
Step-IsSound (copy ps a l c n) v = record {
  sent = v.sent;
  lock = v.lock;
  agrees = (v.agrees, refl);
}
Step-IsSound (reset ps a l c n ls) v = record {
  sent =
      v.sent
      ∙ ap (λ k. c ++ to_send k)
          (sym (v.agrees.1)
            ∙ sym (take_of_length_le n ls (omega (arith, v.agrees.0)))
            ∙ sym (append-nil (take n ls)));
  lock = v.lock;
  agrees = tt;
}
Step-IsSound (release ps a l c rest) v = record { sent = v.sent; lock = refl; agrees = tt }
Step-IsSound (skip ps a l c p rest e) v = record {
  sent = v.sent ∙ ap (λ k. c ++ k) (to_send-nil p (rest ++ ps) e);
  lock = v.lock;
  agrees = tt;
}
Step-IsSound (call ps a l c p rest h) v = record {
  sent =
      v.sent
      ∙ ap (λ k. c ++ k) (to_send-cons p (rest ++ ps) h)
      ∙ sym (append_assoc c ((p.irq, p.bytes) ∷ []) (to_send (rest ++ ps)));
  lock = v.lock;
  agrees = tt;
}
Step-IsSound (finish ps a l c) v = record { sent = v.sent; lock = v.lock; agrees = tt }

Reach-IsSound : {s : System} → Reach boot s → IsSound s
Reach-IsSound here = record { sent = refl; lock = refl; agrees = tt }
Reach-IsSound (next r step) = Step-IsSound step (Reach-IsSound r)

-- In every state that the system reaches from boot, whenever the interrupts came, the calls made
-- so far followed by the packets that still wait, in the scheduler's copy and then in the queue,
-- are the packets that arrived with the lock free: each one that is not empty once and in order.
pub Reach-delivers :
    {s : System}
    → Reach boot s
    → to_send s.arrived ≡ s.calls ++ to_send (taken s.pc ++ s.queue.packets)
Reach-delivers r = (Reach-IsSound r).sent
