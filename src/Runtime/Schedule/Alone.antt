-- ===== src/Runtime/Schedule/Alone.antt =====
-- A round of the scheduler that no interrupt breaks runs to its end.
use umka_os.Base.{
  ℕ, zero, suc, ◌+◌, ◌≡◌, ◌≢◌, refl, sym, ◌∙◌, ap, subst, inl, inr, true, false, List, [], ◌∷◌,
  ◌++◌, arith, length, take, append-nil, append_assoc, take_of_length_le, List-cases,
}
use umka_os.Runtime.{Packet}
use umka_os.Runtime.Schedule.{
  Call, Pc, idle, tested, locked, counted, copied, emptied, running, System, system, Step,
  interrupt, test, take_lock, count, copy, reset, release, skip, call, finish,
}
use umka_os.Runtime.Schedule.Delivery.{to_send, to_send-nil, to_send-cons}

-- Steps of the scheduler, which move it; an interrupt leaves it where it is.
pub data Alone (s : System) : ℕ → System → Type 0 where
  stay : Alone s 0 s
  move : {n : ℕ} {t u : System} → Alone s n t → Step t u → u.pc ≢ t.pc → Alone s (suc n) u

loop_next : System → List Packet → System
loop_next s [] = record s { pc = idle }
loop_next s (p ∷ rest) = elim p.bytes [
  | [] ↦ record s { pc = running rest }
  | b ∷ bytes ↦ record s { pc = running rest; calls = s.calls ++ (p.irq, b ∷ bytes) ∷ [] }
]

-- Where the scheduler goes from a state.
advance : System → System
advance s = elim s.pc [
  | idle ↦ record s { pc = tested }
  | tested ↦ record s { pc = locked; queue = record s.queue { lock = true } }
  | locked ↦ record s { pc = counted (length s.queue.packets) }
  | counted n ↦ record s { pc = copied n s.queue.packets }
  | copied n packets ↦ record s {
    pc = emptied (take n packets);
    queue = record s.queue { packets = [] };
  }
  | emptied rest ↦ record s { pc = running rest; queue = record s.queue { lock = false } }
  | running rest ↦ loop_next s rest
]

Step-advance : {s t : System} → Step s t → t.pc ≢ s.pc → t ≡ advance s
unfolding advance loop_next
Step-advance (interrupt q pc a c irq bytes q' out e) moved = absurd (moved refl)
Step-advance (test ps a c) moved = refl
Step-advance (take_lock ps a l c) moved = refl
Step-advance (count ps a l c) moved = refl
Step-advance (copy ps a l c n) moved = refl
Step-advance (reset ps a l c n packets) moved = refl
Step-advance (release ps a l c rest) moved = refl
Step-advance (skip ps a l c p rest e) moved = rw (e) refl
Step-advance (call ps a l c p rest ne) moved = elim (List-cases p.bytes) [
  | inl e ↦ absurd (ne e)
  | inr (b, bytes, e) ↦ rw (e) refl
]
Step-advance (finish ps a l c) moved = refl

iterate : ℕ → System → System
iterate zero s = s
iterate (suc n) s = advance (iterate n s)

Alone-iterate : {s t : System} {n : ℕ} → Alone s n t → t ≡ iterate n s
unfolding iterate
Alone-iterate stay = refl
Alone-iterate (move run step moved) = Step-advance step moved ∙ ap advance (Alone-iterate run)

abbrev remaining : Pc → ℕ
remaining (running rest) = length rest
remaining idle = 0
remaining tested = 0
remaining locked = 0
remaining (counted n) = 0
remaining (copied n packets) = 0
remaining (emptied rest) = 0

running_moved : (p : Packet) (rest : List Packet) → running rest ≢ running (p ∷ rest)
running_moved p rest e = let same : length rest ≡ suc (length rest) = ap remaining e in omega arith

-- The loop visits every packet and calls `umkaIRQFn` for those that are not empty.
Alone-loop :
    {s : System} (ps a : List Packet) (rest : List Packet) (c : List Call) (n : ℕ)
    → Alone s n (system ps false (running rest) a c)
    → Alone s (n + length rest + 1) (system ps false idle a (c ++ to_send rest))
unfolding to_send
Alone-loop {s} ps a [] c n r =
    let k : suc n ≡ n + 0 + 1 = omega arith in
    subst (λ k. Alone s k (system ps false idle a (c ++ []))) k
      (subst (λ d. Alone s (suc n) (system ps false idle a d)) (sym (append-nil c))
        (move r (finish ps a false c) (λ e. cc)))
Alone-loop {s} ps a (p ∷ rest) c n r =
    let k : suc n + length rest + 1 ≡ n + suc (length rest) + 1 = omega arith in
    subst (λ k. Alone s k (system ps false idle a (c ++ to_send (p ∷ rest)))) k
      (elim (List-cases p.bytes) [
        | inl e ↦
            subst (λ d. Alone s (suc n + length rest + 1) (system ps false idle a (c ++ d)))
              (sym (to_send-nil p rest e))
              (Alone-loop ps a rest c (suc n)
                (move r (skip ps a false c p rest e) (running_moved p rest)))
        | inr (b, bytes, e) ↦
            subst (λ d. Alone s (suc n + length rest + 1) (system ps false idle a d))
              (append_assoc c ((p.irq, p.bytes) ∷ []) (to_send rest)
                ∙ ap (λ d. c ++ d) (sym (to_send-cons p rest (λ z. cc))))
              (Alone-loop ps a rest (c ++ (p.irq, p.bytes) ∷ []) (suc n)
                (move r (call ps a false c p rest (λ z. cc)) (running_moved p rest)))
      ])

-- The steps of a round over the queue.
abbrev pub round_steps : List Packet → ℕ
round_steps ps = 6 + length ps + 1

-- From an idle state with the lock free, the scheduler without an interrupt can make as many steps as
-- it has packets and 7 more, and whichever it makes, it has then passed on every packet of the queue
-- that is not empty, in order, and is idle again, with the queue empty and the lock free.
pub Alone-round :
    (ps a : List Packet) (c : List Call)
    → Alone (system ps false idle a c) (round_steps ps) (system [] false idle a (c ++ to_send ps))
      × ((t : System)
          → Alone (system ps false idle a c) (round_steps ps) t
          → t ≡ system [] false idle a (c ++ to_send ps))
Alone-round ps a c =
    let start = system ps false idle a c in
    let whole = take_of_length_le (length ps) ps (omega arith) in
    let r0 : Alone start 0 start = stay in
    let r1 = move r0 (test ps a c) (λ e. cc) in
    let r2 = move r1 (take_lock ps a false c) (λ e. cc) in
    let r3 = move r2 (count ps a true c) (λ e. cc) in
    let r4 = move r3 (copy ps a true c (length ps)) (λ e. cc) in
    let r5 = move r4 (reset ps a true c (length ps) ps) (λ e. cc) in
    let r6 = move r5 (release [] a true c (take (length ps) ps)) (λ e. cc) in
    let done_all : Alone start (round_steps ps) (system [] false idle a (c ++ to_send ps)) =
      subst (λ k. Alone start (6 + length k + 1) (system [] false idle a (c ++ to_send k))) whole
        (Alone-loop [] a (take (length ps) ps) c 6 r6) in
    (done_all, λ t run. Alone-iterate run ∙ sym (Alone-iterate done_all))
