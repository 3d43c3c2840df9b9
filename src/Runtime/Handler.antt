-- ===== src/Runtime/Handler.antt =====
-- What the interrupt handler does with the bytes.
use umka_os.Base.{
  ℕ, ◌+◌, ◌≤◌, ◌<◌, ◌≡◌, sym, ◌∙◌, ap, ◌⊎◌, false, List, [], ◌∷◌, ◌++◌, arith, length,
  length-append, append-nil, append_assoc, lt→ltb,
}
use umka_os.Runtime.{
  >>=-eq-done, done, Packet, Queue, max_bytes, max_packets, add_byte, make_packet, fill,
  acknowledge, receive, handle_irq,
}

-- The bytes are added in order.
fill-append :
    (bytes : List ℕ) (p : Packet)
    → length p.bytes + length bytes ≤ max_bytes
    → fill p bytes ≡ done (record p { bytes = p.bytes ++ bytes })
unfolding fill add_byte
fill-append [] p h = ap (λ l. done (record p { bytes = l })) (sym (append-nil p.bytes))
fill-append (b ∷ bytes) p h = rw (lt→ltb (length p.bytes) max_bytes (omega arith)) (
    fill-append bytes (record p { bytes = p.bytes ++ b ∷ [] })
      (omega (arith, length-append p.bytes (b ∷ [])))
    ∙ ap (λ l. done (record p { bytes = l })) (append_assoc p.bytes (b ∷ []) bytes))

-- With the lock free, room for a packet and at most 128 bytes, a keyboard or mouse interrupt queues exactly the
-- bytes that were there, behind the packets so far, and leaves the lock free.
pub handle_irq-queues :
    (q : Queue) (irq : ℕ) (bytes : List ℕ)
    → q.lock ≡ false
    → (irq ≡ 12) ⊎ (irq ≡ 1)
    → length q.packets < max_packets
    → length bytes ≤ max_bytes
    → handle_irq q irq bytes
      ≡ done (
        record { packets = q.packets ++ (record { irq = irq; bytes = bytes }) ∷ []; lock = false },
        acknowledge irq,
      )
unfolding handle_irq make_packet
handle_irq-queues q irq bytes free source room fits =
    ground (arith, fill-append bytes (record { irq = irq; bytes = [] }))

add_byte_sound :
    (p : Packet) (b : ℕ) {p' : Packet}
    → add_byte p b ≡ done p'
    → p' ≡ record p { bytes = p.bytes ++ b ∷ [] }
unfolding add_byte
add_byte_sound p b e = ground arith

make_packet_sound :
    (q : Queue) (irq : ℕ) {p : Packet}
    → make_packet q irq ≡ done p
    → p ≡ record { irq = irq; bytes = [] }
unfolding make_packet
make_packet_sound q irq e = ground arith

-- Whatever is added, the packet keeps its source.
pub fill_sound :
    (bytes : List ℕ) (p : Packet) {p' : Packet}
    → fill p bytes ≡ done p'
    → p' ≡ record p { bytes = p.bytes ++ bytes }
unfolding fill
fill_sound [] p e = ground (arith, append-nil p.bytes)
fill_sound (b ∷ bytes) p {p' = p'} e =
    let (p1, added, rest) = >>=-eq-done (add_byte p b) (λ k. fill k bytes) e in
    let same : p1 ≡ record p { bytes = p.bytes ++ b ∷ [] } = add_byte_sound p b added in
    fill_sound bytes p1 rest
    ∙ ap {A = Packet} {B = Packet} (λ k. record k { bytes = k.bytes ++ bytes }) same
    ∙ ap {B = Packet} (λ l. record p { bytes = l }) (append_assoc p.bytes (b ∷ []) bytes)

pub receive_sound :
    (q : Queue) (irq : ℕ) (bytes : List ℕ) {q' : Queue}
    → receive q irq bytes ≡ done q'
    → q'
      ≡ record { packets = q.packets ++ (record { irq = irq; bytes = bytes }) ∷ []; lock = false }
unfolding receive
receive_sound q irq bytes e =
    let (p, made, e1) = >>=-eq-done (make_packet q irq) _ e in
    let (p1, filled, e2) = >>=-eq-done (fill p bytes) _ e1 in
    let blank : p ≡ record { irq = irq; bytes = [] } = make_packet_sound q irq made in
    let full : p1 ≡ record { irq = irq; bytes = bytes } =
      fill_sound bytes p filled
      ∙ ap {A = Packet} {B = Packet} (λ k. record k { bytes = k.bytes ++ bytes }) blank in
    ground arith
