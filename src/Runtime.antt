-- ===== src/Runtime.antt =====
-- The interrupt queue of src/sys/umka.c: packets that the interrupt handler fills and the
-- scheduler hands to the Umka code.
pub mod Handler
pub mod Schedule
pub mod Tests
use umka_os.Base.{
  ◌⊎◌, inl, inr, ◌≡◌, refl, ℕ, suc, Bool, true, false, ◌||◌, List, [], ◌∷◌, ◌++◌, ◌==◌, ltb, leb,
  if◌then◌else◌, length,
}

-- `panic` does not return: it disables interrupts and halts.
pub data Outcome {ℓ} (A : Type ℓ) : Type ℓ where
  done : A → Outcome A
  panicked : Outcome A

infixl 5 ◌>>=◌
abbrev pub ◌>>=◌ {ℓ κ} : {A : Type ℓ} {B : Type κ} → Outcome A → (A → Outcome B) → Outcome B
panicked >>= next = panicked
done result >>= next = next result

pub Outcome-cases {ℓ} : {A : Type ℓ} (m : Outcome A) → (m ≡ panicked) ⊎ ((a : A) × (m ≡ done a))
Outcome-cases panicked = inl refl
Outcome-cases (done a) = inr (a, refl)

module _ {ℓ κ} {A : Type ℓ} {B : Type κ} where
  pub >>=-eq-done :
      (first : Outcome A) (rest : A → Outcome B) {out : B}
      → (first >>= rest) ≡ done out
      → (mid : A) × (first ≡ done mid) × (rest mid ≡ done out)
  >>=-eq-done panicked rest chain = cc
  >>=-eq-done (done mid) rest chain = (mid, refl, chain)

-- `bytes` is `bytes[0 .. length)`.
pub record Packet : Type 0 where
  pub irq : ℕ
  pub bytes : List ℕ

-- `packets[0 .. packet_count)` and `umkaLock`.
pub record Queue : Type 0 where
  pub packets : List Packet
  pub lock : Bool

-- `sizeof(packet->bytes)`
abbrev pub max_bytes : ℕ
max_bytes = 128

-- The size of the array `packets`.
abbrev pub max_packets : ℕ
max_packets = 128

-- `packetAddByte`
unfoldable pub add_byte : Packet → ℕ → Outcome Packet
add_byte p b =
    if ltb (length p.bytes) max_bytes
    then done (record p { bytes = p.bytes ++ b ∷ [] })
    else panicked

-- `makePacket`; the new packet is the last of the list.
unfoldable pub make_packet : Queue → ℕ → Outcome Packet
make_packet q irq =
    if leb max_packets (length q.packets) then panicked else done (record { irq = irq; bytes = [] })

-- `while ((in8(0x64) & 1) == 1) packetAddByte(p, in8(0x60))`: the list is what the controller
-- delivers until its status says that it has no more.
unfoldable pub fill : Packet → List ℕ → Outcome Packet
fill p [] = done p
fill p (b ∷ bytes) = add_byte p b >>= λ p'. fill p' bytes

-- A write to an I/O port.
abbrev pub PortWrite : Type 0
PortWrite = ℕ × ℕ

-- The end of interrupt for the two controllers.
unfoldable pub acknowledge : ℕ → List PortWrite
acknowledge irq = if leb 8 irq then (0xA0, 0x20) ∷ (0x20, 0x20) ∷ [] else (0x20, 0x20) ∷ []

unfoldable pub receive : Queue → ℕ → List ℕ → Outcome Queue
receive q irq bytes = make_packet q irq >>= λ p.
    fill p bytes >>= λ p'. done (record { packets = q.packets ++ p' ∷ []; lock = false })

-- `umkaRuntimeHandleIRQ` on the bytes that the keyboard controller has: they are queued, or read
-- and dropped.
unfoldable pub handle_irq : Queue → ℕ → List ℕ → Outcome (Queue × List PortWrite)
unfolding acknowledge receive
handle_irq q irq bytes =
    if q.lock
    then done (q, acknowledge irq)
    else if (irq == 12) || (irq == 1)
    then (receive q irq bytes >>= λ q'. done (q', acknowledge irq))
    else done (q, acknowledge irq)
