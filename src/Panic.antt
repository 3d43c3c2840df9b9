-- ===== src/Panic.antt =====
-- `panic` of src/sys/panic.c: the message is formatted into a buffer and drawn on the screen. The
-- processor halts behind it.
pub mod Safe
pub mod Tests
use umka_os.Base.{
  ℕ, ◌+◌, ◌*◌, true, false, List, [], ◌∷◌, ◌++◌, ◌==◌, Text, codes, Res, fault, if◌then◌else◌,
  ◌>>=◌,
}
use umka_os.Base.Int.{pos}
use umka_os.Fmt.Printf.{Arg}
use umka_os.Fmt.Printf.Argument.{Doubles}
use umka_os.Fmt.Printf.Run.{vsnprintf}
use umka_os.Gfx.Draw.{Screen}
use umka_os.Gfx.Queue.{Bytes, Assets, Frame, swap}
use umka_os.Gfx.Calls.{Call, call_color, call_rect, call_char, apply_all, gfx_dims}

-- The bytes that stand in `buf` in front of the message.
abbrev pub oops : Text
oops = codes "Oops!\n"

-- The loop over `buf` up to its terminator; the characters of a line go from left to right.
unfoldable pub draw_text : ℕ → ℕ → Text → List Call
draw_text col row [] = []
draw_text col row (c ∷ buf) = elim (c == 0) [
  | true ↦ []
  | false ↦ elim (c == 10) [
    | true ↦ draw_text 0 (row + 1) buf
    | false ↦ call_char (pos (col * 8)) (pos (row * 10)) (pos c) ∷ draw_text (col + 1) row buf
  ]
]

-- What is drawn: the screen in black, and the text in red.
unfoldable pub panic_calls : Screen → Text → List Call
panic_calls s buf =
    let (w, h) = gfx_dims s in
    call_color (pos 0) (pos 0) (pos 0)
    ∷ call_rect (record { x = pos 0; y = pos 0; w = pos w; h = pos h })
    ∷ call_color (pos 255) (pos 0) (pos 0)
    ∷ draw_text 0 0 buf

-- `panic`, up to its `hlt`. Where the message leaves no terminator, bytes that were never set are read.
unfoldable pub panic :
    {D : Type 0} → Doubles D → Assets → Bytes → Text → List (Arg D) → Frame → Res Frame
panic d a bytes msg args f = vsnprintf d 4090 msg args >>= λ (w, stores).
    if w.ended
    then (apply_all a (λ n. bytes) (panic_calls a.screen (oops ++ w.data_)) f >>= λ g.
        swap a bytes g)
    else fault
