-- ===== src/Stdio/Print.antt =====
-- Printing to a string: `sprintf` and `snprintf` of src/mock_libc/mock_libc.c.
use umka_os.Base.{◌-◌, ◌^◌, List, Text, Res, ok, fault, if◌then◌else◌, ◌>>=◌}
use umka_os.Fmt.Printf.{Arg}
use umka_os.Fmt.Printf.Argument.{Doubles}
use umka_os.Fmt.Printf.Run.{Store, vsnprintf}

-- `sprintf`: the string that it writes, and what `%n` has stored; a fault where it leaves no string,
-- because nothing is written and so no terminator.
unfoldable pub sprintf : {D : Type 0} → Doubles D → Text → List (Arg D) → Res (Text × List Store)
sprintf d fmt args = vsnprintf d (2 ^ 32 - 1) fmt args >>= λ (w, stores).
    if w.ended then ok (w.data_, stores) else fault
