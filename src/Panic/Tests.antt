-- ===== src/Panic/Tests.antt =====
-- A panic in the middle of a frame.
use umka_os.Base.{true, ℕ, [], codes}
use umka_os.Fmt.Printf.Run.{Printing}

abbrev message : Printing ℕ
message = record { out = codes "No\nIRQ"; args = []; stores = []; written = true }
