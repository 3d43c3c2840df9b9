-- ===== src/Fmt/Printf/Run/Buffer.antt =====
-- `vsnprintf` writes inside of the buffer that it is given.
use umka_os.Base.{
  ℕ, ◌+◌, ◌-◌, ◌%◌, ◌≡◌, ◌≢◌, refl, List, [], arith, false, inl, inr, Bool-cases, if◌then◌else◌,
  min, length, take, Text, ok,
}
use umka_os.Fmt.{size_word, Writer, str_write}
use umka_os.Fmt.Truncate.{kept, str_write-kept}
use umka_os.Fmt.Printf.{Arg}
use umka_os.Fmt.Printf.Argument.{Doubles}
use umka_os.Fmt.Printf.Run.{Printing, fmtvprintf, vsnprintf}

pub vsnprintf-take :
    {D : Type 0} (d : Doubles D) (size : ℕ) (fmt : Text) (args : List (Arg D)) (s : Printing D)
    → size ≢ 0
    → fmtvprintf d (λ n. min n (size - 1)) fmt args ≡ ok s
    → vsnprintf d size fmt args
      ≡ ok (
        record {
          data_ = if s.written then take (size - 1) s.out else [];
          size = size;
          supposedoffs = if s.written then length s.out % size_word else 0;
          ended = s.written;
        },
        s.stores,
      )
unfolding vsnprintf
vsnprintf-take d size fmt args s some e =
    let empty : Writer = record { data_ = []; size = size; supposedoffs = 0; ended = false } in
    let write : str_write empty s.out ≡ kept empty s.out =
      str_write-kept empty s.out some (omega arith) in
    let count : 0 + length s.out ≡ length s.out = omega arith in
    elim (Bool-cases s.written) [
      | inl any ↦ rw (vsnprintf, e, any, write, count) refl
      | inr none ↦ rw (vsnprintf, e, none) refl
    ]
