-- ===== src/Loader/Join.antt =====
-- The path that the loader prints into `temp`.
use umka_os.Base.{
  true, ℕ, suc, ◌+◌, ◌-◌, ◌<◌, ◌≤◌, ◌^◌, ◌≡◌, refl, false, [], ◌∷◌, ◌++◌, min, append_assoc, arith,
  length, length-append, take_of_length_le, lt→ltb, Text, codes, slash, ok,
}
use umka_os.Base.Int.{pos, ◌-ℤ◌, checked}
use umka_os.Fmt.Printf.{
  string, set_flag, parse_flags, decimal, scan_int, parse_width, parse_precision, parse_length,
  parse_spec,
}
use umka_os.Fmt.Printf.Argument.{Doubles}
use umka_os.Fmt.Printf.Layout.{justify, repeat}
use umka_os.Fmt.Printf.Run.{
  put, next_string, string_size, string_part, print_string, print_directive, print_letter,
  directive, run, fmtvprintf,
}
use umka_os.Fmt.Printf.Run.Buffer.{vsnprintf-take}
use umka_os.Stdio.Print.{sprintf}
use umka_os.Loader.{temp_size, join}

-- With no width there is no padding.
justify-none :
    (text : Text) → length text ≤ 2 ^ 31 → justify false (pos 0) (pos (length text)) text ≡ ok text
unfolding justify checked ◌-ℤ◌ repeat
justify-none text short = ground arith

module _ {D : Type 0} (d : Doubles D) where
  fmtvprintf-join :
      (told : ℕ → ℕ) (path name : Text)
      → length path ≤ 2 ^ 31
      → length name ≤ 2 ^ 31
      → fmtvprintf d told (codes "%s/%s") (string path ∷ string name ∷ [])
        ≡ ok (record { out = (path ++ slash ∷ []) ++ name; args = []; stores = []; written = true })
  unfolding fmtvprintf run directive parse_spec parse_flags set_flag parse_width parse_precision
      parse_length print_letter print_directive print_string next_string string_size string_part put
      scan_int decimal
  fmtvprintf-join told path name h g =
      rw
        (
          take_of_length_le (length path) path (omega arith),
          justify-none path h,
          take_of_length_le (length name) name (omega arith),
          justify-none name g,
        )
        refl

  -- A path that fits `temp` is printed whole.
  pub join-ok :
      (path name : Text)
      → length path + suc (length name) < temp_size
      → join d path name ≡ ok (path ++ slash ∷ name)
  unfolding join sprintf
  join-ok path name fits =
      let whole = append_assoc path (slash ∷ []) name in
      let size = length-append path (slash ∷ name) in
      let printed =
        fmtvprintf-join (λ n. min n (2 ^ 32 - 1 - 1)) path name (omega arith) (omega arith) in
      rw
        (
          vsnprintf-take d (2 ^ 32 - 1) (codes "%s/%s") (string path ∷ string name ∷ []) _
              (omega arith) printed,
          whole,
          take_of_length_le (2 ^ 32 - 1 - 1) (path ++ slash ∷ name) (omega arith),
          lt→ltb (length (path ++ slash ∷ name)) temp_size (omega arith),
        )
        refl
