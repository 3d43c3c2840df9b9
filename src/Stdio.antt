-- ===== src/Stdio.antt =====
-- The stdio functions of src/mock_libc/mock_libc.c that move bytes, over the streams of the virtual
-- file system.
pub mod Print
pub mod Start
pub mod Files
pub mod Chars
pub mod Tests
use umka_os.Base.{
  ◌==◌, if◌then◌else◌, fault, ℕ, suc, ◌*◌, ◌/◌, ◌%◌, ◌++◌, [], ◌∷◌, List, length, Text, Res, ok,
  ◌>>=◌,
}
use umka_os.Base.Int.{ℤ, pos}
use umka_os.CString.Compare.{char_value}
use umka_os.Vfs.{Vfs}
use umka_os.Vfs.Stream.{word, Stream, Event, read, write}

-- `EOF`, which this library defines as 0.
abbrev pub eof_value : ℤ
eof_value = pos 0

-- `char c; … return c;`
unfoldable pub char_or_eof : List ℕ → ℤ
char_or_eof [] = eof_value
char_or_eof (c ∷ bytes) = char_value c

unfoldable pub fgetc : Vfs → Stream → Res (ℤ × Stream)
fgetc v s = read v s 1 >>= λ (bytes, s'). ok (char_or_eof bytes, s')

-- `fputc`; one byte is always written.
unfoldable pub fputc : Vfs → Stream → ℕ → Res (Vfs × Stream × List Event)
fputc v s c = write v s (c ∷ [])

-- `fread` with the number of elements that it returns; it divides by their size.
unfoldable pub fread : Vfs → Stream → ℕ → ℕ → Res (ℕ × List ℕ × Stream)
fread v s size nmemb =
    if size == 0
    then fault
    else (read v s (size * nmemb % word) >>= λ (bytes, s'). ok (length bytes / size, bytes, s'))

-- `puts`
unfoldable pub puts : Vfs → Stream → Text → Res (Vfs × Stream × List Event)
puts v s text = write v s text >>= λ (w, s', events).
    fputc w s' b'\n' >>= λ (w', s'', more). ok (w', s'', events ++ more)
