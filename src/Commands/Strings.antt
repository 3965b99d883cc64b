-- ===== src/Commands/Strings.antt =====
-- The strings that the commands of shell.c read.
use shad_os.Base.{ℕ, ◌<◌, ◌≡◌, some, List, length, ap, word}
use shad_os.String.{Bytes}
use shad_os.String.Compare.{IsString, strlen-length, read_bytes-string}
use shad_os.Commands.{text_at}

pub text_at-string :
    (m : Bytes) (p : ℕ) (s : List ℕ) → IsString m p s → length s < word → text_at m p ≡ some s
unfolding text_at
text_at-string m p s is short =
    rw (strlen-length m p s is short, text_at) (ap some (read_bytes-string m p s is))
