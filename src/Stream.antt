-- ===== src/Stream.antt =====
-- The sockets of the standard library, as src/backend/nfs/rpc.rs reads and writes them. What a
-- socket will deliver is a list of events, each met by one `read`: some bytes, or an error; behind
-- the last one lies the end of the stream. A `read` of fewer bytes than a chunk holds leaves the
-- rest of it.
use anymount.Prelude.{
  ℕ, zero, suc, ◌-◌, Bool, Option, none, some, List, [], ◌∷◌, ◌++◌, Result, ok, err,
}
use anymount.Prelude.{length, take, drop, leb, if◌then◌else◌}
use anymount.Error.{IoError, ErrorKind, io_error}

-- A chunk has at least one byte, since a `read` of none means the end.
pub data Event : Type 0 where
  chunk : ℕ → List ℕ → Event
  failed : IoError → Event

abbrev pub Stream : Type 0
Stream = List Event

unfoldable pub unread : List ℕ → Stream → Stream
unread [] s = s
unread (b ∷ bs) s = chunk b bs ∷ s

abbrev pub unexpected_eof_error : IoError
unexpected_eof_error = io_error ErrorKind.unexpected_eof "unexpected end of file"

-- What `Read::read_exact` makes of an error: it tries again after `Interrupted` alone.
unfoldable pub is_interrupted : ErrorKind → Bool
is_interrupted ErrorKind.interrupted = Bool.true
is_interrupted k = Bool.false

-- `Read::read_exact` of `want` bytes more.
unfoldable pub read_exact : ℕ → List ℕ → Stream → Result (List ℕ) IoError × Stream
unfolding unread is_interrupted
read_exact zero got s = (ok got, s)
read_exact (suc want) got [] = (err unexpected_eof_error, [])
read_exact (suc want) got (failed e ∷ s) =
    let again = read_exact (suc want) got s in if is_interrupted e.kind then again else (err e, s)
read_exact (suc want) got (chunk b bs ∷ s) =
    let more = read_exact (suc want - length (b ∷ bs)) (got ++ (b ∷ bs)) s in
    if leb (suc want) (length (b ∷ bs))
    then (ok (got ++ take (suc want) (b ∷ bs)), unread (drop (suc want) (b ∷ bs)) s)
    else more

-- What is written to a socket, and what the coming calls of `write_all` meet: `none` takes all the
-- bytes, `some (k, e)` takes `k` of them and fails. Behind the list every call succeeds.
pub record Output : Type 0 where
  pub sent : List ℕ
  pub answers : List (Option (ℕ × IoError))

abbrev answer_next :
    List ℕ → List ℕ → List (Option (ℕ × IoError)) → Result (Unit {0}) IoError × Output
answer_next bytes sent [] = (ok tt, record { sent = sent ++ bytes; answers = [] })
answer_next bytes sent (none ∷ as') = (ok tt, record { sent = sent ++ bytes; answers = as' })
answer_next bytes sent (some (k, e) ∷ as') =
    (err e, record { sent = sent ++ take k bytes; answers = as' })

unfoldable pub write_all : List ℕ → Output → Result (Unit {0}) IoError × Output
write_all bytes o = answer_next bytes o.sent o.answers
