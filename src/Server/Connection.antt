-- ===== src/Server/Connection.antt =====
-- The loop of one connection in src/backend/nfs/server.rs, on a client whose messages arrive whole.
use anymount.Prelude.{
  ℕ, ◌≤◌, ◌≡◌, sym, ap, false, some, Result, List, [], ◌∷◌, ◌++◌, ok, length, append_assoc,
  append-nil,
}
use anymount.Error.{IoError}
use anymount.Fs.{ReadOnlyFs, ◌>>=◌}
use anymount.Stream.{Stream, chunk, failed, Output}
use anymount.Handle.{FileHandle3}
use anymount.Rpc.{read_message, max_fragment_len, after_header, read_exact_or_eof}
use anymount.Rpc.Chunks.{bytes_of, IsClean}
use anymount.Rpc.Framing.{sent_of, read_message-sent, write_message-sent}
use anymount.Server.Defs.{handle_message, Seen, returned, serve_connection}

-- Messages on the wire, one behind the other.
unfoldable pub wire : List (List ℕ) → List ℕ
wire [] = []
wire (body ∷ bodies) = sent_of body ++ wire bodies

-- A call, as it is seen when it is read.
abbrev pub Call : Type 0
Call = Seen × List ℕ

unfoldable pub bodies_of : List Call → List (List ℕ)
bodies_of [] = []
bodies_of (c ∷ calls) = c.1 ∷ bodies_of calls

unfoldable pub rounds_of : List Call → Seen → List Seen
rounds_of [] last = last ∷ []
rounds_of (c ∷ calls) last = c.0 ∷ rounds_of calls last

module _ (F : ReadOnlyFs) (fuel : ℕ) (handle : FileHandle3) where
  -- `replies` is what `handle_message` answers to the calls in turn, each on the state that those
  -- before it left, and `s'` is the state at the end.
  abbrev pub Replies : List Call → List (List ℕ) → F.State → F.State → Type 0
  Replies [] replies s s' = (replies ≡ []) × (s' ≡ s)
  Replies ((seen, body) ∷ calls) replies s s' =
      (seen.stop ≡ false)
      × (length body ≤ max_fragment_len)
      × (reply : List ℕ) × (rest : List (List ℕ)) × (replies ≡ reply ∷ rest)
      × ((handle_message F fuel handle seen.config body s).0 ≡ some (some reply))
      × Replies calls rest (handle_message F fuel handle seen.config body s).1 s'

  round_answers :
      (seen : Seen) (rounds : List Seen) (body reply sent : List ℕ) (t : Stream) (s : F.State)
      → seen.stop ≡ false
      → (read_message t).0 ≡ ok (some body)
      → (handle_message F fuel handle seen.config body s).0 ≡ some (some reply)
      → serve_connection F fuel handle (seen ∷ rounds) t (record { sent = sent; answers = [] }) s
        ≡ serve_connection F fuel handle rounds
            (read_message t).1
            (record { sent = sent ++ sent_of reply; answers = [] })
            (handle_message F fuel handle seen.config body s).1
  unfolding serve_connection
  round_answers seen rounds body reply sent t s on r h =
      rw (on, serve_connection, r, ◌>>=◌, h, write_message-sent reply sent)
        (ap
          (λ (x : Result (Unit {0}) IoError × Output).
            serve_connection F fuel handle rounds (read_message t).1 x.1
              (handle_message F fuel handle seen.config body s).1)
          (write_message-sent reply sent))

  -- The end of the stream.
  round_ends :
      (seen : Seen) (t : Stream) (o : Output) (s : F.State)
      → seen.stop ≡ false
      → IsClean t
      → bytes_of t ≡ []
      → serve_connection F fuel handle (seen ∷ []) t o s ≡ ((returned, o), s)
  unfolding serve_connection read_message after_header read_exact_or_eof bytes_of
  round_ends seen [] o s on c e = rw (on, serve_connection)
  round_ends seen (failed x ∷ t) o s on c e = elim c [ ]
  round_ends seen (chunk b bs ∷ t) o s on c e = absurd (cons-nil e)
    where
      cons-nil : {A : Type 0} {a : A} {l : List A} → a ∷ l ≡ [] → ⊥
      cons-nil h = cc

  serve-Replies :
      (calls : List Call) (replies : List (List ℕ)) (last : Seen) (sent : List ℕ) (t : Stream)
      (s s' : F.State)
      → Replies calls replies s s'
      → last.stop ≡ false
      → IsClean t
      → bytes_of t ≡ wire (bodies_of calls)
      → serve_connection F fuel handle
          (rounds_of calls last)
          t
          (record { sent = sent; answers = [] })
          s
        ≡ ((returned, record { sent = sent ++ wire replies; answers = [] }), s')
  unfolding wire bodies_of rounds_of
  serve-Replies [] replies last sent t s s' (none_left, same) on c e =
      rw (none_left, same, append-nil sent) (round_ends last t _ s on c e)
  serve-Replies ((seen, body) ∷ calls) replies last sent t s s'
        (running, fits, reply, rest, split, h, more) on c e =
      let (r, behind, c') = read_message-sent body (wire (bodies_of calls)) t fits c e in
      rw
        (
          split,
          round_answers seen (rounds_of calls last) body reply sent t s running r h,
          sym (append_assoc sent (sent_of reply) (wire rest)),
        )
        (serve-Replies calls rest last (sent ++ sent_of reply) (read_message t).1
          (handle_message F fuel handle seen.config body s).1 s' more on c' behind)

  -- A client that sends its calls, in whatever chunks they arrive, and then closes the connection,
  -- while no read or write fails and the server is not stopped, is answered every call once, in order,
  -- with what `handle_message` answers to it; the loop then returns. The server's flags may change
  -- from call to call.
  pub serve_connection-Replies :
      (calls : List Call) (replies : List (List ℕ)) (last : Seen) (t : Stream) (s s' : F.State)
      → Replies calls replies s s'
      → last.stop ≡ false
      → IsClean t
      → bytes_of t ≡ wire (bodies_of calls)
      → serve_connection F fuel handle
          (rounds_of calls last)
          t
          (record { sent = []; answers = [] })
          s
        ≡ ((returned, record { sent = wire replies; answers = [] }), s')
  serve_connection-Replies calls replies last t s s' h on c e =
      serve-Replies calls replies last [] t s s' h on c e
