-- ===== src/Fs/Logged.antt =====
-- A filesystem that keeps a record of the handles it opens and releases beside its own state, so
-- that a theorem can speak of the calls that the crate makes.
use anymount.Prelude.{List, [], ◌∷◌, ◌++◌, ok, err}
use anymount.Types.{FileHandle}
use anymount.Fs.{ReadOnlyFs}

pub data Call : Type 0 where
  opened : FileHandle → Call
  released : FileHandle → Call

-- A failed `open_file` yields no handle and leaves no record.
abbrev pub logged : ReadOnlyFs → ReadOnlyFs
logged F = record {
  State = F.State × List Call;
  lookup = λ i n (s, log). let (a, s') = F.lookup i n s in (a, (s', log));
  getattr = λ i (s, log). let (a, s') = F.getattr i s in (a, (s', log));
  readdir = λ i o (s, log). let (a, s') = F.readdir i o s in (a, (s', log));
  open_file = λ i (s, log).
      let (a, s') = F.open_file i s in
      (a, (s', elim a [ ok fh ↦ log ++ (opened fh ∷ []) | err e ↦ log ]));
  read_at = λ fh o b (s, log). let (a, s') = F.read_at fh o b s in (a, (s', log));
  release = λ fh (s, log). let (a, s') = F.release fh s in (a, (s', log ++ (released fh ∷ [])));
  forget = λ i n (s, log). let (a, s') = F.forget i n s in (a, (s', log));
  listxattr = λ i (s, log). let (a, s') = F.listxattr i s in (a, (s', log));
  getxattr = λ i n (s, log). let (a, s') = F.getxattr i n s in (a, (s', log));
  statfs = λ (s, log). let (a, s') = F.statfs s in (a, (s', log));
}
